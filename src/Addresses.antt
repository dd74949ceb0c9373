-- ===== src/Addresses.antt =====
-- IPv4 addresses as text: ipv4_to_string of src/decode.cpp, parse_cidr of src/policy.cpp and parse_ip
-- of src/main.cpp.
pub mod Quads
use nano_ngfw.Prelude.{
  ℕ, zero, suc, ◌+◌, ◌-◌, ◌*◌, ◌/◌, ◌%◌, ◌^◌, Bool, true, false, not, List, [], ◌∷◌, ◌++◌, Option,
  none, some, ltb, leb, ◌==◌, if◌then◌else◌, ◌>>=◌, length, Text, is_empty, ℤ, pos, negsuc,
}
use nano_ngfw.Strings.{is_digit, to_string, strtol, split_at_first, get_lines}

unfoldable pub ipv4_to_string : ℕ → Text
ipv4_to_string addr =
    to_string (addr / 2 ^ 24 % 2 ^ 8)
    ++ (b'.' ∷ to_string (addr / 2 ^ 16 % 2 ^ 8)
        ++ (b'.' ∷ to_string (addr / 2 ^ 8 % 2 ^ 8) ++ (b'.' ∷ to_string (addr % 2 ^ 8))))

-- `(addr << 8) | value` for a value below 256.
abbrev pub shift_in : ℕ → ℕ → ℕ
shift_in addr value = (addr * 2 ^ 8 + value) % 2 ^ 32

-- split of policy.cpp: the items between separators, empty ones left out.
abbrev pub drop_empty : List Text → List Text
drop_empty [] = []
drop_empty (item ∷ items) = if is_empty item then drop_empty items else item ∷ drop_empty items

unfoldable pub split : Text → ℕ → List Text
split s sep = drop_empty (get_lines sep s)

-- `value < 0 || value > bound` refuses.
abbrev pub up_to : ℕ → ℤ → Option ℕ
up_to bound (pos n) = if ltb bound n then none else some n
up_to bound (negsuc n) = none

-- The loop of parse_cidr over the octets.
unfoldable pub read_octets : List Text → ℕ → Option ℕ
read_octets [] addr = some addr
read_octets (octet ∷ octets) addr =
    (up_to 255 (strtol octet)) >>= λ value. read_octets octets (shift_in addr value)

-- parse_cidr: network and prefix, unless it returns false.
unfoldable pub parse_cidr : Text → Option (ℕ × ℕ)
parse_cidr text = (split_at_first b'/' text) >>= λ parts.
    let octets = split parts.0 b'.' in
    if not (length octets == 4)
    then none
    else do addr ← read_octets octets 0; bits ← up_to 32 (strtol parts.1); some (addr, bits)

-- The loop of parse_ip over the digits of an octet, with the value so far: the value and what is left
-- of the text, unless parse_ip returns 0 there.
unfoldable pub octet_digits : ℕ → Text → Option (ℕ × Text)
octet_digits value [] = some (value, [])
octet_digits value (c ∷ cs) =
    let value' = value * 10 + (c - b'0') in
    let more = octet_digits value' cs in
    if not (is_digit c) then some (value, c ∷ cs) else if ltb 255 value' then none else more

-- The digits of an octet: at least one.
unfoldable pub octet : Text → Option (ℕ × Text)
octet [] = none
octet (c ∷ cs) = if is_digit c then octet_digits 0 (c ∷ cs) else none

-- The octets behind the first one, `n` of them: each begins with a dot.
unfoldable pub ip_octets : ℕ → ℕ → Text → Option (ℕ × Text)
ip_octets zero addr text = some (addr, text)
ip_octets (suc n) addr [] = none
ip_octets (suc n) addr (c ∷ cs) =
    if c == b'.' then ((octet cs) >>= λ o. ip_octets n (shift_in addr o.0) o.1) else none

-- parse_ip: 0 on anything malformed.
abbrev pub or_zero : Option (ℕ × Text) → ℕ
or_zero none = 0
or_zero (some (addr, rest)) = if is_empty rest then addr else 0

unfoldable pub parse_ip : Text → ℕ
parse_ip text = or_zero ((octet text) >>= λ o. ip_octets 3 (shift_in 0 o.0) o.1)
