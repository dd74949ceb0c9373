-- ===== src/Strings.antt =====
-- What the sources use of the C++ string library: std::string::find, std::getline, `>>` on a stream,
-- std::to_string and the %u of snprintf, and std::strtol in base 10 with a `long` of 64 bits. A text is
-- the list of its bytes, and the classes of characters are those of the C locale.
pub mod Numbers
pub mod Pieces
use nano_ngfw.Prelude.{
  ℕ, zero, suc, ◌+◌, ◌-◌, ◌*◌, ◌/◌, ◌%◌, ◌^◌, Bool, true, false, not, ◌&&◌, ◌||◌, List, [], ◌∷◌,
  ◌++◌, Option, none, some, ltb, leb, ◌==◌, if◌then◌else◌, Text, ℤ, pos, negsuc, ◌>>=◌,
}

abbrev pub is_digit : ℕ → Bool
is_digit c = leb b'0' c && leb c b'9'

-- std::isspace.
abbrev pub is_space : ℕ → Bool
is_space c = c == b' ' || leb 9 c && leb c 13

-- The decimal digits of n, the last one first found. The fuel bounds their number.
digits_on : ℕ → ℕ → Text
digits_on zero n = []
digits_on (suc fuel) n =
    let more = digits_on fuel (n / 10) ++ (b'0' + n % 10) ∷ [] in
    if ltb n 10 then (b'0' + n) ∷ [] else more

-- std::to_string of an unsigned number.
unfoldable pub to_string : ℕ → Text
unfolding digits_on
to_string n = digits_on (n + 1) n

-- The number that the digits at the head of the text spell, behind the ones read already.
unfoldable pub digits_value : ℕ → Text → ℕ
digits_value acc [] = acc
digits_value acc (c ∷ cs) =
    let more = digits_value (acc * 10 + (c - b'0')) cs in if is_digit c then more else acc

abbrev pub long_max : ℕ
long_max = 2 ^ 63 - 1

abbrev at_most : ℕ → ℕ → ℕ
at_most bound n = if ltb bound n then bound else n

-- -n.
abbrev negated : ℕ → ℤ
negated zero = pos 0
negated (suc n) = negsuc n

-- std::strtol behind the leading white space.
unfoldable pub signed_value : Text → ℤ
signed_value [] = pos 0
signed_value (c ∷ cs) =
    if c == b'-'
    then negated (at_most (long_max + 1) (digits_value 0 cs))
    else if c == b'+'
    then pos (at_most long_max (digits_value 0 cs))
    else pos (at_most long_max (digits_value 0 (c ∷ cs)))

unfoldable pub strtol : Text → ℤ
strtol [] = pos 0
strtol (c ∷ cs) = let more = strtol cs in if is_space c then more else signed_value (c ∷ cs)

-- text.find(sep): what stands before the first one, and behind it.
unfoldable pub split_at_first : ℕ → Text → Option (Text × Text)
split_at_first sep [] = none
split_at_first sep (c ∷ cs) =
    let rest = split_at_first sep cs in
    if c == sep then some ([], cs) else (rest >>= λ r. some (c ∷ r.0, r.1))

abbrev pub cons_first : ℕ → List Text → List Text
cons_first c [] = (c ∷ []) ∷ []
cons_first c (l ∷ ls) = (c ∷ l) ∷ ls

-- `while (std::getline(in, item, sep))`: no item stands behind a last separator.
unfoldable pub get_lines : ℕ → Text → List Text
get_lines sep [] = []
get_lines sep (c ∷ cs) =
    let rest = get_lines sep cs in if c == sep then [] ∷ rest else cons_first c rest

abbrev pub begins_word : Text → Bool
begins_word [] = false
begins_word (c ∷ cs) = not (is_space c)

-- `while (fields >> word)`.
unfoldable pub get_words : Text → List Text
get_words [] = []
get_words (c ∷ cs) =
    let rest = get_words cs in
    if is_space c then rest else if begins_word cs then cons_first c rest else (c ∷ []) ∷ rest
