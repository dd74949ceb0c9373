-- ===== src/Addresses/Quads.antt =====
-- Dotted quads: ipv4_to_string against parse_ip and parse_cidr.
use nano_ngfw.Prelude.{
  ℕ, suc, ◌+◌, ◌-◌, ◌*◌, ◌/◌, ◌%◌, ◌^◌, ◌≤◌, ◌<◌, ◌≡◌, ◌≢◌, ◌∙◌, refl, sym, ap, true, false, List,
  [], ◌∷◌, ◌++◌, Option, some, arith, ◌==◌, ◌>>=◌, length, Text, pos, >>=-some, Bool-cases, inl,
  inr,
}
use mathlib.Core.List.{append-nil}
use nano_ngfw.Strings.{is_digit, to_string, strtol, split_at_first, get_lines}
use nano_ngfw.Strings.Numbers.{
  NoDigit, AllDigits, to_string-AllDigits, to_string_first, read-to_string, strtol-to_string,
}
use nano_ngfw.Strings.Pieces.{
  Lacks, Lacks-append, split_at_first-append, get_lines-append, get_lines_last,
}
use nano_ngfw.Addresses.{
  ipv4_to_string, shift_in, split, drop_empty, up_to, read_octets, parse_cidr, octet_digits, octet,
  ip_octets, parse_ip, or_zero,
}

-- The octets of an address, first to last.
abbrev pub quad : ℕ → ℕ → ℕ
quad n addr = addr / 2 ^ n % 2 ^ 8

octet_digits_step :
    (acc c : ℕ) (rest : Text)
    → is_digit c ≡ true
    → acc * 10 + (c - 48) ≤ 255
    → octet_digits acc (c ∷ rest) ≡ octet_digits (acc * 10 + (c - 48)) rest
unfolding octet_digits
octet_digits_step acc c rest h k = ground arith

octet_digits-NoDigit : (n : ℕ) (rest : Text) → NoDigit rest → octet_digits n rest ≡ some (n, rest)
unfolding octet_digits
octet_digits-NoDigit n [] h = refl
octet_digits-NoDigit n (c ∷ cs) h = rw h refl

octet-to_string :
    (n : ℕ) (rest : Text) → n < 256 → NoDigit rest → octet (to_string n ++ rest) ≡ some (n, rest)
unfolding octet
octet-to_string n rest h k =
    let (c, cs, e, d) = to_string_first n in
    ap (λ t. octet (t ++ rest)) e
    ∙ rw d refl
    ∙ ap (λ t. octet_digits 0 (t ++ rest)) (sym e)
    ∙ read-to_string octet_digits 255 octet_digits_step n rest (omega arith)
    ∙ octet_digits-NoDigit n rest k

ip_octets_step :
    (n addr v : ℕ) (rest : Text)
    → v < 256
    → NoDigit rest
    → ip_octets (suc n) addr (b'.' ∷ to_string v ++ rest) ≡ ip_octets n (shift_in addr v) rest
unfolding ip_octets
ip_octets_step n addr v rest h k = rw (octet-to_string v rest h k) refl

abbrev dotted : ℕ → ℕ → ℕ → ℕ → Text
dotted a b c d = to_string a ++ (b'.' ∷ to_string b ++ (b'.' ∷ to_string c ++ (b'.' ∷ to_string d)))

abbrev joined : ℕ → ℕ → ℕ → ℕ → ℕ
joined a b c d = shift_in (shift_in (shift_in (shift_in 0 a) b) c) d

abbrev octets_from : Option (ℕ × Text) → Option (ℕ × Text)
octets_from o = o >>= λ o. ip_octets 3 (shift_in 0 o.0) o.1

joined-quad :
    (addr : ℕ)
    → addr < 2 ^ 32
    → joined (addr / 2 ^ 24 % 2 ^ 8) (addr / 2 ^ 16 % 2 ^ 8) (addr / 2 ^ 8 % 2 ^ 8) (addr % 2 ^ 8)
      ≡ addr
joined-quad addr h = omega arith

AllDigits-Lacks : (sep : ℕ) (s : Text) → is_digit sep ≡ false → AllDigits s → Lacks sep s
AllDigits-Lacks sep [] h a = tt
AllDigits-Lacks sep (c ∷ s) h (d, a) = (λ e. cc (h, d, ap is_digit e), AllDigits-Lacks sep s h a)

pub to_string-Lacks : (sep n : ℕ) → is_digit sep ≡ false → Lacks sep (to_string n)
to_string-Lacks sep n h = AllDigits-Lacks sep (to_string n) h (to_string-AllDigits n)

pub to_string-ne-nil : (n : ℕ) → to_string n ≢ []
to_string-ne-nil n e = let (c, cs, f, _) = to_string_first n in cc (e, f)

drop_empty_keep : (l : Text) (ls : List Text) → l ≢ [] → drop_empty (l ∷ ls) ≡ l ∷ drop_empty ls
drop_empty_keep [] ls ne = absurd (ne refl)
drop_empty_keep (c ∷ l) ls ne = refl

pub strtol_number : (n : ℕ) → n < 2 ^ 63 → strtol (to_string n) ≡ pos n
strtol_number n h = ap strtol (sym (append-nil (to_string n))) ∙ strtol-to_string n [] h tt

pub up_to-to_string :
    (bound n : ℕ) → n ≤ bound → bound < 2 ^ 63 → up_to bound (strtol (to_string n)) ≡ some n
up_to-to_string bound n h k = rw (strtol_number n (omega arith)) (ground arith)

-- Four octets, one after the other.
module _ (a b c d : ℕ) (ha : a < 256) (hb : b < 256) (hc : c < 256) (hd : d < 256) where
  octets_from-dotted : octets_from (octet (dotted a b c d)) ≡ some (joined a b c d, [])
  octets_from-dotted =
      ap octets_from (octet-to_string a _ ha refl)
      ∙ ip_octets_step 2 (shift_in 0 a) b _ hb refl
      ∙ ip_octets_step 1 (shift_in (shift_in 0 a) b) c _ hc refl
      ∙ ap (λ t. ip_octets 1 (shift_in (shift_in (shift_in 0 a) b) c) (b'.' ∷ t))
          (sym (append-nil (to_string d)))
      ∙ ip_octets_step 0 (shift_in (shift_in (shift_in 0 a) b) c) d [] hd tt
      ∙ unfold ip_octets in refl

  dotted-Lacks : (sep : ℕ) → is_digit sep ≡ false → sep ≢ b'.' → Lacks sep (dotted a b c d)
  dotted-Lacks sep h ne = Lacks-append sep (to_string a) _ (to_string-Lacks sep a h) (
    λ e. ne (sym e),
    Lacks-append sep (to_string b) _ (to_string-Lacks sep b h) (
      λ e. ne (sym e),
      Lacks-append sep (to_string c) _ (to_string-Lacks sep c h)
          (λ e. ne (sym e), to_string-Lacks sep d h),
    ),
  )

  get_lines-dotted :
      get_lines b'.' (dotted a b c d) ≡ to_string a ∷ to_string b ∷ to_string c ∷ to_string d ∷ []
  get_lines-dotted =
      get_lines-append b'.' (to_string a) _ (to_string-Lacks b'.' a refl)
      ∙ ap (λ ls. to_string a ∷ ls)
          (get_lines-append b'.' (to_string b) _ (to_string-Lacks b'.' b refl)
            ∙ ap (λ ls. to_string b ∷ ls)
                (get_lines-append b'.' (to_string c) _ (to_string-Lacks b'.' c refl)
                  ∙ ap (λ ls. to_string c ∷ ls)
                      (get_lines_last b'.' (to_string d) (to_string-Lacks b'.' d refl)
                        (to_string-ne-nil d))))

  split-dotted :
      split (dotted a b c d) b'.' ≡ to_string a ∷ to_string b ∷ to_string c ∷ to_string d ∷ []
  unfolding split
  split-dotted = rw (
    get_lines-dotted,
    drop_empty_keep (to_string a) (to_string b ∷ to_string c ∷ to_string d ∷ [])
        (to_string-ne-nil a),
    drop_empty_keep (to_string b) (to_string c ∷ to_string d ∷ []) (to_string-ne-nil b),
    drop_empty_keep (to_string c) (to_string d ∷ []) (to_string-ne-nil c),
    drop_empty_keep (to_string d) [] (to_string-ne-nil d),
  )

  read_octets-dotted :
      read_octets (to_string a ∷ to_string b ∷ to_string c ∷ to_string d ∷ []) 0
      ≡ some (joined a b c d)
  unfolding read_octets
  read_octets-dotted = rw (
    up_to-to_string 255 a (omega arith) (omega arith),
    up_to-to_string 255 b (omega arith) (omega arith),
    up_to-to_string 255 c (omega arith) (omega arith),
    up_to-to_string 255 d (omega arith) (omega arith),
  )

  parse_cidr-dotted :
      (bits : ℕ)
      → bits ≤ 32
      → parse_cidr (dotted a b c d ++ b'/' ∷ to_string bits) ≡ some (joined a b c d, bits)
  unfolding parse_cidr
  parse_cidr-dotted bits h = rw (
    split_at_first-append b'/' (dotted a b c d) (to_string bits)
        (dotted-Lacks b'/' refl (λ e. omega arith)),
    split-dotted,
    read_octets-dotted,
    up_to-to_string 32 bits h (omega arith),
  )

-- parse_ip reads back every address that ipv4_to_string writes.
pub parse_ip-ipv4_to_string : (addr : ℕ) → addr < 2 ^ 32 → parse_ip (ipv4_to_string addr) ≡ addr
unfolding parse_ip ipv4_to_string
parse_ip-ipv4_to_string addr h =
    ap or_zero (
      octets_from-dotted (addr / 2 ^ 24 % 2 ^ 8) (addr / 2 ^ 16 % 2 ^ 8) (addr / 2 ^ 8 % 2 ^ 8)
        (addr % 2 ^ 8) (omega arith) (omega arith) (omega arith) (omega arith))
    ∙ joined-quad addr h

-- parse_cidr reads back every network with every prefix length, as ipv4_to_string and to_string write
-- them.
pub parse_cidr-ipv4_to_string :
    (addr bits : ℕ)
    → addr < 2 ^ 32
    → bits ≤ 32
    → parse_cidr (ipv4_to_string addr ++ b'/' ∷ to_string bits) ≡ some (addr, bits)
unfolding ipv4_to_string
parse_cidr-ipv4_to_string addr bits h k =
    parse_cidr-dotted (addr / 2 ^ 24 % 2 ^ 8) (addr / 2 ^ 16 % 2 ^ 8) (addr / 2 ^ 8 % 2 ^ 8)
      (addr % 2 ^ 8) (omega arith) (omega arith) (omega arith) (omega arith) bits k
    ∙ ap (λ n. some (n, bits)) (joined-quad addr h)

read_octets-lt :
    (ts : List Text) (addr : ℕ) {r : ℕ} → addr < 2 ^ 32 → read_octets ts addr ≡ some r → r < 2 ^ 32
unfolding read_octets
read_octets-lt [] addr h e = ground arith
read_octets-lt (t ∷ ts) addr {r} h e =
    let (v, _, e') =
      >>=-some (up_to 255 (strtol t)) (λ value. read_octets ts (shift_in addr value)) e in
    read_octets-lt ts (shift_in addr v) (omega arith) e'

-- Whatever parse_cidr accepts is a network of 32 bits with a prefix of at most 32.
pub parse_cidr_bounds :
    (text : Text) {n bits : ℕ} → parse_cidr text ≡ some (n, bits) → (n < 2 ^ 32) × (bits ≤ 32)
unfolding parse_cidr
parse_cidr_bounds text {n} {bits} e =
    let (parts, _, e1) = >>=-some (split_at_first b'/' text) _ e in
    elim (Bool-cases (length (split parts.0 b'.') == 4)) [
      | inr other ↦ let e2 = rw other at e1 in cc
      | inl four ↦
          let (a, q, e2) = >>=-some (read_octets (split parts.0 b'.') 0) _ (rw four at e1) in
          let (b, q', e3) = >>=-some (up_to 32 (strtol parts.1)) _ e2 in
          let l : a < 2 ^ 32 = read_octets-lt (split parts.0 b'.') 0 (omega arith) q in ground arith
    ]
