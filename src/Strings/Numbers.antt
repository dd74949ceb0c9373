-- ===== src/Strings/Numbers.antt =====
-- Decimal numbers: to_string against strtol and any digit by digit reader.
use nano_ngfw.Prelude.{
  ℕ, zero, suc, ◌+◌, ◌-◌, ◌*◌, ◌/◌, ◌%◌, ◌^◌, ◌≤◌, ◌<◌, ◌≡◌, ◌∙◌, refl, sym, ap, true, false, [],
  ◌∷◌, ◌++◌, arith, ltb, Text, pos, inl, inr, Bool-cases,
}
use mathlib.Core.List.{append_assoc}
use nano_ngfw.Strings.{is_digit, digits_on, to_string, digits_value, long_max, signed_value, strtol}

-- The text begins with something that is no digit, or ends.
abbrev pub NoDigit : Text → Type 0
NoDigit [] = Unit {0}
NoDigit (c ∷ cs) = is_digit c ≡ false

abbrev pub AllDigits : Text → Type 0
AllDigits [] = Unit {0}
AllDigits (c ∷ cs) = (is_digit c ≡ true) × AllDigits cs

AllDigits-append : (s t : Text) → AllDigits s → AllDigits t → AllDigits (s ++ t)
AllDigits-append [] t a b = b
AllDigits-append (c ∷ s) t (h, a) b = (h, AllDigits-append s t a b)

digits_on-AllDigits : (fuel n : ℕ) → AllDigits (digits_on fuel n)
unfolding digits_on
digits_on-AllDigits zero n = tt
digits_on-AllDigits (suc fuel) n = elim (Bool-cases (ltb n 10)) [
  | inl one ↦ rw one (ground arith, tt)
  | inr more ↦ rw more (
      AllDigits-append (digits_on fuel (n / 10)) _ (digits_on-AllDigits fuel (n / 10))
        (ground arith, tt))
]

pub to_string-AllDigits : (n : ℕ) → AllDigits (to_string n)
unfolding to_string
to_string-AllDigits n = digits_on-AllDigits (n + 1) n

module _ {ℓ} {R : Type ℓ} (read : ℕ → Text → R) (bound : ℕ)
    (step : (acc c : ℕ) (rest : Text)
      → is_digit c ≡ true
      → acc * 10 + (c - 48) ≤ bound
      → read acc (c ∷ rest) ≡ read (acc * 10 + (c - 48)) rest) where
  read-digits_on :
      (fuel n : ℕ) (rest : Text)
      → n < fuel
      → n ≤ bound
      → read 0 (digits_on fuel n ++ rest) ≡ read n rest
  unfolding digits_on
  read-digits_on zero n rest h k = absurd (omega arith)
  read-digits_on (suc fuel) n rest h k = elim (Bool-cases (ltb n 10)) [
    | inl one ↦
        let value : 0 * 10 + (48 + n - 48) ≡ n = omega arith in
        rw one (step 0 (48 + n) rest (ground arith) (omega arith) ∙ ap (λ m. read m rest) value)
    | inr more ↦
        let value : n / 10 * 10 + (48 + n % 10 - 48) ≡ n = omega arith in
        rw (more, append_assoc (digits_on fuel (n / 10)) ((48 + n % 10) ∷ []) rest)
          (read-digits_on fuel (n / 10) ((48 + n % 10) ∷ rest) (ground arith) (omega arith)
            ∙ step (n / 10) (48 + n % 10) rest (ground arith) (omega arith)
            ∙ ap (λ m. read m rest) value)
  ]

  -- Whatever reads a number digit by digit reads the number that was written, up to its bound, and goes
  -- on behind it.
  pub read-to_string :
      (n : ℕ) (rest : Text) → n ≤ bound → read 0 (to_string n ++ rest) ≡ read n rest
  unfolding to_string
  read-to_string n rest h = read-digits_on (n + 1) n rest (omega arith) h

digits_value_step :
    (acc c : ℕ) (rest : Text)
    → is_digit c ≡ true
    → digits_value acc (c ∷ rest) ≡ digits_value (acc * 10 + (c - 48)) rest
unfolding digits_value
digits_value_step acc c rest h = rw h refl

digits_value-to_string :
    (n : ℕ) (rest : Text) → digits_value 0 (to_string n ++ rest) ≡ digits_value n rest
digits_value-to_string n rest =
    read-to_string digits_value n (λ acc c r d b. digits_value_step acc c r d) n rest (omega arith)

digits_value-NoDigit : (n : ℕ) (rest : Text) → NoDigit rest → digits_value n rest ≡ n
unfolding digits_value
digits_value-NoDigit n [] h = refl
digits_value-NoDigit n (c ∷ cs) h = rw h refl

digits_on_first :
    (fuel n : ℕ)
    → n < fuel
    → (c : ℕ) × (cs : Text) × (digits_on fuel n ≡ c ∷ cs) × (is_digit c ≡ true)
unfolding digits_on
digits_on_first zero n h = absurd (omega arith)
digits_on_first (suc fuel) n h = elim (Bool-cases (ltb n 10)) [
  | inl one ↦ rw one (_, _, refl, ground arith)
  | inr more ↦
      let (c, cs, e, d) = digits_on_first fuel (n / 10) (ground arith) in
      rw (more, e) (_, _, refl, d)
]

-- A number begins with a digit.
pub to_string_first : (n : ℕ) → (c : ℕ) × (cs : Text) × (to_string n ≡ c ∷ cs) × (is_digit c ≡ true)
unfolding to_string
to_string_first n = digits_on_first (n + 1) n (omega arith)

strtol_digits :
    (c : ℕ) (cs : Text)
    → is_digit c ≡ true
    → digits_value 0 (c ∷ cs) ≤ long_max
    → strtol (c ∷ cs) ≡ pos (digits_value 0 (c ∷ cs))
unfolding strtol signed_value
strtol_digits c cs d h = ground arith

-- strtol reads back what to_string wrote, whatever but a digit stands behind it.
pub strtol-to_string :
    (n : ℕ) (rest : Text) → n < 2 ^ 63 → NoDigit rest → strtol (to_string n ++ rest) ≡ pos n
strtol-to_string n rest h k =
    let (c, cs, e, d) = to_string_first n in
    let value : digits_value 0 (c ∷ cs ++ rest) ≡ n =
      ap (λ t. digits_value 0 (t ++ rest)) (sym e)
      ∙ digits_value-to_string n rest
      ∙ digits_value-NoDigit n rest k in
    ap (λ t. strtol (t ++ rest)) e ∙ strtol_digits c (cs ++ rest) d (omega arith) ∙ ap pos value
