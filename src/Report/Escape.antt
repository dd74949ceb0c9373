-- ===== src/Report/Escape.antt =====
-- escape of src/report.cpp as a function on texts.
use nano_ngfw.Prelude.{ℕ, ◌≡◌, ◌≢◌, ◌∙◌, refl, sym, ap, [], ◌∷◌, ◌++◌, Text, arith}
use nano_ngfw.Report.Table.{escape, escape_byte}

escape_byte_injective :
    (c d : ℕ) (s t : Text) → escape_byte c ++ s ≡ escape_byte d ++ t → (c ≡ d) × (s ≡ t)
escape_byte_injective c d s t e = ground arith

escape_byte-ne-nil : (c : ℕ) (s : Text) → escape_byte c ++ s ≢ []
escape_byte-ne-nil c s e = ground arith

-- Two texts that are escaped to the same text are equal.
pub escape_injective : (s t : Text) → escape s ≡ escape t → s ≡ t
unfolding escape
escape_injective [] [] e = refl
escape_injective [] (d ∷ t) e = absurd (escape_byte-ne-nil d (escape t) (sym e))
escape_injective (c ∷ s) [] e = absurd (escape_byte-ne-nil c (escape s) e)
escape_injective (c ∷ s) (d ∷ t) e =
    let (same, rest) = escape_byte_injective c d (escape s) (escape t) e in
    ap (λ x. x ∷ s) same ∙ ap (λ u. d ∷ u) (escape_injective s t rest)
