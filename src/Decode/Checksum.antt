-- ===== src/Decode/Checksum.antt =====
-- ones_complement_sum of src/decode.cpp. The children of this file's parent use it, so it stands
-- below them: the loop over the words of a header, the odd last byte and the folding of carries.
use nano_ngfw.Prelude.{
  ℕ, zero, suc, ◌+◌, ◌*◌, ◌/◌, ◌%◌, ◌^◌, ◌≤◌, ◌<◌, ◌≡◌, ◌∙◌, ap, Ensures, Ensures-bind, Option,
  none, some, arith, ltb, ◌==◌, if◌then◌else◌, ◌>>=◌, Bool-cases, inl, inr, refl,
}
use native.Mathlib.Nat.{zero-add}
use nano_ngfw.ByteView.{ByteView, byte, word, u8, u16}
use nano_ngfw.ByteView.Access.{u8_eq, u16_eq}

-- `for (; i + 1 < len; i += 2) total += v.u16(i)`, then the odd last byte. The fuel bounds the rounds.
unfoldable pub sum_words : ℕ → ByteView → ℕ → ℕ → ℕ → Option ℕ
sum_words zero v len i total = none
sum_words (suc fuel) v len i total =
    let again = (do w ← u16 v i; sum_words fuel v len (i + 2) ((total + w) % 2 ^ 32)) in
    if ltb (i + 1) len
    then again
    else if ltb i len
    then (do b ← u8 v i; some ((total + b * 256) % 2 ^ 32))
    else some total

-- `while (total >> 16) total = (total & 0xffff) + (total >> 16)`
unfoldable pub fold_carries : ℕ → ℕ → Option ℕ
fold_carries zero total = none
fold_carries (suc fuel) total =
    let again = fold_carries fuel (total % 65536 + total / 65536) in
    if total / 65536 == 0 then some total else again

-- Three rounds fold any uint32_t, and the fourth sees that it is folded.
unfoldable pub ones_complement_sum : ByteView → ℕ → Option ℕ
ones_complement_sum v len = do
  total ← sum_words (len + 1) v len 0 0
  folded ← fold_carries 4 total
  some (folded % 65536)

-- The words of the header and the padded odd byte, summed without a bound.
words_from : ByteView → ℕ → ℕ → ℕ
words_from v i zero = 0
words_from v i (suc zero) = byte v i * 256
words_from v i (suc (suc n)) = word v i + words_from v (i + 2) n

pub word_sum : ByteView → ℕ → ℕ
word_sum v len = words_from v 0 len

words_from-le : (v : ByteView) (i n : ℕ) → words_from v i n ≤ n * 65536
unfolding words_from
words_from-le v i zero = omega arith
words_from-le v i (suc zero) = omega arith
words_from-le v i (suc (suc n)) = omega (arith, words_from-le v (i + 2) n)

-- While the sum fits into a uint32_t, the loop computes it.
sum_words_eq :
    (n fuel : ℕ) (v : ByteView) (i len total : ℕ)
    → i + n ≡ len
    → len ≤ v.len
    → n < fuel
    → total + n * 65536 < 2 ^ 32
    → sum_words fuel v len i total ≡ some (total + words_from v i n)
unfolding sum_words words_from
sum_words_eq n zero v i len total e h f b = elim f [ ]
sum_words_eq zero (suc fuel) v i len total e h f b = ground arith
sum_words_eq (suc zero) (suc fuel) v i len total e h f b = ground (arith, u8_eq v i)
sum_words_eq (suc (suc n)) (suc fuel) v i len total e h f b =
    ground (arith, u16_eq v i, sum_words_eq n fuel v (i + 2) len ((total + word v i) % 2 ^ 32))

-- Folding keeps the sum modulo 65535, keeps it positive, and ends below 65536.
abbrev pub Folds : ℕ → ℕ → Type 0
Folds total r =
    (r < 65536) × (r % 65535 ≡ total % 65535) × (r ≡ 0 → total ≡ 0) × (total ≡ 0 → r ≡ 0)

Folds-step : (t r : ℕ) → Folds (t % 65536 + t / 65536) r → Folds t r
Folds-step t r (b, m, z, z') = (b, m ∙ omega arith, λ e. omega (arith, z e), λ e. z' (omega arith))

fold_carries_step :
    (fuel t : ℕ)
    → Ensures (Folds (t % 65536 + t / 65536)) (fold_carries fuel (t % 65536 + t / 65536))
    → Ensures (Folds t) (fold_carries (suc fuel) t)
unfolding fold_carries
fold_carries_step fuel t (r, e, f) = elim (Bool-cases (t / 65536 == 0)) [
  | inl done ↦ rw done (t, refl, fold_small t (ground arith))
  | inr more ↦ rw more (r, e, Folds-step t r f)
]
  where
    fold_small : (t : ℕ) → t < 65536 → Folds t t
    fold_small t h = (h, refl, λ e. e, λ e. e)

fold_carries_done : (fuel t : ℕ) → t < 65536 → Ensures (Folds t) (fold_carries (suc fuel) t)
unfolding fold_carries
fold_carries_done fuel t h = (t, ground arith, (h, refl, λ e. e, λ e. e))

fold_carries-Folds : (t : ℕ) → t < 2 ^ 32 → Ensures (Folds t) (fold_carries 4 t)
fold_carries-Folds t h =
    fold_carries_step 3 t (fold_carries_step 2 _ (fold_carries_done 1 _ (omega arith)))

sum_words_all :
    (v : ByteView) (len : ℕ)
    → len ≤ v.len
    → len < 65535
    → sum_words (len + 1) v len 0 0 ≡ some (word_sum v len)
unfolding word_sum
sum_words_all v len h b =
    sum_words_eq len (len + 1) v 0 len 0 (omega arith) h (omega arith) (omega arith)
    ∙ ap some (zero-add (words_from v 0 len))

word_sum-lt : (v : ByteView) (len : ℕ) → len < 65535 → word_sum v len < 2 ^ 32
unfolding word_sum
word_sum-lt v len h = omega (arith, words_from-le v 0 len)

-- For a header inside the view and below 65535 bytes, the loops end, stay inside the view, and give
-- the one's complement sum of its words:
-- a 16-bit number that is congruent to the plain sum modulo 65535, and 0 exactly if that sum is.
pub ones_complement_sum_eq :
    (v : ByteView) (len : ℕ)
    → len ≤ v.len
    → len < 65535
    → Ensures (Folds (word_sum v len)) (ones_complement_sum v len)
unfolding ones_complement_sum
ones_complement_sum_eq v len h b = rw (sum_words_all v len h b) (
    Ensures-bind (Folds (word_sum v len)) _ (fold_carries 4 (word_sum v len)) _
      (fold_carries-Folds (word_sum v len) (word_sum-lt v len b))
      λ r f. (r % 65536, refl, omega arith))
