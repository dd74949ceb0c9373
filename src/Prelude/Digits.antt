-- ===== src/Prelude/Digits.antt =====
-- The bitwise operations of the native numbers, one binary digit at a time.
use Prim.Native.Nat.{
  ℕ, zero, suc, ◌+◌, ◌*◌, ◌/◌, ◌%◌, ◌^◌, ◌≤◌, ◌<◌, min, differ, bit_and, bit_xor, digits,
  bit_and-bitwise, bit_xor-bitwise,
}
use native.Mathlib.Nat.{pow-suc}
use native.Mathlib.Omega.{arith}
use mathlib.Core.Path.{◌≡◌, ◌∙◌, refl, sym, ap}

-- Nothing is left of the first number.
exhausted : (z : ℕ → ℕ) (f : ℕ → ℕ → ℕ) (n b : ℕ) → digits z f n 0 b ≡ z b
exhausted z f zero b = refl
exhausted z f (suc n) b = refl

-- Any count of digits that covers the first number gives the same.
covered :
    (z : ℕ → ℕ) (f : ℕ → ℕ → ℕ) (a b n m : ℕ) → a ≤ n → a ≤ m → digits z f n a b ≡ digits z f m a b
covered z f zero b n m h k = exhausted z f n b ∙ sym (exhausted z f m b)
covered z f (suc a) b (suc n) (suc m) h k =
    let rest = covered z f (suc a / 2) (b / 2) n m (omega arith) (omega arith) in
    ap (λ high. high * 2 + f (suc a % 2) (b % 2)) rest
covered z f (suc a) b zero m h k = absurd (omega arith)
covered z f (suc a) b (suc n) zero h k = absurd (omega arith)

pub bit_and_lowest : (x y : ℕ) → bit_and x y ≡ bit_and (x / 2) (y / 2) * 2 + min (x % 2) (y % 2)
bit_and_lowest zero y = omega (arith, bit_and-bitwise 0 y, bit_and-bitwise 0 (y / 2))
bit_and_lowest (suc x) y = omega (
  arith,
  bit_and-bitwise (suc x) y,
  bit_and-bitwise (suc x / 2) (y / 2),
  covered (λ c. 0) min (suc x / 2) (y / 2) x (suc x / 2) (omega arith) (omega arith),
)

pub bit_xor-zero : (y : ℕ) → bit_xor 0 y ≡ y
bit_xor-zero y = bit_xor-bitwise 0 y

differ-zero : (d : ℕ) → differ 0 d ≡ d
differ-zero d = refl

pub bit_xor_lowest : (x y : ℕ) → bit_xor x y ≡ bit_xor (x / 2) (y / 2) * 2 + differ (x % 2) (y % 2)
bit_xor_lowest zero y = omega (arith, bit_xor-zero y, bit_xor-zero (y / 2), differ-zero (y % 2))
bit_xor_lowest (suc x) y = omega (
  arith,
  bit_xor-bitwise (suc x) y,
  bit_xor-bitwise (suc x / 2) (y / 2),
  covered (λ c. c) differ (suc x / 2) (y / 2) x (suc x / 2) (omega arith) (omega arith),
)

differ-lt : (c d : ℕ) → c < 2 → d < 2 → differ c d < 2
differ-lt zero d h k = k
differ-lt (suc zero) zero h k = omega arith
differ-lt (suc zero) (suc zero) h k = omega arith
differ-lt (suc zero) (suc (suc d)) h k = absurd (omega arith)
differ-lt (suc (suc c)) d h k = absurd (omega arith)

differ-cancel : (c d e : ℕ) → c < 2 → d < 2 → e < 2 → differ c d ≡ differ c e → d ≡ e
differ-cancel zero d e h k l q = q
differ-cancel (suc zero) zero zero h k l q = refl
differ-cancel (suc zero) zero (suc zero) h k l q = absurd (omega arith)
differ-cancel (suc zero) (suc zero) zero h k l q = absurd (omega arith)
differ-cancel (suc zero) (suc zero) (suc zero) h k l q = refl
differ-cancel (suc zero) (suc (suc d)) e h k l q = absurd (omega arith)
differ-cancel (suc zero) d (suc (suc e)) h k l q = absurd (omega arith)
differ-cancel (suc (suc c)) d e h k l q = absurd (omega arith)

cancel_below : (n a b c : ℕ) → a ≤ n → bit_xor a b ≡ bit_xor a c → b ≡ c
cancel_below n zero b c h q = omega (arith, bit_xor-zero b, bit_xor-zero c)
cancel_below zero (suc a) b c h q = absurd (omega arith)
cancel_below (suc n) (suc a) b c h q =
    let high = cancel_below n (suc a / 2) (b / 2) (c / 2) (omega arith) halves.0 in
    let low =
      differ-cancel (suc a % 2) (b % 2) (c % 2) (omega arith) (omega arith) (omega arith)
        halves.1 in
    omega (arith, high, low)
  where
    halves :
        (bit_xor (suc a / 2) (b / 2) ≡ bit_xor (suc a / 2) (c / 2))
        × (differ (suc a % 2) (b % 2) ≡ differ (suc a % 2) (c % 2))
    halves = omega (
      arith,
      q,
      bit_xor_lowest (suc a) b,
      bit_xor_lowest (suc a) c,
      differ-lt (suc a % 2) (b % 2) (omega arith) (omega arith),
      differ-lt (suc a % 2) (c % 2) (omega arith) (omega arith),
    )

-- The second operand of an exclusive or is determined by the first and the result.
pub bit_xor-cancel : (a b c : ℕ) → bit_xor a b ≡ bit_xor a c → b ≡ c
bit_xor-cancel a b c q = cancel_below a a b c (omega arith) q

pub bit_xor-lt : (k a b : ℕ) → a < 2 ^ k → b < 2 ^ k → bit_xor a b < 2 ^ k
bit_xor-lt zero a b h k =
    omega (arith, bit_xor-zero b, ap (λ x. bit_xor x b) {x = a} {y = 0} (omega arith))
bit_xor-lt (suc n) a b h k = omega (
  arith,
  bit_xor-lt n (a / 2) (b / 2) (omega (arith, pow-suc 2 n)) (omega (arith, pow-suc 2 n)),
  pow-suc 2 n,
  bit_xor_lowest a b,
  differ-lt (a % 2) (b % 2) (omega arith) (omega arith),
)
