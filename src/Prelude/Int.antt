-- ===== src/Prelude/Int.antt =====
-- The C++ `int` where it can be negative: an integer over the native numbers, under the library's
-- names (its ℤ stands on the unary ℕ).
use Prim.Native.Nat.{ℕ, suc, ◌+◌, ◌-◌, ◌%◌, ◌<◌}
use mathlib.Core.Path.{◌≡◌}
use native.Mathlib.Omega.{arith}
use mathlib.Core.Bool.{Bool}
use nano_ngfw.Prelude.Tests.{ltb, if◌then◌else◌}

-- `negsuc n` is -(n + 1).
pub data ℤ : Type 0 where
  pos : ℕ → ℤ
  negsuc : ℕ → ℤ

abbrev pub pos_part : ℤ → ℕ
pos_part (pos n) = n
pos_part (negsuc n) = 0

abbrev pub neg_part : ℤ → ℕ
neg_part (pos n) = 0
neg_part (negsuc n) = suc n

abbrev pub ltb_ℤ : ℤ → ℤ → Bool
ltb_ℤ a b = ltb (pos_part a + neg_part b) (pos_part b + neg_part a)

-- A number in a two's complement `int` of 32 bits.
unfoldable pub to_int : ℕ → ℤ
to_int n =
    if ltb (n % 0x100000000) 0x80000000
    then pos (n % 0x100000000)
    else negsuc (0xffffffff - n % 0x100000000)

-- Below 2^31 nothing is lost.
pub to_int_small : (n : ℕ) → n < 0x80000000 → to_int n ≡ pos n
unfolding to_int
to_int_small n h = ground arith
