-- ===== src/ByteView/Access.antt =====
-- The accessors of src/byteview.h: exactly the reads inside the window succeed.
use nano_ngfw.Prelude.{ℕ, ◌+◌, ◌*◌, ◌≤◌, ◌<◌, ◌≡◌, ◌↔◌, true, false, some, arith}
use nano_ngfw.ByteView.{ByteView, has, byte, word, u8, u16, u32}

-- `has` answers exactly whether the range lies inside the view, also for offsets and lengths whose
-- sum passes SIZE_MAX.
pub has_iff : (v : ByteView) (off n : ℕ) → (has v off n ≡ true) ↔ (off + n ≤ v.len)
unfolding has
has_iff v off n = (λ h. ground arith, λ h. ground arith)

pub has_of_le : (v : ByteView) (off n : ℕ) → off + n ≤ v.len → has v off n ≡ true
has_of_le v off n = (has_iff v off n).1

pub u8_eq : (v : ByteView) (off : ℕ) → off + 1 ≤ v.len → u8 v off ≡ some (byte v off)
unfolding u8
u8_eq v off h = rw (has_of_le v off 1 h)

pub u16_eq : (v : ByteView) (off : ℕ) → off + 2 ≤ v.len → u16 v off ≡ some (word v off)
unfolding u16
u16_eq v off h = rw (has_of_le v off 2 h)

pub u32_eq :
    (v : ByteView) (off : ℕ)
    → off + 4 ≤ v.len
    → u32 v off ≡ some (word v off * 65536 + word v (off + 2))
unfolding u32
u32_eq v off h = rw (has_of_le v off 4 h)

pub lt_of_not_has : (v : ByteView) (off n : ℕ) → has v off n ≡ false → v.len < off + n
unfolding has
lt_of_not_has v off n h = ground arith

pub le_of_has : (v : ByteView) (n : ℕ) → has v 0 n ≡ true → n ≤ v.len
le_of_has v n h = omega (arith, (has_iff v 0 n).0 h)
