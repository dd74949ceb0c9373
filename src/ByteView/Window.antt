-- ===== src/ByteView/Window.antt =====
-- src/byteview.h: a sub-window never reaches outside the window that it is cut from.
use nano_ngfw.Prelude.{ℕ, ◌+◌, ◌≤◌, ◌≡◌, ◌⊎◌, arith}
use nano_ngfw.ByteView.{ByteView, has, slice, from}

-- `w` shows no byte that `v` does not show.
abbrev pub IsWithin : ByteView → ByteView → Type 0
IsWithin w v = (w.len ≡ 0) ⊎ (w.mem ≡ v.mem) × (v.addr ≤ w.addr) × (w.addr + w.len ≤ v.addr + v.len)

pub slice-IsWithin : (v : ByteView) (off n : ℕ) → IsWithin (slice v off n) v
unfolding slice has
slice-IsWithin v off n = ground arith

pub from-IsWithin : (v : ByteView) (off : ℕ) → IsWithin (from v off) v
unfolding from
from-IsWithin v off = ground arith
