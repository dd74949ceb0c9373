-- ===== src/ByteView.antt =====
-- src/byteview.h: a bounds-checked window into bytes that belong to somebody else.
-- A view is a memory, the address of its first byte and its length. Reading a cell reduces it to
-- a uint8_t. The accessors return `none` where NANO_ASSERT (src/diag.h) aborts a debug build.
pub mod Access
pub mod Window
use nano_ngfw.Prelude.{
  ℕ, ◌+◌, ◌-◌, ◌*◌, ◌%◌, Bool, ◌&&◌, Option, none, some, List, length, get_or, leb, ◌==◌,
  if◌then◌else◌,
}

pub record ByteView : Type 0 where
  pub mem : ℕ → ℕ
  pub addr : ℕ
  pub len : ℕ

-- ByteView(data, len) over a buffer that holds these bytes.
abbrev pub of_bytes : List ℕ → ByteView
of_bytes bs = record { mem = λ i. get_or bs i 0; addr = 0; len = length bs }

-- ByteView(): the null view.
abbrev pub empty_view : ByteView
empty_view = record { mem = λ i. 0; addr = 0; len = 0 }

abbrev pub empty : ByteView → Bool
empty v = v.len == 0

unfoldable pub has : ByteView → ℕ → ℕ → Bool
has v off n = leb off v.len && leb n (v.len - off)

abbrev pub byte : ByteView → ℕ → ℕ
byte v off = v.mem (v.addr + off) % 256

abbrev pub word : ByteView → ℕ → ℕ
word v off = byte v off * 256 + byte v (off + 1)

unfoldable pub u8 : ByteView → ℕ → Option ℕ
u8 v off = if has v off 1 then some (byte v off) else none

unfoldable pub u16 : ByteView → ℕ → Option ℕ
u16 v off = if has v off 2 then some (word v off) else none

unfoldable pub u32 : ByteView → ℕ → Option ℕ
u32 v off = if has v off 4 then some (word v off * 65536 + word v (off + 2)) else none

unfoldable pub slice : ByteView → ℕ → ℕ → ByteView
slice v off n = if has v off n then record v { addr = v.addr + off; len = n } else empty_view

unfoldable pub from : ByteView → ℕ → ByteView
from v off =
    if leb off v.len then record v { addr = v.addr + off; len = v.len - off } else empty_view
