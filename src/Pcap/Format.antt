-- ===== src/Pcap/Format.antt =====
-- The capture files that src/pcap.cpp reads: what a writer of either byte order puts into one.
use nano_ngfw.Prelude.{
  ℕ, ◌/◌, ◌%◌, ◌^◌, ◌≤◌, ◌<◌, ◌≡◌, refl, Bool, true, false, List, [], ◌∷◌, ◌++◌, arith, length,
  if◌then◌else◌, some,
}
use nano_ngfw.ByteView.{ByteView, of_bytes}
use nano_ngfw.Pcap.{load32le, bswap32, magic_us_same, magic_ns_same, magic_flags}

-- A 32-bit number as a writer puts it: least significant byte first, or last if the flag is set.
abbrev pub put32 : Bool → ℕ → List ℕ → List ℕ
put32 false v rest = v % 256 ∷ v / 2 ^ 8 % 256 ∷ v / 2 ^ 16 % 256 ∷ v / 2 ^ 24 % 256 ∷ rest
put32 true v rest = v / 2 ^ 24 % 256 ∷ v / 2 ^ 16 % 256 ∷ v / 2 ^ 8 % 256 ∷ v % 256 ∷ rest

-- One captured frame: seconds, the fraction in the file's resolution, the length on the wire, and
-- the bytes.
pub record PcapRecord : Type 0 where
  pub sec : ℕ
  pub frac : ℕ
  pub orig : ℕ
  pub bytes : List ℕ

pub record IsRecord (q : PcapRecord) : Type 0 where
  pub sec : q.sec < 2 ^ 32
  pub frac : q.frac < 2 ^ 32
  pub orig : q.orig < 2 ^ 32
  pub bytes : length q.bytes ≤ 2 ^ 20

abbrev pub record_header : Bool → PcapRecord → List ℕ → List ℕ
record_header big q rest =
    put32 big q.sec (put32 big q.frac (put32 big (length q.bytes) (put32 big q.orig rest)))

abbrev pub record_bytes : Bool → List PcapRecord → List ℕ
record_bytes big [] = []
record_bytes big (q ∷ qs) = record_header big q (q.bytes ++ record_bytes big qs)

-- The 24 bytes at the head of a file: the magic number, version, time zone and accuracy, which
-- nothing reads, snaplen, and the link type.
abbrev pub file_header : Bool → Bool → ℕ → ℕ → ℕ → ℕ → ℕ → List ℕ → List ℕ
file_header big nanos version zone accuracy snaplen net rest =
    put32 big (if nanos then magic_ns_same else magic_us_same) (
      put32 big version
        (put32 big zone (put32 big accuracy (put32 big snaplen (put32 big net rest)))))

abbrev fixed : Bool → ℕ → ℕ
fixed big v = if big then bswap32 v else v

module _ (q : PcapRecord) (v : IsRecord q) where
  -- What a reader of the writer's byte order finds in the 16 bytes of a record header.
  pub record_header-fields :
      (big : Bool)
      → let buf : ByteView = of_bytes (record_header big q []) in
        (fixed big (load32le buf 0) ≡ q.sec)
        × (fixed big (load32le buf 4) ≡ q.frac)
        × (fixed big (load32le buf 8) ≡ length q.bytes)
  unfolding load32le bswap32
  record_header-fields true = (omega (arith, v.sec), omega (arith, v.frac), omega (arith, v.bytes))
  record_header-fields false = (omega (arith, v.sec), omega (arith, v.frac), omega (arith, v.bytes))

-- What it finds in the 24 bytes of the file's header, whose magic number it knows.
pub file_header-fields :
    (big nanos : Bool) (version zone accuracy snaplen net : ℕ)
    → snaplen < 2 ^ 32
    → net < 2 ^ 32
    → let buf : ByteView = of_bytes (file_header big nanos version zone accuracy snaplen net []) in
      (magic_flags (load32le buf 0) ≡ some (big, nanos))
      × (fixed big (load32le buf 16) ≡ snaplen)
      × (fixed big (load32le buf 20) ≡ net)
unfolding load32le bswap32 magic_flags
file_header-fields true true version zone accuracy snaplen net h k =
    (refl, omega arith, omega arith)
file_header-fields true false version zone accuracy snaplen net h k =
    (refl, omega arith, omega arith)
file_header-fields false true version zone accuracy snaplen net h k =
    (refl, omega arith, omega arith)
file_header-fields false false version zone accuracy snaplen net h k =
    (refl, omega arith, omega arith)
