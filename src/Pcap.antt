-- ===== src/Pcap.antt =====
-- src/pcap.h and src/pcap.cpp: the reader of capture files. The input stream is the list of the bytes
-- that are left of the file, with its fail bit and the count of the last read. The buffer that the
-- object reuses is a value here: a read hands it over if it succeeds, and nothing looks at it else.
pub mod Format
pub mod RoundTrip
pub mod Accounting
pub mod Tests
use nano_ngfw.Prelude.{
  ℕ, zero, suc, ◌+◌, ◌*◌, ◌/◌, ◌%◌, ◌^◌, Bool, true, false, not, List, [], ◌∷◌, ◌++◌, Option, none,
  some, ◌⊎◌, inl, inr, ◌>>=◌, ltb, leb, ◌==◌, if◌then◌else◌, length, take, drop, Text, codes,
}
use nano_ngfw.ByteView.{ByteView, byte, of_bytes}

pub data LinkType : Type 0 where
  ethernet raw_ip other : LinkType

pub record PcapReader : Type 0 where
  pub unread : List ℕ  -- what `in_` has left
  pub gcount : ℕ  -- in_.gcount()
  pub failed : Bool  -- in_.fail()
  pub link : LinkType
  pub snaplen : ℕ
  pub swap : Bool
  pub nanos : Bool
  pub truncated : Bool
  pub records : ℕ

-- PcapReader() with `in_` opened on a file that holds these bytes.
abbrev pub opened : List ℕ → PcapReader
opened file = record {
  unread = file;
  gcount = 0;
  failed = false;
  link = other;
  snaplen = 0;
  swap = false;
  nanos = false;
  truncated = false;
  records = 0;
}

abbrev pub max_record : ℕ
max_record = 2 ^ 20

abbrev pub magic_us_same : ℕ
magic_us_same = 0xa1b2c3d4

abbrev pub magic_us_swap : ℕ
magic_us_swap = 0xd4c3b2a1

abbrev pub magic_ns_same : ℕ
magic_ns_same = 0xa1b23c4d

abbrev pub magic_ns_swap : ℕ
magic_ns_swap = 0x4d3cb2a1

unfoldable pub load32le : ByteView → ℕ → ℕ
load32le v p = byte v p + byte v (p + 1) * 2 ^ 8 + byte v (p + 2) * 2 ^ 16 + byte v (p + 3) * 2 ^ 24

unfoldable pub bswap32 : ℕ → ℕ
bswap32 v =
    v / 2 ^ 24 + v / 2 ^ 16 % 2 ^ 8 * 2 ^ 8 + v / 2 ^ 8 % 2 ^ 8 * 2 ^ 16 + v % 2 ^ 8 * 2 ^ 24

abbrev pub fix32 : PcapReader → ℕ → ℕ
fix32 r v = if r.swap then bswap32 v else v

-- PcapReader::read_exact: the buffer, unless the file is short.
unfoldable pub read_exact : PcapReader → ℕ → PcapReader × Option (List ℕ)
read_exact r n =
    if n == 0
    then (r, some [])
    else if r.failed
    then (record r { gcount = 0 }, none)
    else if leb n (length r.unread)
    then (record r { unread = drop n r.unread; gcount = n }, some (take n r.unread))
    else (record r { unread = []; gcount = length r.unread; failed = true }, none)

-- The switch on the magic number: swap_ and nanos_.
unfoldable pub magic_flags : ℕ → Option (Bool × Bool)
magic_flags magic =
    if magic == magic_us_same
    then some (false, false)
    else if magic == magic_us_swap
    then some (true, false)
    else if magic == magic_ns_same
    then some (false, true)
    else if magic == magic_ns_swap
    then some (true, true)
    else none

abbrev pub link_type : ℕ → LinkType
link_type net = if net == 1 then ethernet else if net == 101 then raw_ip else other

-- PcapReader::open behind the read of the 24 bytes.
unfoldable pub global_header : PcapReader → ByteView → Text ⊎ PcapReader
global_header r buf = elim (magic_flags (load32le buf 0)) [
  | none ↦ inl (codes "not a pcap file (bad magic number)")
  | some (swap, nanos) ↦
      let r' = record r { swap = swap; nanos = nanos } in
      inr (record r' {
        snaplen = fix32 r' (load32le buf 16);
        link = link_type (fix32 r' (load32le buf 20));
      })
]

unfoldable pub opened_with : PcapReader × Option (List ℕ) → Text ⊎ PcapReader
opened_with (r, none) = inl (codes "file shorter than a pcap global header (24 bytes)")
opened_with (r, some buf) = global_header r (of_bytes buf)

-- PcapReader::open: the reason of a failure, or the reader. A path that cannot be opened has no bytes.
unfoldable pub open_file : Text → Option (List ℕ) → Text ⊎ PcapReader
open_file path none = inl (codes "cannot open " ++ path)
open_file path (some file) = opened_with (read_exact (opened file) 24)

abbrev pub as_truncated : PcapReader → PcapReader
as_truncated r = record r { truncated = true }

-- ts_us of a record header.
unfoldable pub timestamp : PcapReader → ByteView → ℕ
timestamp r buf =
    let frac = fix32 r (load32le buf 4) in
    (fix32 r (load32le buf 0) * 1000000 + (if r.nanos then frac / 1000 else frac)) % 2 ^ 64

-- PcapReader::next behind the read of the frame's bytes, with the frame's time.
unfoldable pub deliver_frame : ℕ → PcapReader × Option (List ℕ) → PcapReader × Option (ByteView × ℕ)
deliver_frame ts_us (r, none) = (as_truncated r, none)
deliver_frame ts_us (r, some bytes) =
    (record r { records = (r.records + 1) % 2 ^ 64 }, some (of_bytes bytes, ts_us))

-- PcapReader::next behind the read of the record header.
unfoldable pub next_record : PcapReader × Option (List ℕ) → PcapReader × Option (ByteView × ℕ)
next_record (r, none) = (if r.gcount == 0 then r else as_truncated r, none)
next_record (r, some header) =
    let buf = of_bytes header in
    let incl = fix32 r (load32le buf 8) in
    if ltb max_record incl
    then (as_truncated r, none)
    else deliver_frame (timestamp r buf) (read_exact r incl)

-- PcapReader::next: the frame and its time, unless it returns false.
unfoldable pub next : PcapReader → PcapReader × Option (ByteView × ℕ)
next r = next_record (read_exact r 16)

-- The frames of a run of the loop: the end, or a frame and what the rest of the run gives.
unfoldable pub collect :
    (PcapReader → Option (List (ByteView × ℕ) × PcapReader))
    → PcapReader × Option (ByteView × ℕ)
    → Option (List (ByteView × ℕ) × PcapReader)
collect again (r, none) = some ([], r)
collect again (r, some frame) = (again r) >>= λ rest. some (frame ∷ rest.0, rest.1)

-- `while (reader.next(frame, ts))` on fuel: the frames, and the reader behind the call that returned
-- false. `none` means that the fuel ran out.
unfoldable pub read_all : ℕ → PcapReader → Option (List (ByteView × ℕ) × PcapReader)
read_all zero r = none
read_all (suc fuel) r = collect (read_all fuel) (next r)
