-- ===== src/Pcap/RoundTrip.antt =====
-- PcapReader of src/pcap.cpp on a file that a writer made.
use nano_ngfw.Prelude.{
  ℕ, zero, suc, ◌+◌, ◌*◌, ◌/◌, ◌%◌, ◌^◌, ◌<◌, ◌≡◌, ◌∙◌, refl, sym, ap, subst, inr, Bool, true,
  false, List, [], ◌∷◌, ◌++◌, arith, length, ltb, if◌then◌else◌, none, some, take-append,
  drop-append, length-append, Ensures, Text,
}
use mathlib.Core.List.{map}
use nano_ngfw.ByteView.{ByteView, of_bytes}
use nano_ngfw.Pcap.{
  PcapReader, opened, max_record, read_exact, next_record, next, collect, deliver_frame,
  opened_with, read_all, timestamp, global_header, open_file, link_type,
}
use nano_ngfw.Pcap.Format.{
  PcapRecord, IsRecord, record_header, record_bytes, file_header, record_header-fields,
  file_header-fields,
}

-- The time of a record, in microseconds.
abbrev pub stamp : Bool → PcapRecord → ℕ
stamp nanos q = q.sec * 1000000 + (if nanos then q.frac / 1000 else q.frac)

abbrev pub frame_of : Bool → PcapRecord → ByteView × ℕ
frame_of nanos q = (of_bytes q.bytes, stamp nanos q)

nil_of_length {ℓ} : {A : Type ℓ} (xs : List A) → length xs ≡ 0 → xs ≡ []
nil_of_length [] h = refl
nil_of_length (x ∷ xs) h = absurd (omega arith)

-- A read of bytes that are there.
read_exact-append :
    (r : PcapReader) (xs rest : List ℕ)
    → r.failed ≡ false
    → r.unread ≡ xs ++ rest
    → (g : ℕ) × (read_exact r (length xs) ≡ (record r { unread = rest; gcount = g }, some xs))
unfolding read_exact
read_exact-append r [] rest f e = (r.gcount, ground arith)
read_exact-append r (x ∷ xs) rest f e = (
  length (x ∷ xs),
  ground (arith, take-append (x ∷ xs) rest, drop-append (x ∷ xs) rest, length-append (x ∷ xs) rest),
)

read_exact-piece :
    (r : PcapReader) (xs rest : List ℕ) (n : ℕ)
    → r.failed ≡ false
    → r.unread ≡ xs ++ rest
    → length xs ≡ n
    → (g : ℕ) × (read_exact r n ≡ (record r { unread = rest; gcount = g }, some xs))
read_exact-piece r xs rest n f e l =
    subst (λ m. (g : ℕ) × (read_exact r m ≡ (record r { unread = rest; gcount = g }, some xs))) l
      (read_exact-append r xs rest f e)

-- The reader goes on behind one more record.
pub record Continues (r r' : PcapReader) (rest : List ℕ) : Type 0 where
  pub unread : r'.unread ≡ rest
  pub failed : r'.failed ≡ false
  pub swap : r'.swap ≡ r.swap
  pub nanos : r'.nanos ≡ r.nanos
  pub truncated : r'.truncated ≡ r.truncated
  pub records : r'.records ≡ (r.records + 1) % 2 ^ 64

split_header :
    (big : Bool) (q : PcapRecord) (rest : List ℕ)
    → (xs : List ℕ) × (length xs ≡ 16)
      × (record_header big q rest ≡ xs ++ rest)
      × (xs ≡ record_header big q [])
split_header true q rest = (record_header true q [], refl, refl, refl)
split_header false q rest = (record_header false q [], refl, refl, refl)

stamp_bound : (nanos : Bool) (q : PcapRecord) → IsRecord q → stamp nanos q % 2 ^ 64 ≡ stamp nanos q
stamp_bound true q v = omega (arith, v.sec, v.frac)
stamp_bound false q v = omega (arith, v.sec, v.frac)

next-record :
    (r : PcapReader) (q : PcapRecord) (rest : List ℕ)
    → IsRecord q
    → r.failed ≡ false
    → r.unread ≡ record_header r.swap q (q.bytes ++ rest)
    → (r' : PcapReader) × (next r ≡ (r', some (frame_of r.nanos q))) × Continues r r' rest
unfolding next next_record timestamp deliver_frame
next-record r q rest v f e =
    let (xs, n, s, w) = split_header r.swap q (q.bytes ++ rest) in
    let (g, p) = read_exact-piece r xs (q.bytes ++ rest) 16 f (e ∙ s) n in
    let (g', p') =
      read_exact-append (record r { unread = q.bytes ++ rest; gcount = g }) q.bytes rest f refl in
    let (sec, frac, incl) = record_header-fields q v r.swap in
    let small : ltb max_record (length q.bytes) ≡ false = ground (arith, v.bytes) in
    let whole : next r ≡ next_record (behind g, some (record_header r.swap q [])) =
      ap next_record (p ∙ ap (λ buf. (behind g, some buf)) w) in
    rw (whole, incl, small, p', sec, frac, stamp_bound r.nanos q v)
      (
        _,
        refl,
        record {
          unread = refl;
          failed = f;
          swap = refl;
          nanos = refl;
          truncated = refl;
          records = refl;
        },
      )
  where
    behind : ℕ → PcapReader
    behind g = record r { unread = q.bytes ++ rest; gcount = g }

-- The call behind the last record: a clean end.
next-nil :
    (r : PcapReader)
    → r.failed ≡ false
    → r.unread ≡ []
    → next r ≡ (record r { unread = []; gcount = 0; failed = true }, none)
unfolding next next_record read_exact
next-nil r f e = ground arith

abbrev pub AllRecords : List PcapRecord → Type 0
AllRecords [] = Unit {0}
AllRecords (q ∷ qs) = IsRecord q × AllRecords qs

-- All records are read, and the file ends cleanly.
abbrev pub ReadAll : PcapReader → List PcapRecord → List (ByteView × ℕ) × PcapReader → Type 0
ReadAll r qs o =
    (o.0 ≡ map (frame_of r.nanos) qs)
    × (o.1.truncated ≡ r.truncated)
    × (o.1.records ≡ (r.records + length qs) % 2 ^ 64)

read_all-records :
    (qs : List PcapRecord) (r : PcapReader) (fuel : ℕ)
    → AllRecords qs
    → r.failed ≡ false
    → r.unread ≡ record_bytes r.swap qs
    → r.records < 2 ^ 64
    → length qs < fuel
    → Ensures (ReadAll r qs) (read_all fuel r)
unfolding read_all collect
read_all-records qs r zero v f e c h = absurd (omega arith)
read_all-records [] r (suc fuel) v f e c h =
    rw (next-nil r f e) (_, refl, (refl, refl, omega arith))
read_all-records (q ∷ qs) r (suc fuel) (w, v) f e c h =
    let (r', p, k) = next-record r q (record_bytes r.swap qs) w f e in
    let (o, p', (a, b, n)) =
      read_all-records qs r' fuel v k.failed (k.unread ∙ ap (λ s. record_bytes s qs) (sym k.swap))
        (omega (arith, k.records)) (omega arith) in
    rw (p, p')
      (
        _,
        refl,
        (
          ap (λ fs. frame_of r.nanos q ∷ fs) (a ∙ ap (λ m. map (frame_of m) qs) k.nanos),
          b ∙ k.truncated,
          omega (arith, n, k.records),
        ),
      )

-- A writer's file: its header and its records.
abbrev pub file_bytes : Bool → Bool → ℕ → ℕ → ℕ → ℕ → ℕ → List PcapRecord → List ℕ
file_bytes big nanos version zone accuracy snaplen net qs =
    file_header big nanos version zone accuracy snaplen net (record_bytes big qs)

-- The reader that open leaves for such a file.
abbrev pub Ready : Bool → Bool → ℕ → ℕ → List ℕ → PcapReader → Type 0
Ready big nanos snaplen net rest r =
    (r.unread ≡ rest)
    × (r.failed ≡ false)
    × (r.swap ≡ big)
    × (r.nanos ≡ nanos)
    × (r.snaplen ≡ snaplen)
    × (r.link ≡ link_type net)
    × (r.truncated ≡ false)
    × (r.records ≡ 0)

split_file :
    (big nanos : Bool) (version zone accuracy snaplen net : ℕ) (rest : List ℕ)
    → (xs : List ℕ) × (length xs ≡ 24)
      × (file_header big nanos version zone accuracy snaplen net rest ≡ xs ++ rest)
      × (xs ≡ file_header big nanos version zone accuracy snaplen net [])
split_file true nanos a b c d e rest = (file_header true nanos a b c d e [], refl, refl, refl)
split_file false nanos a b c d e rest = (file_header false nanos a b c d e [], refl, refl, refl)

open_file-Ready :
    (path : Text) (big nanos : Bool) (version zone accuracy snaplen net : ℕ) (rest : List ℕ)
    → snaplen < 2 ^ 32
    → net < 2 ^ 32
    → (r : PcapReader) × (open_file path
          (some (file_header big nanos version zone accuracy snaplen net rest))
        ≡ inr r)
      × Ready big nanos snaplen net rest r
unfolding open_file opened_with global_header
open_file-Ready path big nanos version zone accuracy snaplen net rest h k =
    let (xs, n, s, w) = split_file big nanos version zone accuracy snaplen net rest in
    let (g, p) =
      read_exact-piece (opened (file_header big nanos version zone accuracy snaplen net rest)) xs
        rest 24 refl s n in
    let (magic, snap, link) = file_header-fields big nanos version zone accuracy snaplen net h k in
    let whole : open_file path (some (file_header big nanos version zone accuracy snaplen net rest))
        ≡ opened_with
            (behind g, some (file_header big nanos version zone accuracy snaplen net [])) =
      ap opened_with (p ∙ ap (λ buf. (behind g, some buf)) w) in
    rw (whole, global_header, magic, snap, link)
      (_, refl, (refl, refl, refl, refl, refl, refl, refl, refl))
  where
    behind : ℕ → PcapReader
    behind g = record (opened (file_header big nanos version zone accuracy snaplen net rest)) {
      unread = rest;
      gcount = g;
    }

-- Let a writer of either byte order and either resolution put records into a file, with 32-bit header
-- fields and frames of at most 2^20 bytes. open accepts the file, and on fuel above the number of
-- records the loop over next reads every frame with its time in microseconds, in order, counts them
-- modulo 2^64 and marks nothing as truncated.
pub read_all-file_bytes :
    (path : Text) (big nanos : Bool) (version zone accuracy snaplen net : ℕ) (qs : List PcapRecord)
    (fuel : ℕ)
    → snaplen < 2 ^ 32
    → net < 2 ^ 32
    → AllRecords qs
    → length qs < fuel
    → (r : PcapReader) × (open_file path
          (some (file_bytes big nanos version zone accuracy snaplen net qs))
        ≡ inr r)
      × Ensures
          (λ o.
            (o.0 ≡ map (frame_of nanos) qs)
            × (o.1.truncated ≡ false)
            × (o.1.records ≡ length qs % 2 ^ 64))
          (read_all fuel r)
read_all-file_bytes path big nanos version zone accuracy snaplen net qs fuel h k v f =
    let (r, p, (unread, failed, swap, nano, snap, link, cut, count)) =
      open_file-Ready path big nanos version zone accuracy snaplen net (record_bytes big qs) h k in
    let (o, e, (a, b, c)) =
      read_all-records qs r fuel v failed (unread ∙ ap (λ s. record_bytes s qs) (sym swap))
        (omega arith) f in
    (r, p, (o, e, (a ∙ ap (λ m. map (frame_of m) qs) nano, b ∙ cut, omega arith)))
