-- ===== src/Pcap/Accounting.antt =====
-- PcapReader of src/pcap.cpp on any file: where its run ends, and the bytes of its frames.
use nano_ngfw.Prelude.{
  ℕ, zero, suc, ◌+◌, ◌^◌, ◌≤◌, ◌<◌, ◌≡◌, refl, ◌⊎◌, inl, inr, true, false, List, [], ◌∷◌, arith,
  length, ltb, Option, none, some, length-take, length-drop, Ensures, Bool-cases,
}
use nano_ngfw.ByteView.{ByteView, of_bytes}
use nano_ngfw.Pcap.{
  PcapReader, max_record, read_exact, next_record, next, collect, deliver_frame, read_all,
  timestamp, fix32, load32le,
}

-- What a read of n bytes makes of a reader that has not failed.
abbrev pub ReadExact : PcapReader → ℕ → PcapReader × Option (List ℕ) → Type 0
ReadExact r n (r', some xs) =
    (length xs ≡ n)
    × (length r'.unread + n ≡ length r.unread)
    × (r'.failed ≡ false)
    × (r'.truncated ≡ r.truncated)
ReadExact r n (r', none) =
    (length r.unread < n) × (r'.gcount ≡ length r.unread) × (r'.truncated ≡ r.truncated)

pub read_exact-ReadExact :
    (r : PcapReader) (n : ℕ) → r.failed ≡ false → ReadExact r n (read_exact r n)
unfolding read_exact
read_exact-ReadExact r n f = ground (arith, length-take n r.unread, length-drop n r.unread)

-- What a call of next makes of it.
abbrev Advances : PcapReader → PcapReader × Option (ByteView × ℕ) → Type 0
Advances r (r', some (frame, ts)) =
    (frame.len ≤ 2 ^ 20)
    × (length r'.unread + 16 + frame.len ≡ length r.unread)
    × (r'.failed ≡ false)
    × (r'.truncated ≡ r.truncated)
Advances r (r', none) =
    (length r.unread ≡ 0) × (r'.truncated ≡ r.truncated)
    ⊎ (0 < length r.unread) × (r'.truncated ≡ true)

deliver_frame-Advances :
    (r r' : PcapReader) (ts n : ℕ) (o : PcapReader × Option (List ℕ))
    → n ≤ 2 ^ 20
    → length r'.unread + 16 ≡ length r.unread
    → r'.truncated ≡ r.truncated
    → ReadExact r' n o
    → Advances r (deliver_frame ts o)
unfolding deliver_frame
deliver_frame-Advances r r' ts n (s, none) h k t e = ground arith
deliver_frame-Advances r r' ts n (s, some xs) h k t e = ground arith

next_record-Advances :
    (r : PcapReader) (o : PcapReader × Option (List ℕ))
    → ReadExact r 16 o
    → Advances r (next_record o)
unfolding next_record
next_record-Advances r (r', none) e = ground arith
next_record-Advances r (r', some xs) (n, l, f, t) =
    let incl = fix32 r' (load32le (of_bytes xs) 8) in
    elim (Bool-cases (ltb max_record incl)) [
      | inl long ↦ rw long (ground arith)
      | inr fits ↦ rw fits (
          deliver_frame-Advances r r' (timestamp r' (of_bytes xs)) incl (read_exact r' incl)
            (ground arith) l t (read_exact-ReadExact r' incl f))
    ]

next-Advances : (r : PcapReader) → r.failed ≡ false → Advances r (next r)
unfolding next
next-Advances r f = next_record-Advances r (read_exact r 16) (read_exact-ReadExact r 16 f)

-- The bytes of the file that the frames and their record headers take.
abbrev pub size : List (ByteView × ℕ) → ℕ
size [] = 0
size (f ∷ fs) = 16 + f.0.len + size fs

abbrev pub Bounded : List (ByteView × ℕ) → Type 0
Bounded [] = Unit {0}
Bounded (f ∷ fs) = (f.0.len ≤ 2 ^ 20) × Bounded fs

-- No frame is longer than 2^20 bytes, and either the frames and their headers are the whole file, and
-- the end is a clean one, or bytes are left over, and the capture is marked as truncated.
abbrev pub Accounts : PcapReader → List (ByteView × ℕ) × PcapReader → Type 0
Accounts r o =
    Bounded o.0
    × ((size o.0 ≡ length r.unread) × (o.1.truncated ≡ r.truncated)
        ⊎ (size o.0 < length r.unread) × (o.1.truncated ≡ true))

collect-Accounts :
    (r : PcapReader) (again : PcapReader → Option (List (ByteView × ℕ) × PcapReader))
    (o : PcapReader × Option (ByteView × ℕ))
    → Advances r o
    → ((q : PcapReader)
        → q.failed ≡ false
        → length q.unread + 16 ≤ length r.unread
        → Ensures (Accounts q) (again q))
    → Ensures (Accounts r) (collect again o)
unfolding collect
collect-Accounts r again (r', none) a h = (_, refl, ground arith)
collect-Accounts r again (r', some (frame, ts)) a h =
    let (o, e, k) = h r' (ground arith) (ground arith) in rw e (_, refl, ground arith)

-- From a reader that has not failed, on fuel above the number of bytes left: the loop over next returns
-- on every file. No frame is longer than 2^20 bytes, and either the frames with their headers of 16
-- bytes are all that was left of the file, and nothing is marked as truncated, or they are less, and
-- the capture is marked.
pub read_all-Accounts :
    (fuel : ℕ) (r : PcapReader)
    → r.failed ≡ false
    → length r.unread < fuel
    → Ensures (Accounts r) (read_all fuel r)
unfolding read_all
read_all-Accounts zero r f h = absurd (omega arith)
read_all-Accounts (suc fuel) r f h =
    collect-Accounts r (read_all fuel) (next r) (next-Advances r f)
      λ q g k. read_all-Accounts fuel q g (omega arith)
