-- ===== src/Pcap/Tests.antt =====
-- A big-endian capture in nanoseconds for src/pcap.cpp.
use nano_ngfw.Prelude.{
  ℕ, ◌≡◌, ◌^◌, ◌%◌, true, false, refl, List, [], ◌∷◌, some, inr, codes, arith, Ensures, length,
}
use mathlib.Core.List.{map}
use nano_ngfw.ByteView.{ByteView}
use nano_ngfw.Pcap.{PcapReader, opened, open_file, read_all}
use nano_ngfw.Pcap.Format.{PcapRecord}
use nano_ngfw.Pcap.RoundTrip.{AllRecords, frame_of, file_bytes, read_all-file_bytes}
use nano_ngfw.Pcap.Accounting.{Accounts, read_all-Accounts}

abbrev small_record : PcapRecord
small_record = record { sec = 7; frac = 1500; orig = 60; bytes = 0xde ∷ 0xad ∷ [] }

abbrev records : List PcapRecord
records = small_record ∷ record { sec = 8; frac = 0; orig = 0; bytes = [] } ∷ []

records-AllRecords : AllRecords records
records-AllRecords = (
  record { sec = omega arith; frac = omega arith; orig = omega arith; bytes = omega arith },
  (record { sec = omega arith; frac = omega arith; orig = omega arith; bytes = omega arith }, tt),
)

read_all-file_bytes_example :
    (r : PcapReader) × (open_file
        (codes "a.pcap")
        (some (file_bytes true true 0x20004 0 0 65535 101 records))
      ≡ inr r)
    × Ensures
        (λ (o : List (ByteView × ℕ) × PcapReader).
          (o.0 ≡ map (frame_of true) records)
          × (o.1.truncated ≡ false)
          × (o.1.records ≡ length records % 2 ^ 64))
        (read_all 3 r)
read_all-file_bytes_example =
    read_all-file_bytes (codes "a.pcap") true true 0x20004 0 0 65535 101 records 3 (omega arith)
      (omega arith) records-AllRecords (omega arith)

-- A record header that is cut off.
abbrev cut : PcapReader
cut = opened (1 ∷ 2 ∷ 3 ∷ [])

read_all-Accounts_example : Ensures (Accounts cut) (read_all 4 cut)
read_all-Accounts_example = read_all-Accounts 4 cut refl (omega arith)
