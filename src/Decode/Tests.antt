-- ===== src/Decode/Tests.antt =====
-- Concrete packets for src/decode.cpp.
use nano_ngfw.Prelude.{ℕ, ◌≡◌, refl, List, [], ◌∷◌, ◌++◌, some, arith, Ensures}
use nano_ngfw.ByteView.{ByteView, of_bytes, has, u16, slice, empty_view}
use nano_ngfw.ByteView.Window.{IsWithin, slice-IsWithin}
use nano_ngfw.Decode.{no_ipv4, no_tcp, no_udp, decode_ipv4, decode_tcp, decode_udp}
use nano_ngfw.Decode.Checksum.{
  ones_complement_sum, sum_words, fold_carries, word_sum, Folds, ones_complement_sum_eq,
}
use nano_ngfw.Decode.Ipv4
use nano_ngfw.Decode.Ipv4.{decode_ipv4-Outcome}
use nano_ngfw.Decode.L4
use nano_ngfw.Decode.L4.{
  IsTcp, wire_tcp, tcp_header_len, decode_tcp-Outcome, IsUdp, wire_udp, decode_udp-Outcome,
  decode_eth-Outcome,
}

-- A header of 20 bytes from 192.168.1.10 to 8.8.8.8, TCP, 40 bytes in all.
abbrev pub ipv4_bytes : List ℕ
ipv4_bytes =
    0x45 ∷ 0 ∷ 0 ∷ 40 ∷ 0 ∷ 1 ∷ 0x40 ∷ 0 ∷ 64 ∷ 6 ∷ 0x69 ∷ 0x0d ∷ 192 ∷ 168 ∷ 1 ∷ 10 ∷ 8 ∷ 8 ∷ 8 ∷ 8
    ∷ []

-- A SYN from port 1234 to port 443.
abbrev pub syn_bytes : List ℕ
syn_bytes =
    0x04 ∷ 0xd2 ∷ 0x01 ∷ 0xbb ∷ 0 ∷ 0 ∷ 0 ∷ 1 ∷ 0 ∷ 0 ∷ 0 ∷ 0 ∷ 0x50 ∷ 2 ∷ 0x10 ∷ 0 ∷ 0 ∷ 0 ∷ 0 ∷ 0
    ∷ []

abbrev pub syn_frame : ByteView
syn_frame =
    of_bytes (2 ∷ 0 ∷ 0 ∷ 0 ∷ 0 ∷ 1 ∷ 2 ∷ 0 ∷ 0 ∷ 0 ∷ 0 ∷ 2 ∷ 8 ∷ 0 ∷ [] ++ ipv4_bytes ++ syn_bytes)

abbrev udp_bytes : List ℕ
udp_bytes = 0x30 ∷ 0x39 ∷ 0 ∷ 53 ∷ 0 ∷ 9 ∷ 0 ∷ 0 ∷ 7 ∷ []

header_sum : ones_complement_sum (of_bytes ipv4_bytes) 20 ≡ some 0xffff
unfolding ones_complement_sum sum_words u16 has fold_carries
header_sum = refl

slice-IsWithin_example : IsWithin (slice (of_bytes udp_bytes) 2 5) (of_bytes udp_bytes)
slice-IsWithin_example = slice-IsWithin (of_bytes udp_bytes) 2 5

ones_complement_sum_eq_example :
    Ensures
      (Folds (word_sum (of_bytes ipv4_bytes) 20))
      (ones_complement_sum (of_bytes ipv4_bytes) 20)
ones_complement_sum_eq_example =
    ones_complement_sum_eq (of_bytes ipv4_bytes) 20 (omega arith) (omega arith)

decode_ipv4-Outcome_example :
    Ensures
      (Ipv4.Outcome (of_bytes ipv4_bytes) empty_view)
      (decode_ipv4 (of_bytes ipv4_bytes) no_ipv4 empty_view)
decode_ipv4-Outcome_example = decode_ipv4-Outcome (of_bytes ipv4_bytes) no_ipv4 empty_view

decode_tcp-Outcome_example :
    Ensures
      (L4.Outcome
        (IsTcp (of_bytes syn_bytes))
        (wire_tcp (of_bytes syn_bytes))
        (record (of_bytes syn_bytes) { addr = 20; len = 0 })
        empty_view)
      (decode_tcp (of_bytes syn_bytes) no_tcp empty_view)
decode_tcp-Outcome_example = decode_tcp-Outcome (of_bytes syn_bytes) no_tcp empty_view

decode_udp-Outcome_example :
    Ensures
      (L4.Outcome
        (IsUdp (of_bytes udp_bytes))
        (wire_udp (of_bytes udp_bytes))
        (record (of_bytes udp_bytes) { addr = 8; len = 1 })
        empty_view)
      (decode_udp (of_bytes udp_bytes) no_udp empty_view)
decode_udp-Outcome_example = decode_udp-Outcome (of_bytes udp_bytes) no_udp empty_view
