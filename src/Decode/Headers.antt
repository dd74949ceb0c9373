-- ===== src/Decode/Headers.antt =====
-- The statuses and headers of src/decode.h.
use nano_ngfw.Prelude.{ℕ, ◌/◌, ◌%◌, Bool, false, not, ◌&&◌, ltb, ◌==◌}

pub data DecodeStatus : Type 0 where
  ok short_header bad_version bad_ihl bad_length : DecodeStatus

pub record EthHeader : Type 0 where
  pub dst : ℕ  -- an address
  pub src : ℕ  -- an address
  pub ethertype : ℕ

pub record Ipv4Header : Type 0 where
  pub ihl_bytes : ℕ
  pub ttl : ℕ
  pub protocol : ℕ
  pub total_length : ℕ
  pub ident : ℕ
  pub frag_offset : ℕ
  pub dont_fragment : Bool
  pub more_fragments : Bool
  pub src : ℕ
  pub dst : ℕ
  pub checksum_ok : Bool

pub record TcpHeader : Type 0 where
  pub src_port : ℕ
  pub dst_port : ℕ
  pub seq : ℕ
  pub ack : ℕ
  pub data_offset : ℕ
  pub flags : ℕ
  pub window : ℕ

pub record UdpHeader : Type 0 where
  pub src_port : ℕ
  pub dst_port : ℕ
  pub length : ℕ

abbrev pub no_eth : EthHeader
no_eth = record { dst = 0; src = 0; ethertype = 0 }

abbrev pub no_ipv4 : Ipv4Header
no_ipv4 = record {
  ihl_bytes = 0;
  ttl = 0;
  protocol = 0;
  total_length = 0;
  ident = 0;
  frag_offset = 0;
  dont_fragment = false;
  more_fragments = false;
  src = 0;
  dst = 0;
  checksum_ok = false;
}

abbrev pub no_tcp : TcpHeader
no_tcp = record {
  src_port = 0;
  dst_port = 0;
  seq = 0;
  ack = 0;
  data_offset = 0;
  flags = 0;
  window = 0;
}

abbrev pub no_udp : UdpHeader
no_udp = record { src_port = 0; dst_port = 0; length = 0 }

-- `(x & mask) != 0` for a mask of one bit.
abbrev pub bit_set : ℕ → ℕ → Bool
bit_set x mask = x / mask % 2 == 1

abbrev pub fin_bit : ℕ
fin_bit = 0x01

abbrev pub syn_bit : ℕ
syn_bit = 0x02

abbrev pub rst_bit : ℕ
rst_bit = 0x04

abbrev pub ack_bit : ℕ
ack_bit = 0x10

unfoldable pub pure_syn : TcpHeader → Bool
pure_syn h = bit_set h.flags syn_bit && not (bit_set h.flags ack_bit)

unfoldable pub later_fragment : Ipv4Header → Bool
later_fragment h = ltb 0 h.frag_offset
