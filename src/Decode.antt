-- ===== src/Decode.antt =====
-- src/decode.h and src/decode.cpp: the header types, the status enum and the four decoders.
-- A decoder writes two out-parameters. It takes what they held and returns what they hold after the
-- call together with the status; `none` is an aborted NANO_ASSERT.
pub mod Headers
pub mod Checksum
pub mod Ipv4
pub mod L4
pub mod Tests
unfoldable pub use Headers.*
use nano_ngfw.Prelude.{
  ℕ, ◌+◌, ◌-◌, ◌*◌, ◌/◌, ◌%◌, Bool, true, false, not, ◌&&◌, Option, some, none, ltb, ◌==◌,
  if◌then◌else◌, ◌>>=◌,
}
use nano_ngfw.ByteView.{ByteView, has, u8, u16, u32, slice, from}
use Checksum.{ones_complement_sum}

-- What a call of a decoder leaves behind.
pub record Decoded (H : Type 0) : Type 0 where
  pub status : DecodeStatus
  pub out : H
  pub payload : ByteView

abbrev eth_size : ℕ
eth_size = 14

abbrev smaller : ℕ → ℕ → ℕ
smaller a b = if ltb a b then a else b

unfoldable pub decode_eth : ByteView → EthHeader → ByteView → Option (Decoded EthHeader)
decode_eth frame out payload =
    if not (has frame 0 eth_size)
    then some (record { status = short_header; out = out; payload = payload })
    else do
      ethertype ← u16 frame 12
      some (record {
        status = ok;
        out = record { dst = frame.addr; src = frame.addr + 6; ethertype = ethertype };
        payload = from frame eth_size;
      })

-- The part of decode_ipv4 behind the checks of the header length.
unfoldable pub ipv4_fields : ByteView → ℕ → Ipv4Header → ByteView → Option (Decoded Ipv4Header)
ipv4_fields pkt ihl_bytes out payload = do
  total_length ← u16 pkt 2
  ident ← u16 pkt 4
  flags_frag ← u16 pkt 6
  ttl ← u8 pkt 8
  protocol ← u8 pkt 9
  src ← u32 pkt 12
  dst ← u32 pkt 16
  sum ← ones_complement_sum pkt ihl_bytes
  let header : Ipv4Header = record {
    ihl_bytes = ihl_bytes % 256;
    ttl = ttl;
    protocol = protocol;
    total_length = total_length;
    ident = ident;
    frag_offset = flags_frag % 0x2000 * 8 % 65536;
    dont_fragment = bit_set flags_frag 0x4000;
    more_fragments = bit_set flags_frag 0x2000;
    src = src;
    dst = dst;
    checksum_ok = sum == 0xffff;
  }
  if ltb total_length ihl_bytes
      then some (record { status = bad_length; out = header; payload = payload })
      else some (record {
        status = ok;
        out = header;
        payload = slice pkt ihl_bytes (smaller (total_length - ihl_bytes) (pkt.len - ihl_bytes));
      })

unfoldable pub decode_ipv4 : ByteView → Ipv4Header → ByteView → Option (Decoded Ipv4Header)
decode_ipv4 pkt out payload = if not (has pkt 0 20) then fails short_header else do
  vhl ← u8 pkt 0
  if not (vhl / 16 == 4)
      then fails bad_version
      else if ltb (vhl % 16) 5
      then fails bad_ihl
      else if not (has pkt 0 (vhl % 16 * 4))
      then fails bad_ihl
      else ipv4_fields pkt (vhl % 16 * 4) out payload
  where
    fails : DecodeStatus → Option (Decoded Ipv4Header)
    fails st = some (record { status = st; out = out; payload = payload })

unfoldable pub decode_tcp : ByteView → TcpHeader → ByteView → Option (Decoded TcpHeader)
decode_tcp seg out payload =
    if not (has seg 0 20)
    then some (record { status = short_header; out = out; payload = payload })
    else do
      src_port ← u16 seg 0
      dst_port ← u16 seg 2
      seq ← u32 seg 4
      ack ← u32 seg 8
      let out' : TcpHeader = record out {
        src_port = src_port;
        dst_port = dst_port;
        seq = seq;
        ack = ack;
      }
      offset ← u8 seg 12
      if ltb (offset / 16) 5
          then some (record { status = bad_length; out = out'; payload = payload })
          else if not (has seg 0 (offset / 16 * 4))
          then some (record { status = bad_length; out = out'; payload = payload })
          else do
            flags ← u8 seg 13
            window ← u16 seg 14
            some (record {
              status = ok;
              out = record out' {
                data_offset = offset / 16 * 4 % 256;
                flags = flags;
                window = window;
              };
              payload = from seg (offset / 16 * 4);
            })

unfoldable pub decode_udp : ByteView → UdpHeader → ByteView → Option (Decoded UdpHeader)
decode_udp seg out payload =
    if not (has seg 0 8)
    then some (record { status = short_header; out = out; payload = payload })
    else do
      src_port ← u16 seg 0
      dst_port ← u16 seg 2
      length ← u16 seg 4
      let out' : UdpHeader = record { src_port = src_port; dst_port = dst_port; length = length }
      if ltb length 8
          then some (record { status = bad_length; out = out'; payload = payload })
          else some (record {
            status = ok;
            out = out';
            payload = slice seg 8 (smaller (length - 8) (seg.len - 8));
          })
