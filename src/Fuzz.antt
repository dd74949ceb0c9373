-- ===== src/Fuzz.antt =====
-- The fuzz targets fuzz/fuzz_decode.cpp and fuzz/fuzz_tls.cpp: what they run on arbitrary bytes. Data of
-- the fuzzer is a list of bytes; `none` is an aborted NANO_ASSERT.
pub mod Returns
pub mod Tests
use nano_ngfw.Prelude.{
  ℕ, zero, suc, ◌+◌, ◌*◌, ◌^◌, List, [], Option, none, some, leb, ◌==◌, if◌then◌else◌, not, ◌>>=◌,
  ◌>>◌, length,
}
use nano_ngfw.ByteView.{ByteView, of_bytes, empty_view, byte, u8}
use nano_ngfw.Decode.{
  no_eth, no_ipv4, no_tcp, no_udp, later_fragment, decode_eth, decode_ipv4, decode_tcp, decode_udp,
  Decoded, EthHeader, Ipv4Header, TcpHeader, UdpHeader,
}
use nano_ngfw.AppId.{classify}
use nano_ngfw.AppId.Sni.{extract_sni}
use nano_ngfw.Engine.{is_ok}

-- The loop that reads each byte of a payload: `left` bytes from `i` on.
unfoldable pub touch : ℕ → ByteView → ℕ → Option (Unit {0})
touch zero payload i = some tt
touch (suc left) payload i = u8 payload i >>= λ _. touch left payload (i + 1)

-- `if (... == Ok)` with its loop.
abbrev pub touch_decoded : {H : Type 0} → Decoded H → Option (Unit {0})
touch_decoded d = if is_ok d.status then touch d.payload.len d.payload 0 else some tt

-- The switch on the protocol.
unfoldable pub fuzz_l4 : ℕ → ByteView → Option (Unit {0})
fuzz_l4 protocol l4 =
    if protocol == 6
    then (decode_tcp l4 no_tcp empty_view >>= λ d. touch_decoded d)
    else if protocol == 17
    then (decode_udp l4 no_udp empty_view >>= λ d. touch_decoded d)
    else some tt

unfoldable pub fuzz_ipv4 : ByteView → Option (Unit {0})
fuzz_ipv4 l3 = decode_ipv4 l3 no_ipv4 empty_view >>= λ d.
    if not (is_ok d.status)
    then some tt
    else if later_fragment d.out
    then some tt
    else fuzz_l4 d.out.protocol d.payload

-- LLVMFuzzerTestOneInput of fuzz_decode.cpp.
unfoldable pub fuzz_decode : List ℕ → Option (Unit {0})
fuzz_decode input = decode_eth (of_bytes input) no_eth empty_view >>= λ d.
    if not (is_ok d.status)
    then some tt
    else if not (d.out.ethertype == 0x0800)
    then some tt
    else fuzz_ipv4 d.payload

-- `(data[0] << 8) | data[1]`, or 443.
abbrev pub input_port : List ℕ → ℕ
input_port input =
    if leb 2 (length input) then byte (of_bytes input) 0 * 2 ^ 8 + byte (of_bytes input) 1 else 443

-- LLVMFuzzerTestOneInput of fuzz_tls.cpp.
unfoldable pub fuzz_tls : List ℕ → Option (Unit {0})
fuzz_tls input = do
  named ← extract_sni (of_bytes input) []
  tcp ← classify (of_bytes input) 6 (input_port input)
  udp ← classify (of_bytes input) 17 (input_port input)
  some tt
