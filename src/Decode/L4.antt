-- ===== src/Decode/L4.antt =====
-- decode_eth, decode_tcp and decode_udp of src/decode.cpp: they read inside the frame, and what they
-- accept.
use nano_ngfw.Prelude.{
  ℕ, ◌+◌, ◌-◌, ◌*◌, ◌/◌, ◌≤◌, ◌≡◌, ◌≢◌, ◌⊎◌, inl, inr, refl, arith, Ensures, Bool-cases, ltb,
}
use nano_ngfw.ByteView.{ByteView, byte, word, has, slice, from}
use nano_ngfw.ByteView.Access.{u8_eq, u16_eq, u32_eq, le_of_has, lt_of_not_has}
use nano_ngfw.Decode.{
  ok, EthHeader, TcpHeader, UdpHeader, Decoded, decode_eth, decode_tcp, decode_udp, smaller,
}

abbrev pub tcp_header_len : ByteView → ℕ
tcp_header_len v = byte v 12 / 16 * 4

pub record IsTcp (v : ByteView) : Type 0 where
  pub fixed : 20 ≤ v.len
  pub offset : 20 ≤ tcp_header_len v
  pub room : tcp_header_len v ≤ v.len

pub wire_tcp : ByteView → TcpHeader
wire_tcp v = record {
  src_port = word v 0;
  dst_port = word v 2;
  seq = word v 4 * 65536 + word v 6;
  ack = word v 8 * 65536 + word v 10;
  data_offset = tcp_header_len v;
  flags = byte v 13;
  window = word v 14;
}

pub record IsUdp (v : ByteView) : Type 0 where
  pub fixed : 8 ≤ v.len
  pub total : 8 ≤ word v 4

pub wire_udp : ByteView → UdpHeader
wire_udp v = record { src_port = word v 0; dst_port = word v 2; length = word v 4 }

-- What a decoder leaves behind: a header and the window behind it if the bytes have the shape, or a
-- failure status and the payload as it was.
abbrev pub Outcome {ℓ} : {H : Type 0} → Type ℓ → H → ByteView → ByteView → Decoded H → Type ℓ
Outcome Shape header behind payload d =
    Shape × (d ≡ record { status = ok; out = header; payload = behind })
    ⊎ (¬ Shape) × (d.status ≢ ok) × (d.payload ≡ payload)

-- decode_tcp returns on every segment without reading outside of it, and returns ok exactly if the
-- data offset lies between 20 bytes and the end of the segment, with the header that the bytes spell
-- and everything behind the options.
pub decode_tcp-Outcome :
    (v : ByteView) (out : TcpHeader) (payload : ByteView)
    → Ensures
        (Outcome
          (IsTcp v)
          (wire_tcp v)
          (record v { addr = v.addr + tcp_header_len v; len = v.len - tcp_header_len v })
          payload)
        (decode_tcp v out payload)
unfolding decode_tcp wire_tcp from
decode_tcp-Outcome v out payload = elim (Bool-cases (has v 0 20)) [
  | inr short ↦
      rw short (_, refl, inr (λ w. omega (arith, lt_of_not_has v 0 20 short), λ e. cc, refl))
  | inl fixed ↦
      let h : 20 ≤ v.len = le_of_has v 20 fixed in
      rw
        (
          fixed,
          u16_eq v 0 (omega arith),
          u16_eq v 2 (omega arith),
          u32_eq v 4 (omega arith),
          u32_eq v 8 (omega arith),
          u8_eq v 12 (omega arith),
        )
        (elim (Bool-cases (ltb (byte v 12 / 16) 5)) [
          | inl low ↦ rw low (_, refl, inr (λ w. ground arith, λ e. cc, refl))
          | inr enough ↦ rw enough (elim (Bool-cases (has v 0 (tcp_header_len v))) [
            | inr long ↦ rw long (
              _,
              refl,
              inr (λ w. omega (arith, lt_of_not_has v 0 (tcp_header_len v) long), λ e. cc, refl),
            )
            | inl room ↦
                let k : tcp_header_len v ≤ v.len = le_of_has v (tcp_header_len v) room in
                rw (room, u8_eq v 13 (omega arith), u16_eq v 14 (omega arith))
                  (_, refl, inl (ground arith, ground arith))
          ])
        ])
]

-- decode_udp returns on every datagram without reading outside of it, and returns ok exactly if the
-- length field covers the 8 bytes of the header, with the payload clipped to the length field.
pub decode_udp-Outcome :
    (v : ByteView) (out : UdpHeader) (payload : ByteView)
    → Ensures
        (Outcome
          (IsUdp v)
          (wire_udp v)
          (record v { addr = v.addr + 8; len = smaller (word v 4) v.len - 8 })
          payload)
        (decode_udp v out payload)
unfolding decode_udp wire_udp slice has
decode_udp-Outcome v out payload = elim (Bool-cases (has v 0 8)) [
  | inr short ↦
      rw short (_, refl, inr (λ w. omega (arith, lt_of_not_has v 0 8 short), λ e. cc, refl))
  | inl fixed ↦
      let h : 8 ≤ v.len = le_of_has v 8 fixed in
      rw (fixed, u16_eq v 0 (omega arith), u16_eq v 2 (omega arith), u16_eq v 4 (omega arith))
        (elim (Bool-cases (ltb (word v 4) 8)) [
          | inl low ↦ rw low (_, refl, inr (λ w. ground arith, λ e. cc, refl))
          | inr enough ↦ rw enough (_, refl, inl (ground arith, ground arith))
        ])
]

-- decode_eth returns on every frame without reading outside of it, and returns ok exactly from 14
-- bytes on, with the type that the bytes spell and everything behind the header.
pub decode_eth-Outcome :
    (v : ByteView) (out : EthHeader) (payload : ByteView)
    → Ensures
        (Outcome
          (14 ≤ v.len)
          (record { dst = v.addr; src = v.addr + 6; ethertype = word v 12 })
          (record v { addr = v.addr + 14; len = v.len - 14 })
          payload)
        (decode_eth v out payload)
unfolding decode_eth from
decode_eth-Outcome v out payload = elim (Bool-cases (has v 0 14)) [
  | inr short ↦
      rw short (_, refl, inr (λ w. omega (arith, lt_of_not_has v 0 14 short), λ e. cc, refl))
  | inl fixed ↦
      let h : 14 ≤ v.len = le_of_has v 14 fixed in
      rw (fixed, u16_eq v 12 (omega arith)) (_, refl, inl (h, ground arith))
]
