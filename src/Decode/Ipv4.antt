-- ===== src/Decode/Ipv4.antt =====
-- decode_ipv4 of src/decode.cpp: it reads inside the packet, and what it accepts.
use nano_ngfw.Prelude.{
  ℕ, ◌+◌, ◌-◌, ◌*◌, ◌/◌, ◌%◌, ◌≤◌, ◌<◌, ◌≡◌, ◌≢◌, ap, ◌⊎◌, inl, inr, refl, Bool, ◌&&◌, arith,
  Ensures, Ensures-bind, Bool-cases, ◌==◌, ltb, some,
}
use nano_ngfw.ByteView.{ByteView, byte, word, has, slice}
use nano_ngfw.ByteView.Access.{u8_eq, u16_eq, u32_eq, has_of_le, le_of_has, lt_of_not_has}
use nano_ngfw.Decode.{
  DecodeStatus, ok, short_header, bad_version, bad_ihl, bad_length, Ipv4Header, Decoded,
  decode_ipv4, ipv4_fields, smaller, bit_set,
}
use nano_ngfw.Decode.Checksum.{ones_complement_sum, ones_complement_sum_eq, word_sum, Folds}

-- The header length that the packet's first byte claims, in bytes.
abbrev pub claimed_ihl : ByteView → ℕ
claimed_ihl v = byte v 0 % 16 * 4

-- The shape of a packet that RFC 791 allows, as far as its lengths go.
pub record IsWellFormed (v : ByteView) : Type 0 where
  pub fixed : 20 ≤ v.len
  pub version : byte v 0 / 16 ≡ 4
  pub ihl : 20 ≤ claimed_ihl v
  pub room : claimed_ihl v ≤ v.len
  pub total : claimed_ihl v ≤ word v 2

-- RFC 1071: the words of the header sum to a positive multiple of 0xffff.
pub is_sum_valid : ByteView → ℕ → Bool
is_sum_valid v n = ltb 0 (word_sum v n) && word_sum v n % 65535 == 0

-- The header that the bytes of the packet spell.
pub wire_header : ByteView → Ipv4Header
wire_header v = record {
  ihl_bytes = claimed_ihl v;
  ttl = byte v 8;
  protocol = byte v 9;
  total_length = word v 2;
  ident = word v 4;
  frag_offset = word v 6 % 8192 * 8;
  dont_fragment = bit_set (word v 6) 0x4000;
  more_fragments = bit_set (word v 6) 0x2000;
  src = word v 12 * 65536 + word v 14;
  dst = word v 16 * 65536 + word v 18;
  checksum_ok = is_sum_valid v (claimed_ihl v);
}

-- The bytes between the header and the end of the packet, or of the capture if that ends first.
pub l4_window : ByteView → ByteView
l4_window v = record v {
  addr = v.addr + claimed_ihl v;
  len = smaller (word v 2) v.len - claimed_ihl v;
}

abbrev Fields : ByteView → ByteView → Decoded Ipv4Header → Type 0
Fields v payload d =
    (claimed_ihl v ≤ word v 2)
      × (d ≡ record { status = ok; out = wire_header v; payload = l4_window v })
    ⊎ (word v 2 < claimed_ihl v)
      × (d ≡ record { status = bad_length; out = wire_header v; payload = payload })

sum_test : (v : ByteView) (n r : ℕ) → Folds (word_sum v n) r → (r == 0xffff) ≡ is_sum_valid v n
unfolding is_sum_valid
sum_test v n r f = ground arith

clip_eq :
    (v : ByteView)
    → claimed_ihl v ≤ word v 2
    → claimed_ihl v ≤ v.len
    → slice v (claimed_ihl v) (smaller (word v 2 - claimed_ihl v) (v.len - claimed_ihl v))
      ≡ l4_window v
unfolding slice has l4_window
clip_eq v h k = ground arith

ipv4_fields_ok :
    (v : ByteView) (out : Ipv4Header) (payload : ByteView)
    → 20 ≤ claimed_ihl v
    → claimed_ihl v ≤ v.len
    → Ensures (Fields v payload) (ipv4_fields v (claimed_ihl v) out payload)
unfolding ipv4_fields wire_header l4_window
ipv4_fields_ok v out payload lo h =
    rw
      (
        u16_eq v 2 (omega arith),
        u16_eq v 4 (omega arith),
        u16_eq v 6 (omega arith),
        u8_eq v 8 (omega arith),
        u8_eq v 9 (omega arith),
        u32_eq v 12 (omega arith),
        u32_eq v 16 (omega arith),
      )
      (Ensures-bind (Folds (word_sum v (claimed_ihl v))) (Fields v payload)
        (ones_complement_sum v (claimed_ihl v)) _
        (ones_complement_sum_eq v (claimed_ihl v) h (omega arith))
        λ r f. elim (Bool-cases (ltb (word v 2) (claimed_ihl v))) [
          | inl short ↦
              rw short (_, refl, inr (ground arith, ground (arith, sum_test v (claimed_ihl v) r f)))
          | inr fits ↦ rw fits (
            _,
            refl,
            inl (ground arith, ground (arith, sum_test v (claimed_ihl v) r f, clip_eq v)),
          )
        ])

-- What decode_ipv4 leaves behind: the header and the clipped payload of a well-formed packet, or a
-- failure status and the payload as it was.
abbrev pub Outcome : ByteView → ByteView → Decoded Ipv4Header → Type 0
Outcome v payload d =
    IsWellFormed v × (d ≡ record { status = ok; out = wire_header v; payload = l4_window v })
    ⊎ (¬ IsWellFormed v) × (d.status ≢ ok) × (d.payload ≡ payload)

rejected :
    (v : ByteView) (out : Ipv4Header) (payload : ByteView) (st : DecodeStatus)
    → st ≢ ok
    → ¬ IsWellFormed v
    → Ensures (Outcome v payload) (some (record { status = st; out = out; payload = payload }))
rejected v out payload st ne w = (_, refl, inr (w, ne, refl))

fields-Outcome :
    (v : ByteView) (out : Ipv4Header) (payload : ByteView)
    → 20 ≤ v.len
    → byte v 0 / 16 ≡ 4
    → 20 ≤ claimed_ihl v
    → claimed_ihl v ≤ v.len
    → Ensures (Outcome v payload) (ipv4_fields v (claimed_ihl v) out payload)
fields-Outcome v out payload fixed version ihl room =
    let (d, e, f) = ipv4_fields_ok v out payload ihl room in
    (
      d,
      e,
      elim f [
        | inl (le, p) ↦ inl (omega arith, p)
        | inr (lt, p) ↦
            inr (λ w. omega arith, λ q. ground arith, ap (λ (x : Decoded Ipv4Header). x.payload) p)
      ],
    )

-- The checks of the header length, behind the check of the fixed part.
checked-Outcome :
    (v : ByteView) (out : Ipv4Header) (payload : ByteView)
    → 20 ≤ v.len
    → Ensures (Outcome v payload) (decode_ipv4 v out payload)
unfolding decode_ipv4
checked-Outcome v out payload h =
    rw (has_of_le v 0 20 (omega arith), u8_eq v 0 (omega arith))
      (elim (Bool-cases (byte v 0 / 16 == 4)) [
        | inr other ↦ rw other (rejected v out payload bad_version (λ e. cc) λ w. ground arith)
        | inl four ↦ rw four (elim (Bool-cases (ltb (byte v 0 % 16) 5)) [
          | inl low ↦ rw low (rejected v out payload bad_ihl (λ e. cc) λ w. ground arith)
          | inr enough ↦ rw enough (elim (Bool-cases (has v 0 (claimed_ihl v))) [
            | inr long ↦ rw long (
                rejected v out payload bad_ihl (λ e. cc)
                  λ w. omega (arith, lt_of_not_has v 0 (claimed_ihl v) long))
            | inl room ↦ rw room (
                fields-Outcome v out payload h (ground arith) (ground arith)
                  (le_of_has v (claimed_ihl v) room))
          ])
        ])
      ])

-- decode_ipv4 returns on every packet without reading outside of it, and returns ok exactly for the
-- well-formed ones, with the header that the bytes spell and the payload clipped to the packet.
pub decode_ipv4-Outcome :
    (v : ByteView) (out : Ipv4Header) (payload : ByteView)
    → Ensures (Outcome v payload) (decode_ipv4 v out payload)
decode_ipv4-Outcome v out payload = elim (Bool-cases (has v 0 20)) [
  | inl fixed ↦ checked-Outcome v out payload (le_of_has v 20 fixed)
  | inr short ↦
      unfold decode_ipv4 in
      rw short (
        rejected v out payload short_header (λ e. cc)
          λ w. omega (arith, lt_of_not_has v 0 20 short))
]
