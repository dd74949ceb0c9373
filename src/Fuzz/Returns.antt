-- ===== src/Fuzz/Returns.antt =====
-- The fuzz targets fuzz/fuzz_decode.cpp and fuzz/fuzz_tls.cpp on any input.
use nano_ngfw.Prelude.{
  ℕ, zero, suc, ◌+◌, ◌≤◌, ◌≡◌, refl, inl, inr, List, [], some, arith, Bool-cases, ◌==◌,
}
use nano_ngfw.ByteView.{ByteView, of_bytes, empty_view}
use nano_ngfw.ByteView.Access.{u8_eq}
use nano_ngfw.Decode.{no_eth, no_ipv4, no_tcp, no_udp, later_fragment, Decoded}
use nano_ngfw.Decode.Ipv4.{decode_ipv4-Outcome}
use nano_ngfw.Decode.L4.{decode_tcp-Outcome, decode_udp-Outcome, decode_eth-Outcome}
use nano_ngfw.AppId.Total.{classify-IsResult}
use nano_ngfw.AppId.Sni.Walk.{extract_sni-IsClean}
use nano_ngfw.Engine.{is_ok}
use nano_ngfw.Fuzz.{touch, touch_decoded, fuzz_l4, fuzz_ipv4, fuzz_decode, input_port, fuzz_tls}

-- Every byte of a view can be read.
touch_returns : (left : ℕ) (v : ByteView) (i : ℕ) → i + left ≤ v.len → touch left v i ≡ some tt
unfolding touch
touch_returns zero v i h = refl
touch_returns (suc left) v i h =
    rw (u8_eq v i (omega arith)) (touch_returns left v (i + 1) (omega arith))

touch_decoded_returns : {H : Type 0} (d : Decoded H) → touch_decoded d ≡ some tt
touch_decoded_returns d = elim (Bool-cases (is_ok d.status)) [
  | inl fine ↦ rw fine (touch_returns d.payload.len d.payload 0 (omega arith))
  | inr bad ↦ rw bad refl
]

fuzz_l4_returns : (protocol : ℕ) (l4 : ByteView) → fuzz_l4 protocol l4 ≡ some tt
unfolding fuzz_l4
fuzz_l4_returns protocol l4 =
    let (t, tcp, _) = decode_tcp-Outcome l4 no_tcp empty_view in
    let (u, udp, _) = decode_udp-Outcome l4 no_udp empty_view in
    elim (Bool-cases (protocol == 6)) [
      | inl six ↦ rw (six, tcp) (touch_decoded_returns t)
      | inr other ↦ rw other (elim (Bool-cases (protocol == 17)) [
        | inl seventeen ↦ rw (seventeen, udp) (touch_decoded_returns u)
        | inr none' ↦ rw none' refl
      ])
    ]

fuzz_ipv4_returns : (l3 : ByteView) → fuzz_ipv4 l3 ≡ some tt
unfolding fuzz_ipv4
fuzz_ipv4_returns l3 =
    let (d, e, _) = decode_ipv4-Outcome l3 no_ipv4 empty_view in
    rw e (elim (Bool-cases (is_ok d.status)) [
      | inr bad ↦ rw bad refl
      | inl fine ↦ rw fine (elim (Bool-cases (later_fragment d.out)) [
        | inl later ↦ rw later refl
        | inr first ↦ rw first (fuzz_l4_returns d.out.protocol d.payload)
      ])
    ])

fuzz_decode_returns : (input : List ℕ) → fuzz_decode input ≡ some tt
unfolding fuzz_decode
fuzz_decode_returns input =
    let (d, e, _) = decode_eth-Outcome (of_bytes input) no_eth empty_view in
    rw e (elim (Bool-cases (is_ok d.status)) [
      | inr bad ↦ rw bad refl
      | inl fine ↦ rw fine (elim (Bool-cases (d.out.ethertype == 0x0800)) [
        | inl ipv4 ↦ rw ipv4 (fuzz_ipv4_returns d.payload)
        | inr other ↦ rw other refl
      ])
    ])

fuzz_tls_returns : (input : List ℕ) → fuzz_tls input ≡ some tt
unfolding fuzz_tls
fuzz_tls_returns input =
    let (r, named, _) = extract_sni-IsClean (of_bytes input) [] tt in
    let (t, tcp, _) = classify-IsResult (of_bytes input) 6 (input_port input) in
    let (u, udp, _) = classify-IsResult (of_bytes input) 17 (input_port input) in
    rw (named, tcp, udp) refl

-- On every input both fuzz targets return: no check of ByteView aborts in the decoders, in the walk of
-- the ClientHello or in the signatures, and every byte of a decoded payload can be read.
pub fuzz_return : (input : List ℕ) → (fuzz_decode input ≡ some tt) × (fuzz_tls input ≡ some tt)
fuzz_return input = (fuzz_decode_returns input, fuzz_tls_returns input)
