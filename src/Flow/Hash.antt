-- ===== src/Flow/Hash.antt =====
-- FiveTupleHash of src/flow.h, where size_t has 64 bits and its arithmetic wraps.
use Prim.Native.Nat.{bit_xor}
use nano_ngfw.Prelude.{
  ℕ, ◌+◌, ◌*◌, ◌/◌, ◌%◌, ◌^◌, ◌<◌, ◌≡◌, ◌↔◌, ap, sym, ◌∙◌, arith, bit_xor-cancel, bit_xor-lt,
}
use nano_ngfw.Flow.{FiveTuple}

-- `seed ^= value + 0x9e3779b9u + (seed << 6) + (seed >> 2)`
unfoldable pub combine : ℕ → ℕ → ℕ
combine seed value =
    bit_xor seed ((value + 0x9e3779b9 + seed * 2 ^ 6 % 2 ^ 64 + seed / 2 ^ 2) % 2 ^ 64)

abbrev ends_hash : FiveTuple → ℕ
ends_hash t = combine (combine (combine (combine 0 t.ip_a) t.ip_b) t.port_a) t.port_b

-- FiveTupleHash::operator().
unfoldable pub hash : FiveTuple → ℕ
hash t = combine (ends_hash t) t.proto

combine-lt : (seed value : ℕ) → seed < 2 ^ 64 → combine seed value < 2 ^ 64
unfolding combine
combine-lt seed value h = bit_xor-lt 64 seed _ h (omega arith)

combine-cancel : (seed a b : ℕ) → a < 2 ^ 64 → b < 2 ^ 64 → combine seed a ≡ combine seed b → a ≡ b
unfolding combine
combine-cancel seed a b h k q = let e = bit_xor-cancel seed _ _ q in omega (arith, e)

-- The fields other than the protocol.
abbrev SameEnds : FiveTuple → FiveTuple → Type 0
SameEnds a b = (a.ip_a ≡ b.ip_a) × (a.ip_b ≡ b.ip_b) × (a.port_a ≡ b.port_a) × (a.port_b ≡ b.port_b)

-- The hash of a key has 64 bits, and two keys with the same end points and 8-bit protocols have one hash exactly if they are of one protocol.
hash_iff :
    (a b : FiveTuple)
    → a.proto < 2 ^ 8
    → b.proto < 2 ^ 8
    → SameEnds a b
    → (hash a < 2 ^ 64) × ((hash a ≡ hash b) ↔ (a.proto ≡ b.proto))
unfolding hash
hash_iff a b h k s = (
  combine-lt _ a.proto (
      combine-lt _ a.port_b
        (combine-lt _ a.port_a (combine-lt _ a.ip_b (combine-lt 0 a.ip_a (omega arith))))),
  (
    λ q.
        combine-cancel (ends_hash b) a.proto b.proto (omega arith) (omega arith)
          (ap (λ seed. combine seed a.proto) (sym same) ∙ q),
    λ q. cc (same, q),
  ),
)
  where
    same : ends_hash a ≡ ends_hash b
    same = cc (s.0, s.1, s.2, s.3)
