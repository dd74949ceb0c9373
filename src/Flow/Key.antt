-- ===== src/Flow/Key.antt =====
-- FiveTuple of src/flow.h and src/flow.cpp: both directions of a conversation have one key, and two
-- conversations have two.
use nano_ngfw.Prelude.{ℕ, ◌≡◌, ◌⊎◌, ◌↔◌, true, arith}
use nano_ngfw.Flow.{FiveTuple, PacketMeta, key_eq, make, meta_key}

pub key_eq_iff : (a b : FiveTuple) → (key_eq a b ≡ true) ↔ (a ≡ b)
key_eq_iff a b = (λ h. ground arith, λ h. ground arith)

-- A packet and its answer have the same key.
pub make_comm :
    (src_ip src_port dst_ip dst_port proto : ℕ)
    → make src_ip src_port dst_ip dst_port proto ≡ make dst_ip dst_port src_ip src_port proto
unfolding make
make_comm src_ip src_port dst_ip dst_port proto = ground arith

abbrev pub SameWay : PacketMeta → PacketMeta → Type 0
SameWay m n =
    (m.src_ip ≡ n.src_ip)
    × (m.src_port ≡ n.src_port)
    × (m.dst_ip ≡ n.dst_ip)
    × (m.dst_port ≡ n.dst_port)

abbrev pub OtherWay : PacketMeta → PacketMeta → Type 0
OtherWay m n =
    (m.src_ip ≡ n.dst_ip)
    × (m.src_port ≡ n.dst_port)
    × (m.dst_ip ≡ n.src_ip)
    × (m.dst_port ≡ n.src_port)

-- Two packets have one key exactly if they are of one protocol and go between the same two endpoints,
-- each an address with its port, in the same or in the opposite direction.
pub meta_key_iff :
    (m n : PacketMeta)
    → (meta_key m ≡ meta_key n) ↔ ((m.proto ≡ n.proto) × (SameWay m n ⊎ OtherWay m n))
unfolding make
meta_key_iff m n = (λ h. ground arith, λ h. ground arith)
