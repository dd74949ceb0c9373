-- ===== src/Nat/Ports.antt =====
-- NatPool of src/nat.cpp: the ports that it hands out.
use nano_ngfw.Prelude.{
  ℕ, zero, suc, ◌+◌, ◌-◌, ◌≤◌, ◌<◌, ◌≡◌, ◌≢◌, ◌⊎◌, ap, true, false, List, [], ◌∷◌, Option, none,
  some, arith,
}
use nano_ngfw.Nat.{NatPool, pool, enabled, is_drained, allocate, release}

-- The range is in order and fits into 16 bits, the next port lies in it, and no more ports are out
-- than the pool allows.
pub record IsPool (p : NatPool) : Type 0 where
  pub ordered : p.first_port ≤ p.last_port
  pub fits : p.last_port < 65536
  pub low : p.first_port ≤ p.next_port
  pub high : p.next_port ≤ p.last_port
  pub capped : p.in_use + p.first_port ≤ p.last_port

pub pool-IsPool : (ip a b : ℕ) → a ≤ b → b < 65536 → IsPool (pool ip a b)
pool-IsPool ip a b h k = ground arith

-- What a call of allocate does: it refuses exactly a pool that is disabled or drained, and changes
-- nothing then; else it hands out the next port and counts it.
abbrev pub Allocates : NatPool → Option ℕ × NatPool → Type 0
Allocates p (none, q) = ((enabled p ≡ false) ⊎ (is_drained p ≡ true)) × (q ≡ p)
Allocates p (some port, q) =
    (enabled p ≡ true)
    × (p.in_use + p.first_port < p.last_port)
    × (port ≡ p.next_port)
    × (p.first_port ≤ port)
    × (port ≤ p.last_port)
    × (q.in_use ≡ p.in_use + 1)
    × (q.public_ip ≡ p.public_ip)

-- A sound pool stays sound under allocate, which hands out a port of the range and counts it, or
-- refuses and changes nothing.
pub allocate-Allocates : (p : NatPool) → IsPool p → IsPool (allocate p).1 × Allocates p (allocate p)
unfolding allocate
allocate-Allocates p v = ground arith

-- A refusal changes nothing.
pub allocate-refused : (p : NatPool) → (allocate p).0 ≡ none → (allocate p).1 ≡ p
unfolding allocate
allocate-refused p h = ground arith

-- A pool that has handed out its ports in order hands out the next one, and has again.
pub allocate_next :
    (p : NatPool) (port : ℕ)
    → IsPool p
    → p.next_port ≡ p.first_port + p.in_use
    → (allocate p).0 ≡ some port
    → let q = (allocate p).1 in
      (port ≡ p.next_port)
      × (q.next_port ≡ p.next_port + 1)
      × (q.in_use ≡ p.in_use + 1)
      × (q.first_port ≡ p.first_port)
      × (q.public_ip ≡ p.public_ip)
unfolding allocate
allocate_next p port v h e = ground arith

pub release-IsPool : (p : NatPool) (port : ℕ) → IsPool p → IsPool (release p port)
unfolding release
release-IsPool p port v = ground arith

-- n calls of allocate, one after the other.
unfoldable pub take_ports : ℕ → NatPool → List (Option ℕ) × NatPool
take_ports zero p = ([], p)
take_ports (suc n) p =
    let (port, q) = allocate p in let (ports, r) = take_ports n q in (port ∷ ports, r)

abbrev pub consecutive : ℕ → ℕ → List (Option ℕ)
consecutive first zero = []
consecutive first (suc n) = some first ∷ consecutive (first + 1) n

-- A pool of which the first i ports are out.
abbrev used : ℕ → ℕ → ℕ → ℕ → NatPool
used ip a b i = record {
  public_ip = ip;
  first_port = a;
  last_port = b;
  next_port = a + i;
  in_use = i;
}

allocate-used :
    (ip a b i : ℕ)
    → ip ≢ 0
    → b < 65536
    → a + i < b
    → allocate (used ip a b i) ≡ (some (a + i), used ip a b (i + 1))
unfolding allocate
allocate-used ip a b i h k l = ground arith

take_used :
    (n ip a b i : ℕ)
    → ip ≢ 0
    → b < 65536
    → a + i + n ≤ b
    → take_ports n (used ip a b i) ≡ (consecutive (a + i) n, used ip a b (i + n))
unfolding take_ports
take_used zero ip a b i h k l = ground arith
take_used (suc n) ip a b i h k l =
    rw (allocate-used ip a b i h k (omega arith), take_used n ip a b (i + 1) h k (omega arith))
      (ground arith)

allocate_full : (ip a b i : ℕ) → a + i ≡ b → allocate (used ip a b i) ≡ (none, used ip a b i)
unfolding allocate
allocate_full ip a b i h = ground arith

-- A fresh enabled pool over an ordered range of 16-bit ports hands out its ports in order and each
-- once, all but the last one of the range: the
-- call after `last_port - first_port` successes is refused.
pub take_ports-pool :
    (ip a b : ℕ)
    → ip ≢ 0
    → b < 65536
    → a ≤ b
    → ((take_ports (b - a) (pool ip a b)).0 ≡ consecutive a (b - a))
      × ((allocate (take_ports (b - a) (pool ip a b)).1).0 ≡ none)
take_ports-pool ip a b h k l =
    let fresh : pool ip a b ≡ used ip a b 0 = ground arith in
    rw (fresh, take_used (b - a) ip a b 0 h k (omega arith))
      (
        ground arith,
        ap (λ (r : Option ℕ × NatPool). r.0) (allocate_full ip a b (0 + (b - a)) (omega arith)),
      )
