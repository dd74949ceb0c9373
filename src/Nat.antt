-- ===== src/Nat.antt =====
-- src/nat.h and src/nat.cpp: the pool of translated source ports. `uint16_t` fields wrap.
pub mod Ports
pub mod Tests
use nano_ngfw.Prelude.{
  ℕ, ◌+◌, ◌-◌, ◌%◌, ◌^◌, Bool, true, false, not, Option, none, some, ltb, leb, ◌==◌, if◌then◌else◌,
}

pub record NatPool : Type 0 where
  pub public_ip : ℕ
  pub first_port : ℕ
  pub last_port : ℕ
  pub next_port : ℕ
  pub in_use : ℕ

-- NatPool(): disabled.
abbrev pub no_pool : NatPool
no_pool = record { public_ip = 0; first_port = 0; last_port = 0; next_port = 0; in_use = 0 }

-- NatPool(public_ip, first_port, last_port).
abbrev pub pool : ℕ → ℕ → ℕ → NatPool
pool public_ip first_port last_port = record {
  public_ip = public_ip;
  first_port = first_port;
  last_port = last_port;
  next_port = first_port;
  in_use = 0;
}

abbrev pub enabled : NatPool → Bool
enabled p = not (p.public_ip == 0)

-- `in_use_ >= last_port_ - first_port_`, an `int` that is negative if the ports are reversed.
abbrev pub is_drained : NatPool → Bool
is_drained p = leb p.last_port (p.in_use + p.first_port)

-- NatPool::allocate: the port, unless it returns false, and the pool.
unfoldable pub allocate : NatPool → Option ℕ × NatPool
allocate p = if not (enabled p) then (none, p) else if is_drained p then (none, p) else (
  some p.next_port,
  record p {
    next_port = if leb p.last_port p.next_port then p.first_port else (p.next_port + 1) % 2 ^ 16;
    in_use = (p.in_use + 1) % 2 ^ 16;
  },
)

-- NatPool::release, which does not look at the port.
unfoldable pub release : NatPool → ℕ → NatPool
release p port = if ltb 0 p.in_use then record p { in_use = p.in_use - 1 } else p
