-- ===== src/Nat/Tests.antt =====
-- Concrete pools for src/nat.cpp.
use nano_ngfw.Prelude.{◌≡◌, refl, [], ◌∷◌, none, some, arith}
use nano_ngfw.Nat.{NatPool, pool, allocate}
use nano_ngfw.Nat.Ports.{take_ports, consecutive, take_ports-pool}

-- A pool that holds three ports lends two of them.
abbrev three : NatPool
three = pool 0xc6336401 40000 40002

two_out : (take_ports 3 three).0 ≡ some 40000 ∷ some 40001 ∷ none ∷ []
unfolding take_ports allocate
two_out = refl

take_ports-pool_example :
    ((take_ports 2 three).0 ≡ consecutive 40000 2) × ((allocate (take_ports 2 three).1).0 ≡ none)
take_ports-pool_example =
    take_ports-pool 0xc6336401 40000 40002 (λ e. omega arith) (omega arith) (omega arith)
