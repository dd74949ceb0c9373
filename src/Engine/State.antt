-- ===== src/Engine/State.antt =====
-- The members of Engine in src/engine.h, its counters, and the sweeps of src/engine.cpp.
use nano_ngfw.Prelude.{ℕ, ◌+◌, ◌-◌, ◌%◌, ◌^◌, Bool, Option, some, ◌==◌, if◌then◌else◌, ◌>>=◌}
use nano_ngfw.Decode.{DecodeStatus, ok, short_header, bad_version, bad_ihl, bad_length}
use nano_ngfw.Policy.{Verdict, allow, deny, drop, Policy}
use nano_ngfw.Flow.{Timeouts, FlowTable, age_out}
use nano_ngfw.Nat.{NatPool}

pub record Counters : Type 0 where
  pub packets : ℕ
  pub ipv4 : ℕ
  pub arp : ℕ
  pub ipv6 : ℕ
  pub vlan : ℕ
  pub other_l3 : ℕ
  pub short_headers : ℕ
  pub bad_versions : ℕ
  pub bad_ihls : ℕ
  pub bad_lengths : ℕ
  pub bad_checksum : ℕ
  pub fragments : ℕ
  pub other_l4 : ℕ
  pub sessions_created : ℕ
  pub sessions_retired : ℕ
  pub allowed : ℕ
  pub denied : ℕ
  pub dropped : ℕ
  pub app_shifts : ℕ
  pub out_of_state : ℕ

abbrev pub malformed : Counters → ℕ
malformed c = (c.short_headers + c.bad_versions + c.bad_ihls + c.bad_lengths) % 2 ^ 64

pub record Engine : Type 0 where
  pub flows : FlowTable
  pub policy : Policy
  pub nat : NatPool
  pub counters : Counters
  pub timeouts : Timeouts
  pub midstream : Bool

-- `++` and `--` on a uint64_t.
abbrev pub inc : ℕ → ℕ
inc x = (x + 1) % 2 ^ 64

abbrev pub dec : ℕ → ℕ
dec x = (x + (2 ^ 64 - 1)) % 2 ^ 64

abbrev pub max_l7_bytes : ℕ
max_l7_bytes = 4096

abbrev pub sweep_interval : ℕ
sweep_interval = 128

unfoldable pub count_decode_failure : Counters → DecodeStatus → Counters
count_decode_failure c ok = c
count_decode_failure c short_header = record c { short_headers = inc c.short_headers }
count_decode_failure c bad_version = record c { bad_versions = inc c.bad_versions }
count_decode_failure c bad_ihl = record c { bad_ihls = inc c.bad_ihls }
count_decode_failure c bad_length = record c { bad_lengths = inc c.bad_lengths }

-- `counters_.sessions_retired += flows_.age_out(now_us, timeouts_)`, the body of Engine::finish.
unfoldable pub finish : Engine → ℕ → Option Engine
finish e now_us = (age_out e.flows now_us e.timeouts) >>= λ r. some (record e {
  flows = r.0;
  counters = record (e.counters) {
    sessions_retired = (e.counters.sessions_retired + r.1) % 2 ^ 64;
  };
})

unfoldable pub maybe_sweep : Engine → ℕ → Option Engine
maybe_sweep e now_us = if e.counters.packets % sweep_interval == 0 then finish e now_us else some e

-- The switches that count a session under its verdict, and take it out again.
unfoldable pub count_verdict : Counters → Verdict → Counters
count_verdict c allow = record c { allowed = inc c.allowed }
count_verdict c deny = record c { denied = inc c.denied }
count_verdict c drop = record c { dropped = inc c.dropped }

unfoldable pub uncount_verdict : Counters → Verdict → Counters
uncount_verdict c allow = record c { allowed = dec c.allowed }
uncount_verdict c deny = record c { denied = dec c.denied }
uncount_verdict c drop = record c { dropped = dec c.dropped }
