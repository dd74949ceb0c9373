-- ===== src/Capture.antt =====
-- The part of src/main.cpp that feeds a capture to the engine: the engine as main sets it up, and the
-- loop over the frames of the capture reader.
pub mod Whole
pub mod Replay
pub mod Idle
pub mod Tests
use nano_ngfw.Prelude.{ℕ, zero, suc, Bool, List, [], ◌∷◌, Option, none, some, ◌>>=◌}
use nano_ngfw.Pcap.{PcapReader, next}
use nano_ngfw.ByteView.{ByteView}
use nano_ngfw.Policy.{Policy}
use nano_ngfw.Flow.{Timeouts, empty_table}
use nano_ngfw.Nat.{NatPool}
use nano_ngfw.Engine.{Counters, Engine, process, finish}

abbrev pub no_counters : Counters
no_counters = record {
  packets = 0;
  ipv4 = 0;
  arp = 0;
  ipv6 = 0;
  vlan = 0;
  other_l3 = 0;
  short_headers = 0;
  bad_versions = 0;
  bad_ihls = 0;
  bad_lengths = 0;
  bad_checksum = 0;
  fragments = 0;
  other_l4 = 0;
  sessions_created = 0;
  sessions_retired = 0;
  allowed = 0;
  denied = 0;
  dropped = 0;
  app_shifts = 0;
  out_of_state = 0;
}

-- Engine() after set_nat, set_timeouts and set_midstream.
abbrev pub start : Policy → NatPool → Timeouts → Bool → Engine
start policy nat timeouts midstream = record {
  flows = empty_table;
  policy = policy;
  nat = nat;
  counters = no_counters;
  timeouts = timeouts;
  midstream = midstream;
}

-- The calls that the loop makes if the reader delivers these frames.
unfoldable pub process_all : Engine → List (ByteView × ℕ) → ℕ → Option Engine
process_all e [] last = finish e last
process_all e ((frame, ts) ∷ rest) last = (process e frame ts) >>= λ e'. process_all e' rest ts

-- A round of the loop, with what the reader gave for it.
unfoldable pub replay_round :
    (PcapReader → Engine → ℕ → Option (Engine × PcapReader))
    → PcapReader × Option (ByteView × ℕ)
    → Engine
    → ℕ
    → Option (Engine × PcapReader)
replay_round again (r, none) e last = (finish e last) >>= λ e'. some (e', r)
replay_round again (r, some (frame, ts)) e last = (process e frame ts) >>= λ e'. again r e' ts

-- `while (reader.next(frame, ts)) { ... } engine.finish(last);` on fuel.
unfoldable pub replay : ℕ → PcapReader → Engine → ℕ → Option (Engine × PcapReader)
replay zero r e last = none
replay (suc fuel) r e last = replay_round (replay fuel) (next r) e last
