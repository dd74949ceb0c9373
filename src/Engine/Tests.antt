-- ===== src/Engine/Tests.antt =====
-- The engine of src/engine.cpp on a table with one session.
use nano_ngfw.Prelude.{
  ◌≡◌, ◌⊎◌, refl, true, false, some, none, get_elem?, length, ◌<◌, arith, Ensures,
}
use nano_ngfw.ByteView.{empty_view}
use nano_ngfw.Decode.{no_tcp, pure_syn}
use nano_ngfw.Decode.Tests.{syn_frame}
use nano_ngfw.Policy.Tests.{sample_policy}
use nano_ngfw.Flow.{Session, fresh, create, default_timeouts, find, meta_key, assign, make}
use nano_ngfw.Flow.Tests.{asking, one_session, one_session-IsTable}
use nano_ngfw.Nat.{pool}
use nano_ngfw.Nat.Ports.{pool-IsPool}
use nano_ngfw.Engine.{Engine, Counters, Segment, process, track, open_session}
use nano_ngfw.Engine.Opening.{Opened, open_session-Opened}
use nano_ngfw.Engine.Delivery.{Evolves}
use nano_ngfw.Engine.Invariant.{IsEngine}
use nano_ngfw.Engine.Pipeline.{process-IsEngine, process-Evolves}
use nano_ngfw.Flow.View.{view}
use nano_ngfw.Engine.Isolation.{Moved}
use nano_ngfw.Engine.Isolation.Frames.{frame_key, swept_view, process-Isolated}
use nano_ngfw.Engine.Stateful.{NothingOpened, strict-NothingOpened}

abbrev counters : Counters
counters = record {
  packets = 1;
  ipv4 = 1;
  arp = 0;
  ipv6 = 0;
  vlan = 0;
  other_l3 = 0;
  short_headers = 0;
  bad_versions = 0;
  bad_ihls = 0;
  bad_lengths = 0;
  bad_checksum = 0;
  fragments = 0;
  other_l4 = 0;
  sessions_created = 1;
  sessions_retired = 0;
  allowed = 0;
  denied = 1;
  dropped = 0;
  app_shifts = 0;
  out_of_state = 0;
}

-- The session's verdict is still the one that it was born with.
abbrev pub engine : Engine
engine = record {
  flows = one_session;
  policy = sample_policy;
  nat = pool 0xc6336401 40000 40002;
  counters = counters;
  timeouts = default_timeouts;
  midstream = false;
}

abbrev pub first : Session
first = fresh asking 0

pub get_first : get_elem? one_session.sessions 0 ≡ some first
unfolding create
get_first = refl

pub engine-IsEngine : IsEngine engine
unfolding create assign
engine-IsEngine = record {
  table = one_session-IsTable;
  nat = pool-IsPool 0xc6336401 40000 40002 (omega arith) (omega arith);
  counted = record { allows = refl; denies = refl; drops = refl };
  created = refl;
  retired = refl;
}

few : length engine.flows.sessions < 0xffffffff
unfolding create
few = omega arith

process-IsEngine_example : Ensures IsEngine (process engine syn_frame 2000)
process-IsEngine_example = process-IsEngine engine syn_frame 2000 engine-IsEngine few

-- The engine that the example above leaves, without its proof.
abbrev second_frame : Ensures IsEngine (process engine syn_frame 2000)
second_frame = process-IsEngine engine syn_frame 2000 engine-IsEngine few

process-Evolves_example :
    Ensures
      (λ e'. Ensures (Evolves first) (get_elem? e'.flows.sessions 0))
      (process engine syn_frame 2000)
process-Evolves_example =
    process-Evolves engine syn_frame 2000 0 first engine-IsEngine few get_first

-- An ACK out of the blue.
abbrev ack : Segment
ack = record {
  meta = record asking { src_port = 999 };
  is_tcp = true;
  tcp = record no_tcp { flags = 0x10 };
  payload = empty_view;
}

not_syn : pure_syn ack.tcp ≡ false
unfolding pure_syn
not_syn = refl

strict-NothingOpened_example : Ensures (NothingOpened engine) (track engine ack)
strict-NothingOpened_example =
    strict-NothingOpened engine ack one_session-IsTable few refl refl not_syn

nothing_found : find (meta_key ack.meta) one_session.by_key ≡ none
unfolding create find assign make
nothing_found = refl

open_session-Opened_example : Ensures (Opened engine ack.meta) (open_session engine ack.meta)
open_session-Opened_example =
    open_session-Opened engine ack.meta one_session-IsTable engine-IsEngine.nat
      engine-IsEngine.counted few nothing_found

-- What the frame leaves of the session, which is of another conversation or of its own.
process-Isolated_example :
    (frame_key syn_frame ≡ some (meta_key asking))
      × Moved
          (swept_view engine 2000 (meta_key asking))
          (view second_frame.0.flows (meta_key asking))
    ⊎ (view second_frame.0.flows (meta_key asking) ≡ swept_view engine 2000 (meta_key asking))
process-Isolated_example =
    process-Isolated engine second_frame.0 syn_frame 2000 (meta_key asking) engine-IsEngine few
      second_frame.1
