-- ===== src/Flow/Tests.antt =====
-- A table with one session, for src/flow.cpp.
use nano_ngfw.Prelude.{
  ◌<◌, ◌≡◌, ◌⊎◌, ◌↔◌, refl, [], ◌∷◌, some, none, Ensures, length, get_elem?, arith,
}
use nano_ngfw.Flow.{
  PacketMeta, FlowTable, default_timeouts, empty_table, meta_key, fresh, create, lookup, make, find,
  assign, age_out, sweep, expired, for_session,
}
use nano_ngfw.Flow.Table.{IsTable, create-IsTable}
use nano_ngfw.Flow.Key.{SameWay, OtherWay, meta_key_iff}
use nano_ngfw.Flow.Aging.{retire}
use nano_ngfw.Flow.View.{view, unexpired, view-age_out}
use mathlib.Core.List.Perm
use nano_ngfw.Flow.Order.Tables.{Reordered, tables-Reordered}
use nano_ngfw.Flow.Retire.{Effect, age_out-Effect}

abbrev pub asking : PacketMeta
asking = record {
  src_ip = 0xc0a8010a;
  dst_ip = 0x08080808;
  src_port = 1234;
  dst_port = 443;
  proto = 6;
  ts_us = 1000;
  bytes = 54;
}

abbrev answering : PacketMeta
answering = record {
  src_ip = 0x08080808;
  dst_ip = 0xc0a8010a;
  src_port = 443;
  dst_port = 1234;
  proto = 6;
  ts_us = 2000;
  bytes = 54;
}

abbrev pub one_session : FlowTable
one_session = (create empty_table asking).1

pub one_session-IsTable : IsTable one_session
unfolding find
one_session-IsTable =
    create-IsTable empty_table asking
      (record { indexed = tt; distinct = tt; numbered = tt; live = tt }) refl (omega arith)

abbrev emptied : FlowTable
emptied = record { sessions = retire (fresh asking 0) ∷ []; by_key = [] }

-- Ten seconds are more than a session without a handshake may idle.
swept : age_out one_session 10000000 default_timeouts ≡ some (emptied, 1)
unfolding age_out sweep create assign make expired for_session
swept = refl

meta_key_iff_example :
    (meta_key answering ≡ meta_key asking)
    ↔ ((answering.proto ≡ asking.proto) × (SameWay answering asking ⊎ OtherWay answering asking))
meta_key_iff_example = meta_key_iff answering asking

at_zero : get_elem? one_session.sessions 0 ≡ some (fresh asking 0)
unfolding create
at_zero = refl

age_out-Effect_example : Effect one_session 10000000 default_timeouts 0 (fresh asking 0) emptied
age_out-Effect_example =
    age_out-Effect one_session emptied 10000000 1 default_timeouts 0 (fresh asking 0)
      one_session-IsTable swept at_zero

view-age_out_example :
    view emptied ≡ (λ key. unexpired 10000000 default_timeouts (view one_session key))
view-age_out_example =
    view-age_out one_session emptied 10000000 1 default_timeouts one_session-IsTable swept

-- A second conversation, and the same table with its index the other way round.
abbrev two_sessions : FlowTable
two_sessions = (create one_session (record asking { src_port = 999 })).1

abbrev turned : FlowTable
turned = record {
  sessions = fresh asking 0 ∷ fresh (record asking { src_port = 999 }) 1 ∷ [];
  by_key = (meta_key (record asking { src_port = 999 }), 1) ∷ (meta_key asking, 0) ∷ [];
}

unknown_key : find (meta_key (record asking { src_port = 999 })) one_session.by_key ≡ none
unfolding create assign make find
unknown_key = refl

room : length one_session.sessions < 0xffffffff
unfolding create
room = omega arith

two_sessions-IsTable : IsTable two_sessions
two_sessions-IsTable =
    create-IsTable one_session (record asking { src_port = 999 }) one_session-IsTable unknown_key
      room

turned-Reordered : Reordered two_sessions turned
unfolding create assign make
turned-Reordered = (refl, Perm.swap _ _ [])

tables-Reordered_example :
    IsTable turned
    × (lookup two_sessions answering ≡ lookup turned answering)
    × ((create two_sessions answering).0 ≡ (create turned answering).0)
    × Reordered (create two_sessions answering).1 (create turned answering).1
    × Ensures
        (λ a.
          Ensures (λ b. Reordered a.0 b.0 × (a.1 ≡ b.1)) (age_out turned 10000000 default_timeouts))
        (age_out two_sessions 10000000 default_timeouts)
tables-Reordered_example =
    tables-Reordered two_sessions turned answering 10000000 default_timeouts turned-Reordered
      two_sessions-IsTable
