-- ===== src/Flow.antt =====
-- src/flow.h and src/flow.cpp: the conversation key, the session record, the idle timeouts and the
-- table of live conversations.
-- The std::unordered_map from keys to session ids is a list of pairs whose keys are distinct; its
-- order stands for the order of iteration, which the source leaves open. Sessions lie in a vector and
-- are named by their index. `none` is an access outside that vector. The 64-bit counters and 32-bit
-- ids wrap.
pub mod Sessions
pub mod Key
pub mod Index
pub mod Table
pub mod Aging
pub mod Retire
pub mod Answer
pub mod View
pub mod Hash
pub mod Order
pub mod Tests
unfoldable pub use Sessions.*
use nano_ngfw.Prelude.{
  ℕ, zero, suc, ◌+◌, ◌-◌, ◌*◌, ◌%◌, ◌^◌, Bool, true, false, not, ◌&&◌, ◌||◌, List, [], ◌∷◌, ◌++◌,
  Option, none, some, ltb, leb, ◌==◌, if◌then◌else◌, ◌>>=◌, length, get_elem?, set, Text, codes, ℤ,
}
use nano_ngfw.Policy.{Zone, Verdict, deny, default_deny}

abbrev pub Index : Type 0
Index = List (FiveTuple × ℕ)

pub record FlowTable : Type 0 where
  pub sessions : List Session
  pub by_key : Index

abbrev pub empty_table : FlowTable
empty_table = record { sessions = []; by_key = [] }

abbrev pub no_session : ℕ
no_session = 0xffffffff

abbrev pub meta_key : PacketMeta → FiveTuple
meta_key m = make m.src_ip m.src_port m.dst_ip m.dst_port m.proto

abbrev pub session_key : Session → FiveTuple
session_key s = make s.init_ip s.init_port s.resp_ip s.resp_port s.proto

-- by_key_.find(key)
unfoldable pub find : FiveTuple → Index → Option ℕ
find key [] = none
find key ((k, id) ∷ rest) = if key_eq k key then some id else find key rest

-- by_key_[key] = id
unfoldable pub assign : FiveTuple → ℕ → Index → Index
assign key id [] = (key, id) ∷ []
assign key id ((k, i) ∷ rest) = if key_eq k key then (k, id) ∷ rest else (k, i) ∷ assign key id rest

-- FlowTable::lookup: the id, and whether the packet flows to the initiator.
unfoldable pub lookup : FlowTable → PacketMeta → Option (ℕ × Bool)
lookup t m = elim (find (meta_key m) t.by_key) [
  | none ↦ some (no_session, false)
  | some id ↦ do
    s ← get_elem? t.sessions id
    some (id, m.dst_ip == s.init_ip && m.dst_port == s.init_port)
]

-- The session that FlowTable::create pushes.
abbrev pub fresh : PacketMeta → ℕ → Session
fresh m id = record {
  id = id;
  init_ip = m.src_ip;
  resp_ip = m.dst_ip;
  init_port = m.src_port;
  resp_port = m.dst_port;
  proto = m.proto;
  state = new;
  fin_from_initiator = false;
  first_seen_us = m.ts_us;
  last_seen_us = m.ts_us;
  from_zone = Zone.any;
  to_zone = Zone.any;
  matched_rule = default_deny;
  verdict = deny;
  app = [];
  app_latched = false;
  l7_bytes_seen = 0;
  sni = [];
  app_shifted = false;
  nat_applied = false;
  nat_ip = 0;
  nat_port = 0;
  pkts_c2s = 0;
  pkts_s2c = 0;
  bytes_c2s = 0;
  bytes_s2c = 0;
}

-- FlowTable::create: the new id and the table.
unfoldable pub create : FlowTable → PacketMeta → ℕ × FlowTable
create t m =
    let id = length t.sessions % 2 ^ 32 in
    (
      id,
      record { sessions = t.sessions ++ fresh m id ∷ []; by_key = assign (meta_key m) id t.by_key },
    )

-- What FlowTable::touch does to the session.
unfoldable pub touched : Session → PacketMeta → Bool → Session
touched s m to_initiator =
    if to_initiator
    then record s {
      last_seen_us = m.ts_us;
      pkts_s2c = (s.pkts_s2c + 1) % 2 ^ 64;
      bytes_s2c = (s.bytes_s2c + m.bytes) % 2 ^ 64;
    }
    else record s {
      last_seen_us = m.ts_us;
      pkts_c2s = (s.pkts_c2s + 1) % 2 ^ 64;
      bytes_c2s = (s.bytes_c2s + m.bytes) % 2 ^ 64;
    }

-- A write through the reference that get(id) returns.
unfoldable pub put : FlowTable → ℕ → Session → FlowTable
put t id s = record t { sessions = set t.sessions id s }

unfoldable pub touch : FlowTable → ℕ → PacketMeta → Bool → Option FlowTable
touch t id m to_initiator = do
  s ← get_elem? t.sessions id
  some (put t id (touched s m to_initiator))

-- Is the session to be retired by a sweep at `now_us`?
unfoldable pub expired : ℕ → Timeouts → Session → Bool
expired now_us t s =
    let idle = if leb s.last_seen_us now_us then now_us - s.last_seen_us else 0 in
    is_closed s.state || ltb (for_session t s) idle

-- What a sweep leaves behind, with the number of sessions that it retired.
pub record Swept : Type 0 where
  pub kept : Index
  pub sessions : List Session
  pub retired : ℕ

-- The loop of FlowTable::age_out over the entries that are left.
unfoldable pub sweep : Index → List Session → ℕ → Timeouts → Option Swept
sweep [] sessions now_us t = some (record { kept = []; sessions = sessions; retired = 0 })
sweep ((k, id) ∷ rest) sessions now_us t = do
  s ← get_elem? sessions id
  let gone = expired now_us t s
  swept ←
      sweep rest (if gone then set sessions id (record s { state = closed }) else sessions) now_us t
  some (
      if gone
      then record swept { retired = swept.retired + 1 }
      else record swept { kept = (k, id) ∷ swept.kept })

unfoldable pub age_out : FlowTable → ℕ → Timeouts → Option (FlowTable × ℕ)
age_out f now_us t = do
  swept ← sweep f.by_key f.sessions now_us t
  some (record { sessions = swept.sessions; by_key = swept.kept }, swept.retired)

abbrev pub active : FlowTable → ℕ
active t = length t.by_key
