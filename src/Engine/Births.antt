-- ===== src/Engine/Births.antt =====
-- Engine::handle_l4 of src/engine.cpp up to the birth of a session.
use nano_ngfw.Prelude.{
  ℕ, Bool, true, false, ◌&&◌, [], Option, none, some, ◌==◌, if◌then◌else◌, ◌>>=◌, get_elem?, Text,
}
use nano_ngfw.ByteView.{ByteView, empty_view}
use nano_ngfw.Decode.{
  DecodeStatus, ok, Ipv4Header, TcpHeader, no_tcp, no_udp, decode_tcp, decode_udp,
}
use nano_ngfw.Policy.{Zone, allow, zone_eq, verdict_eq, Policy, zone_for, Traffic, evaluate}
use nano_ngfw.Flow.{PacketMeta, Session, create, put}
use nano_ngfw.Nat.{NatPool, enabled, allocate}
use nano_ngfw.Engine.State.{Engine, inc, count_verdict}

-- What handle_l4 knows of a packet behind its L4 decoder.
pub record Segment : Type 0 where
  pub meta : PacketMeta
  pub is_tcp : Bool
  pub tcp : TcpHeader
  pub payload : ByteView

pub data L4 : Type 0 where
  failed : DecodeStatus → L4
  untracked : L4
  segment : Segment → L4

abbrev pub is_ok : DecodeStatus → Bool
is_ok ok = true
is_ok _ = false

abbrev pub meta_of : Ipv4Header → ℕ → ℕ → ℕ → ℕ → PacketMeta
meta_of ip src_port dst_port ts_us frame_bytes = record {
  src_ip = ip.src;
  dst_ip = ip.dst;
  src_port = src_port;
  dst_port = dst_port;
  proto = ip.protocol;
  ts_us = ts_us;
  bytes = frame_bytes;
}

-- The switch of handle_l4 on the IP protocol.
unfoldable pub read_l4 : Ipv4Header → ByteView → ℕ → ℕ → Option L4
read_l4 ip l4 ts_us frame_bytes =
    if ip.protocol == 6
    then ((decode_tcp l4 no_tcp empty_view) >>= λ d. some (
        if is_ok d.status
        then segment (record {
          meta = meta_of ip d.out.src_port d.out.dst_port ts_us frame_bytes;
          is_tcp = true;
          tcp = d.out;
          payload = d.payload;
        })
        else failed d.status))
    else if ip.protocol == 17
    then ((decode_udp l4 no_udp empty_view) >>= λ d. some (
        if is_ok d.status
        then segment (record {
          meta = meta_of ip d.out.src_port d.out.dst_port ts_us frame_bytes;
          is_tcp = false;
          tcp = no_tcp;
          payload = d.payload;
        })
        else failed d.status))
    else some untracked

abbrev pub traffic : Session → ℕ → Text → Traffic
traffic s dst_port app = record {
  source = s.from_zone;
  target = s.to_zone;
  proto = s.proto;
  dst_port = dst_port;
  app = app;
}

-- Zones, rule and verdict of a session that was just created.
unfoldable pub judged : Policy → PacketMeta → Session → Session
judged p m s =
    let z = record s { from_zone = zone_for p m.src_ip; to_zone = zone_for p m.dst_ip } in
    let r = evaluate p (traffic z m.dst_port []) in record z { matched_rule = r.0; verdict = r.1 }

-- NAT for a session that was allowed out.
unfoldable pub translated : NatPool → Session → NatPool × Session
translated nat s =
    if verdict_eq s.verdict allow
      && enabled nat
      && zone_eq s.from_zone Zone.trust
      && zone_eq s.to_zone Zone.untrust
    then elim (allocate nat).0 [
      | none ↦ ((allocate nat).1, s)
      | some port ↦ (
        (allocate nat).1,
        record s { nat_applied = true; nat_ip = nat.public_ip; nat_port = port },
      )
    ]
    else (nat, s)

-- The block of handle_l4 that bears a session: the new id and the engine.
unfoldable pub open_session : Engine → PacketMeta → Option (ℕ × Engine)
open_session e m =
    let (id, flows) = create e.flows m in
    (get_elem? flows.sessions id) >>= λ s.
    let s' = judged e.policy m s in
    let (nat, s'') = translated e.nat s' in
    some (
      id,
      record e {
        flows = put flows id s'';
        nat = nat;
        counters =
            count_verdict
              (record (e.counters) { sessions_created = inc e.counters.sessions_created })
              s'.verdict;
      },
    )
