-- ===== src/Engine.antt =====
-- src/engine.h and src/engine.cpp: the pipeline from a frame through the decoders, the flow table,
-- policy, NAT and App-ID. The 64-bit counters wrap. `none` is an aborted NANO_ASSERT or an access
-- outside the session vector.
pub mod State
pub mod Births
pub mod Packets
pub mod Counting
pub mod Opening
pub mod Delivery
pub mod Invariant
pub mod Sweeping
pub mod Carried
pub mod Pipeline
pub mod Isolation
pub mod Accounting
pub mod Steady
pub mod Translation
pub mod Rules
pub mod Stateful
pub mod Tests
unfoldable pub use State.*
unfoldable pub use Births.*
unfoldable pub use Packets.*
use nano_ngfw.Prelude.{
  ℕ, ◌+◌, ◌-◌, ◌%◌, ◌^◌, Bool, true, false, not, ◌&&◌, ◌||◌, List, [], ◌∷◌, Option, none, some, ltb,
  ◌==◌, if◌then◌else◌, ◌>>=◌, get_elem?, Text, is_empty,
}
use nano_ngfw.ByteView.{ByteView, empty_view, empty}
use nano_ngfw.Decode.{
  DecodeStatus, ok, short_header, bad_version, bad_ihl, bad_length, Ipv4Header, TcpHeader,
  UdpHeader, no_eth, no_ipv4, no_tcp, no_udp, pure_syn, later_fragment, decode_eth, decode_ipv4,
  decode_tcp, decode_udp,
}
use nano_ngfw.Policy.{
  Zone, Verdict, allow, deny, drop, zone_eq, verdict_eq, Policy, zone_for, Traffic, evaluate,
}
use nano_ngfw.Flow.{
  PacketMeta, SessionState, closed, Session, Timeouts, FlowTable, no_session, lookup, create, touch,
  put, age_out,
}
use nano_ngfw.TcpState.{tcp_advance, udp_advance}
use nano_ngfw.Nat.{NatPool, enabled, allocate}
use nano_ngfw.AppId.{AppIdResult, classify, unknown}

abbrev pub may_open : Engine → Segment → Bool
may_open e g = if g.is_tcp then pure_syn g.tcp || e.midstream else true

-- handle_l4 from the lookup on.
unfoldable pub track : Engine → Segment → Option Engine
track e g = (lookup e.flows g.meta) >>= λ found.
    if found.0 == no_session
    then (if may_open e g
        then ((open_session e g.meta) >>= λ r. deliver r.1 g r.0 false)
        else some (record e {
          counters = record (e.counters) { out_of_state = inc e.counters.out_of_state };
        }))
    else deliver e g found.0 found.1

unfoldable pub handle_l4 : Engine → Ipv4Header → ByteView → ℕ → ℕ → Option Engine
handle_l4 e ip l4 ts_us frame_bytes = (read_l4 ip l4 ts_us frame_bytes) >>= λ r. elim r [
  | failed st ↦ some (record e { counters = count_decode_failure (e.counters) st })
  | untracked ↦
      some (record e { counters = record (e.counters) { other_l4 = inc e.counters.other_l4 } })
  | segment g ↦ track e g
]

-- Engine::process from decode_ipv4 on.
unfoldable pub process_ipv4 : Engine → ByteView → ℕ → ℕ → Option Engine
process_ipv4 e l3 ts_us frame_bytes = (decode_ipv4 l3 no_ipv4 empty_view) >>= λ d.
    if not (is_ok d.status)
    then some (record e { counters = count_decode_failure (e.counters) d.status })
    else let e' = record e {
      counters =
          if d.out.checksum_ok
          then e.counters
          else record (e.counters) { bad_checksum = inc e.counters.bad_checksum };
    } in
      if later_fragment d.out
      then some
          (record e' { counters = record (e'.counters) { fragments = inc e'.counters.fragments } })
      else handle_l4 e' d.out d.payload ts_us frame_bytes

-- The switch of Engine::process on the EtherType.
unfoldable pub process_l3 : Engine → ℕ → ByteView → ℕ → ℕ → Option Engine
process_l3 e ethertype l3 ts_us frame_bytes =
    if ethertype == 0x0800
    then process_ipv4 (record e { counters = record c { ipv4 = inc c.ipv4 } }) l3 ts_us frame_bytes
    else some (record e {
      counters =
          if ethertype == 0x0806
          then record c { arp = inc c.arp }
          else if ethertype == 0x86DD
          then record c { ipv6 = inc c.ipv6 }
          else if ethertype == 0x8100
          then record c { vlan = inc c.vlan }
          else record c { other_l3 = inc c.other_l3 };
    })
  where
    open e use {counters as c}

unfoldable pub process : Engine → ByteView → ℕ → Option Engine
process e frame ts_us =
    (maybe_sweep (record e { counters = record (e.counters) { packets = inc e.counters.packets } })
      ts_us)
    >>= λ e'. (decode_eth frame no_eth empty_view) >>= λ d.
        if not (is_ok d.status)
        then some (record e' { counters = count_decode_failure (e'.counters) d.status })
        else process_l3 e' d.out.ethertype d.payload ts_us (frame.len % 2 ^ 32)
