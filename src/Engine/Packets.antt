-- ===== src/Engine/Packets.antt =====
-- The packets of a session in src/engine.cpp: Engine::classify_and_maybe_shift and the end of handle_l4.
use nano_ngfw.Prelude.{
  ℕ, ◌+◌, ◌%◌, ◌^◌, Bool, true, not, ◌&&◌, Option, none, some, ltb, if◌then◌else◌, ◌>>=◌, get_elem?,
  is_empty,
}
use nano_ngfw.ByteView.{ByteView, empty}
use nano_ngfw.Policy.{allow, verdict_eq, Policy, evaluate}
use nano_ngfw.Flow.{closed, Session, touch, put}
use nano_ngfw.TcpState.{tcp_advance, udp_advance}
use nano_ngfw.AppId.{AppIdResult, classify, unknown}
use nano_ngfw.Engine.State.{Counters, Engine, inc, max_l7_bytes, count_verdict, uncount_verdict}
use nano_ngfw.Engine.Births.{Segment, traffic}

-- The second half of classify_and_maybe_shift: the verdict, given what the application now is.
unfoldable pub reconsider : Policy → Session → Counters → Session × Counters
reconsider p s c =
    let r = evaluate p (traffic s s.resp_port s.app) in
    let s' = record s { matched_rule = r.0; verdict = r.1 } in
    if verdict_eq r.1 s.verdict then (s', c) else (
      record s' { app_shifted = true; state = if verdict_eq r.1 allow then s.state else closed },
      count_verdict (uncount_verdict (record c { app_shifts = inc c.app_shifts }) s.verdict) r.1,
    )

-- The first half: what the classifier's answer makes of the session, or nothing yet.
unfoldable pub latched : Session → AppIdResult → Option Session
latched s r =
    if is_empty r.application
    then (if not r.exhausted && ltb s.l7_bytes_seen max_l7_bytes
        then none
        else some (record s { app = unknown; app_latched = true }))
    else some (record s {
      app = r.application;
      sni = if is_empty r.sni then s.sni else r.sni;
      app_latched = true;
    })

unfoldable pub classify_and_maybe_shift :
    Policy → Session → Counters → ByteView → ℕ → Option (Session × Counters)
classify_and_maybe_shift p s c payload dst_port =
    let seen = record s { l7_bytes_seen = (s.l7_bytes_seen + payload.len) % 2 ^ 32 } in
    (classify payload s.proto dst_port) >>= λ r.
    some (elim (latched seen r) [ none ↦ (seen, c) | some s' ↦ reconsider p s' c ])

-- The state machine of the session's protocol.
unfoldable pub advanced : Segment → Bool → Session → Session
advanced g to_initiator s =
    if g.is_tcp then tcp_advance s g.tcp.flags to_initiator else udp_advance s

-- The rest of handle_l4, for a packet of the session `id`.
unfoldable pub deliver : Engine → Segment → ℕ → Bool → Option Engine
deliver e g id to_initiator = (touch e.flows id g.meta to_initiator) >>= λ flows.
    (get_elem? flows.sessions id) >>= λ touched.
    let s = advanced g to_initiator touched in
    if not s.app_latched && not (empty g.payload)
    then ((classify_and_maybe_shift e.policy s e.counters g.payload
          (if to_initiator then s.resp_port else g.meta.dst_port))
        >>= λ r. some (record e { flows = put flows id r.0; counters = r.1 }))
    else some (record e { flows = put flows id s })
