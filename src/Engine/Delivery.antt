-- ===== src/Engine/Delivery.antt =====
-- The per-packet path of src/engine.cpp behind the lookup: what a packet does to its session.
use nano_ngfw.Prelude.{
  ℕ, ◌+◌, ◌%◌, ◌^◌, ◌≡◌, ◌⊎◌, inl, inr, refl, ap, subst, Bool, true, false, not, ◌&&◌, Option, none,
  some, arith, get_elem?, Bool-cases, Ensures, get_elem?-set_self, get_elem?-lt, set-set,
  if◌then◌else◌,
}
use nano_ngfw.ByteView.{ByteView, empty}
use nano_ngfw.Policy.{Policy, verdict_eq, evaluate}
use nano_ngfw.Flow.{PacketMeta, Session, is_closed, FlowTable, session_key, touched, touch, put}
use nano_ngfw.TcpState.{tcp_advance, udp_advance}
use nano_ngfw.AppId.{AppIdResult}
use nano_ngfw.AppId.Total.{classify-IsResult}
use nano_ngfw.Engine.{
  Engine, Counters, Segment, advanced, latched, reconsider, classify_and_maybe_shift, deliver,
  traffic,
}
use nano_ngfw.Engine.Counting.{Moves, recount-Moves, SameTotals, recount-SameTotals}

-- What no packet changes about a session: its name, initiator, responder and protocol, zones and translation, that it is
-- closed, and, once it is identified, its application, server name, rule and verdict.
pub record Evolves (s r : Session) : Type 0 where
  pub same_id : r.id ≡ s.id
  pub same_key : session_key r ≡ session_key s
  pub same_initiator : (r.init_ip ≡ s.init_ip) × (r.init_port ≡ s.init_port)
  pub same_responder : (r.resp_ip ≡ s.resp_ip) × (r.resp_port ≡ s.resp_port)
  pub same_proto : r.proto ≡ s.proto
  pub still_closed : (is_closed s.state ≡ false) ⊎ (is_closed r.state ≡ true)
  pub same_from : r.from_zone ≡ s.from_zone
  pub same_to : r.to_zone ≡ s.to_zone
  pub same_nat : (r.nat_applied ≡ s.nat_applied) × (r.nat_ip ≡ s.nat_ip) × (r.nat_port ≡ s.nat_port)
  pub identity :
      (s.app_latched ≡ false)
      ⊎ (r.app_latched ≡ true)
        × (r.app ≡ s.app)
        × (r.sni ≡ s.sni)
        × (r.verdict ≡ s.verdict)
        × (r.matched_rule ≡ s.matched_rule)

pub Evolves-trans : (s r q : Session) → Evolves s r → Evolves r q → Evolves s q
Evolves-trans s r q a b = ground arith

pub touched-Evolves : (s : Session) (m : PacketMeta) (d : Bool) → Evolves s (touched s m d)
unfolding touched
touched-Evolves s m d = ground arith

pub advanced-Evolves : (g : Segment) (d : Bool) (s : Session) → Evolves s (advanced g d s)
unfolding advanced tcp_advance udp_advance
advanced-Evolves g d s = ground arith

-- What a packet does to a session and to the counters.
abbrev pub Changes : Session → Counters → Session → Counters → Type 0
Changes s c r d = Evolves s r × Moves c d s.verdict r.verdict × SameTotals c d

latched-Evolves :
    (s q : Session) (r : AppIdResult)
    → s.app_latched ≡ false
    → latched s r ≡ some q
    → Evolves s q × (q.verdict ≡ s.verdict)
unfolding latched
latched-Evolves s q r u e = ground arith

-- The two branches of the App-ID shift, for whatever the second evaluation says.
reconsider-Changes :
    (p : Policy) (s q : Session) (c : Counters)
    → s.app_latched ≡ false
    → Evolves s q
    → q.verdict ≡ s.verdict
    → Changes s c (reconsider p q c).0 (reconsider p q c).1
unfolding reconsider
reconsider-Changes p s q c u v e =
    elim (Bool-cases (verdict_eq (evaluate p (traffic q q.resp_port q.app)).1 q.verdict)) [
      | inl same ↦ rw same (ground arith, ground arith, (refl, refl))
      | inr other ↦ rw other (
        ground arith,
        ground (
          arith,
          recount-Moves (record c { app_shifts = (c.app_shifts + 1) % 2 ^ 64 }) q.verdict
              (evaluate p (traffic q q.resp_port q.app)).1,
        ),
        recount-SameTotals (record c { app_shifts = (c.app_shifts + 1) % 2 ^ 64 }) q.verdict
            (evaluate p (traffic q q.resp_port q.app)).1,
      )
    ]

no_change : (s r : Session) (c : Counters) → Evolves s r → r.verdict ≡ s.verdict → Changes s c r c
no_change s r c v e = (v, ground arith, (refl, refl))

-- A session that is not identified yet is classified, and judged again once it is.
classify-Changes :
    (p : Policy) (s : Session) (c : Counters) (payload : ByteView) (dst_port : ℕ)
    → s.app_latched ≡ false
    → Ensures (λ r. Changes s c r.0 r.1) (classify_and_maybe_shift p s c payload dst_port)
unfolding classify_and_maybe_shift
classify-Changes p s c payload dst_port u =
    let (r, e, _) = classify-IsResult payload s.proto dst_port in
    rw e (_, refl, after r (latched seen r) refl)
  where
    seen : Session
    seen = record s { l7_bytes_seen = (s.l7_bytes_seen + payload.len) % 2 ^ 32 }

    after :
        (r : AppIdResult) (o : Option Session)
        → latched seen r ≡ o
        → let q : Session × Counters = elim o [ none ↦ (seen, c) | some s' ↦ reconsider p s' c ] in
          Changes s c q.0 q.1
    after r none e = no_change s seen c (ground arith) refl
    after r (some q) e =
        let (v, w) = latched-Evolves seen q r u e in
        reconsider-Changes p s q c u (Evolves-trans s seen q (ground arith) v) w

same_verdict :
    (g : Segment) (m : PacketMeta) (d : Bool) (s : Session)
    → (advanced g d (touched s m d)).verdict ≡ s.verdict
unfolding advanced tcp_advance udp_advance touched
same_verdict g m d s = ground arith

-- What deliver leaves of an engine: one session has changed, and nothing but it and the counters.
abbrev pub Delivered : Engine → ℕ → Session → Engine → Type 0
Delivered e id s e' =
    (r : Session) × (e'.flows ≡ put e.flows id r)
    × Changes s e.counters r e'.counters
    × (e'.nat ≡ e.nat)
    × (e'.policy ≡ e.policy)
    × (e'.midstream ≡ e.midstream)

put-put : (t : FlowTable) (id : ℕ) (s r : Session) → put (put t id s) id r ≡ put t id r
unfolding put
put-put t id s r = ap (λ ss. record t { sessions = ss }) (set-set t.sessions id s r)

got_put :
    (t : FlowTable) (id : ℕ) (s r : Session)
    → get_elem? t.sessions id ≡ some s
    → get_elem? (put t id r).sessions id ≡ some r
unfolding put
got_put t id s r h = get_elem?-set_self t.sessions id r (get_elem?-lt t.sessions id h)

-- A packet of a session in the vector is delivered without a fault: only that session and the counters
-- change, the session within what Evolves allows, and the verdict counters along with its verdict.
pub deliver-Delivered :
    (e : Engine) (g : Segment) (id : ℕ) (d : Bool) (s : Session)
    → get_elem? e.flows.sessions id ≡ some s
    → Ensures (Delivered e id s) (deliver e g id d)
unfolding deliver touch
deliver-Delivered e g id d s h =
    rw (h, got_put e.flows id s (touched s g.meta d) h)
      (elim (Bool-cases (not q.app_latched && not (empty g.payload))) [
        | inr done ↦ rw done (
          _,
          refl,
          (
            q,
            put-put e.flows id (touched s g.meta d) q,
            no_change s q e.counters v w,
            refl,
            refl,
            refl,
          ),
        )
        | inl more ↦
            let (r, x, c) =
              classify-Changes e.policy q e.counters g.payload
                (if d then q.resp_port else g.meta.dst_port) (ground arith) in
            rw (more, x)
              (
                _,
                refl,
                (
                  r.0,
                  put-put e.flows id (touched s g.meta d) r.0,
                  (
                    Evolves-trans s q r.0 v c.0,
                    subst (λ y. Moves e.counters r.1 y r.0.verdict) w c.1,
                    c.2,
                  ),
                  refl,
                  refl,
                  refl,
                ),
              )
      ])
  where
    q : Session
    q = advanced g d (touched s g.meta d)

    v : Evolves s q
    v =
        Evolves-trans s (touched s g.meta d) q (touched-Evolves s g.meta d)
          (advanced-Evolves g d (touched s g.meta d))

    w : q.verdict ≡ s.verdict
    w = same_verdict g g.meta d s
