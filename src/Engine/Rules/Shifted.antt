-- ===== src/Engine/Rules/Shifted.antt =====
-- Engine::classify_and_maybe_shift of src/engine.cpp, and what the rule base says of the session.
use nano_ngfw.Prelude.{
  ℕ, ◌+◌, ◌%◌, ◌^◌, ◌≡◌, ◌⊎◌, ◌∙◌, inl, inr, refl, sym, ap, true, false, [], Option, none, some,
  arith, Bool-cases, subst, ◌&&◌, not, ltb, if◌then◌else◌, some-inj, Text, IfReturns,
  IfReturns-some, is_empty,
}
use nano_ngfw.ByteView.{ByteView}
use nano_ngfw.Policy.{Policy, zone_for, evaluate, verdict_eq}
use nano_ngfw.Flow.{Session}
use nano_ngfw.AppId.{AppIdResult, ssl}
use nano_ngfw.AppId.Sni.Walk.{Printable}
use nano_ngfw.AppId.Total.{IsResult, classify-IsResult}
use nano_ngfw.Engine.{Counters, traffic, latched, reconsider, classify_and_maybe_shift}
use nano_ngfw.Engine.Rules.{IsRuled, Application, Identified, Keeps-IsRuled}

-- What latched makes of a session that is not identified yet.
record Latches (s q : Session) : Type 0 where
  ends : (q.init_ip ≡ s.init_ip) × (q.resp_ip ≡ s.resp_ip)
  zones : (q.from_zone ≡ s.from_zone) × (q.to_zone ≡ s.to_zone)
  nat : q.nat_applied ≡ s.nat_applied
  unshifted : q.app_shifted ≡ false
  names : (q.app_latched ≡ true) × Application q.app
  server : Printable q.sni × ((q.sni ≡ []) ⊎ (q.app ≡ ssl))

unidentified :
    (s : Session) → Identified s → s.app_latched ≡ false → (s.sni ≡ []) × (s.app_shifted ≡ false)
unidentified s h u = ground arith

named_lem :
    (payload : ByteView) (r : AppIdResult)
    → IsResult payload r
    → is_empty r.application ≡ false
    → Application r.application
named_lem payload r h e = ground arith

server_lem :
    (payload : ByteView) (r : AppIdResult) (old : Text)
    → IsResult payload r
    → old ≡ []
    → let sni = if is_empty r.sni then old else r.sni in
      Printable sni × ((sni ≡ []) ⊎ (r.application ≡ ssl))
server_lem payload r old (a, b, _) q = elim (Bool-cases (is_empty r.sni)) [
  | inl e ↦ rw (e, q) (tt, inl refl)
  | inr e ↦ rw e (a, ground arith)
]

latched-Latches :
    (p : Policy) (s q : Session) (payload : ByteView) (r : AppIdResult)
    → IsRuled p s
    → s.app_latched ≡ false
    → IsResult payload r
    → latched s r ≡ some q
    → Latches s q
unfolding latched
latched-Latches p s q payload r v u h e = elim (Bool-cases (is_empty r.application)) [
  | inr named ↦
      let e' = rw named at e in
      subst (Latches s) (some-inj e') (record {
        ends = (refl, refl);
        zones = (refl, refl);
        nat = refl;
        unshifted = clean.1;
        names = (refl, named_lem payload r h named);
        server = server_lem payload r s.sni h clean.0;
      })
  | inl none' ↦ elim (Bool-cases (not r.exhausted && ltb s.l7_bytes_seen 4096)) [
    | inl waits ↦ let e' = rw (none', waits) at e in cc
    | inr gives_up ↦
        let e' = rw (none', gives_up) at e in
        subst (Latches s) (some-inj e') (record {
          ends = (refl, refl);
          zones = (refl, refl);
          nat = refl;
          unshifted = clean.1;
          names = (refl, inr (inr (inr (inr refl))));
          server = (v.server.0, inl clean.0);
        })
  ]
]
  where
    clean : (s.sni ≡ []) × (s.app_shifted ≡ false)
    clean = unidentified s v.identified u

reconsider-IsRuled :
    (p : Policy) (s q : Session) (c : Counters)
    → IsRuled p s
    → Latches s q
    → IsRuled p (reconsider p q c).0
unfolding reconsider
reconsider-IsRuled p s q c v l =
    let r = evaluate p (traffic q q.resp_port q.app) in
    elim (Bool-cases (verdict_eq r.1 q.verdict)) [
      | inl same ↦ rw same (record {
        source = l.zones.0 ∙ v.source ∙ ap (zone_for p) (sym l.ends.0);
        target = l.zones.1 ∙ v.target ∙ ap (zone_for p) (sym l.ends.1);
        rule = refl;
        verdict = refl;
        shifted = inl l.unshifted;
        translation = ground (arith, v.translation);
        identified = inr l.names;
        server = l.server;
      })
      | inr other ↦ rw other (record {
        source = l.zones.0 ∙ v.source ∙ ap (zone_for p) (sym l.ends.0);
        target = l.zones.1 ∙ v.target ∙ ap (zone_for p) (sym l.ends.1);
        rule = refl;
        verdict = refl;
        shifted = ground arith;
        translation = ground (arith, v.translation);
        identified = inr l.names;
        server = l.server;
      })
    ]

-- What a packet makes of the session that it is classified for is as the rule base says.
pub classify-IsRuled :
    (p : Policy) (s : Session) (c : Counters) (payload : ByteView) (dst_port : ℕ)
    → IsRuled p s
    → s.app_latched ≡ false
    → IfReturns (λ r. IsRuled p r.0) (classify_and_maybe_shift p s c payload dst_port)
unfolding classify_and_maybe_shift
classify-IsRuled p s c payload dst_port v u =
    let (r, e, h) = classify-IsResult payload s.proto dst_port in
    rw e (IfReturns-some _ (after r h (latched seen r) refl))
  where
    seen : Session
    seen = record s { l7_bytes_seen = (s.l7_bytes_seen + payload.len) % 2 ^ 32 }

    seen-IsRuled : IsRuled p seen
    seen-IsRuled = Keeps-IsRuled p s seen (ground arith) v

    after :
        (r : AppIdResult)
        → IsResult payload r
        → (o : Option Session) → latched seen r ≡ o
        → let q : Session × Counters = elim o [ none ↦ (seen, c) | some s' ↦ reconsider p s' c ] in
          IsRuled p q.0
    after r h none e = seen-IsRuled
    after r h (some q) e =
        reconsider-IsRuled p seen q c seen-IsRuled
          (latched-Latches p seen q payload r seen-IsRuled u h e)
