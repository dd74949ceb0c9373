-- ===== src/Engine/Rules.antt =====
-- What src/engine.cpp writes into a session: zones, rule, verdict, translation, application and server name.
pub mod Born
pub mod Shifted
pub mod Kept
use nano_ngfw.Prelude.{
  ℕ, ◌+◌, ◌%◌, ◌^◌, ◌≡◌, ◌⊎◌, ◌∙◌, inl, inr, refl, sym, ap, Bool, true, false, [], List, Option,
  none, some, arith, Bool-cases, Option-cases, subst, ◌&&◌, not, ltb, if◌then◌else◌, get_elem?,
  some-inj, Text, IfReturns, IfReturns-bind, IfReturns-some, is_empty,
}
use nano_ngfw.ByteView.{ByteView}
use nano_ngfw.Policy.{Zone, Policy, allow, zone_for, evaluate, verdict_eq, zone_eq}
use nano_ngfw.Flow.{PacketMeta, Session, is_closed, closed, fresh, touched}
use nano_ngfw.Flow.Aging.{retire}
use nano_ngfw.TcpState.{tcp_advance, udp_advance}
use nano_ngfw.Nat.{NatPool, enabled, allocate}
use nano_ngfw.AppId.{AppIdResult, classify, web_browsing, ssl, dns, ssh, unknown}
use nano_ngfw.AppId.Sni.Walk.{Printable}
use nano_ngfw.AppId.Total.{IsResult, classify-IsResult}
use nano_ngfw.Engine.{
  Counters, Segment, judged, translated, traffic, advanced, latched, reconsider,
  classify_and_maybe_shift,
}

abbrev pub Application : Text → Type 0
Application a = (a ≡ web_browsing) ⊎ (a ≡ ssl) ⊎ (a ≡ dns) ⊎ (a ≡ ssh) ⊎ (a ≡ unknown)

-- No application and no server name yet, or one of the five applications.
abbrev pub Identified : Session → Type 0
Identified s =
    (s.app_latched ≡ false) × (s.app ≡ []) × (s.sni ≡ []) × (s.app_shifted ≡ false)
    ⊎ (s.app_latched ≡ true) × Application s.app

-- The zones are those of the end points; rule and verdict are those of the rule base for the session's
-- traffic with the application as far as it is known; a session whose verdict turned away from allow
-- is closed; only sessions from trust to untrust are translated; the server name is printable, and there is one only beside ssl.
pub record IsRuled (p : Policy) (s : Session) : Type 0 where
  pub source : s.from_zone ≡ zone_for p s.init_ip
  pub target : s.to_zone ≡ zone_for p s.resp_ip
  pub rule : s.matched_rule ≡ (evaluate p (traffic s s.resp_port s.app)).0
  pub verdict : s.verdict ≡ (evaluate p (traffic s s.resp_port s.app)).1
  pub shifted : (s.app_shifted ≡ false) ⊎ (s.verdict ≡ allow) ⊎ (is_closed s.state ≡ true)
  pub translation :
      (s.nat_applied ≡ false) ⊎ (s.from_zone ≡ Zone.trust) × (s.to_zone ≡ Zone.untrust)
  pub identified : Identified s
  pub server : Printable s.sni × ((s.sni ≡ []) ⊎ (s.app ≡ ssl))

-- A write that leaves all this alone.
pub record Keeps (s r : Session) : Type 0 where
  ends :
      (r.init_ip ≡ s.init_ip)
      × (r.resp_ip ≡ s.resp_ip)
      × (r.resp_port ≡ s.resp_port)
      × (r.proto ≡ s.proto)
  zones : (r.from_zone ≡ s.from_zone) × (r.to_zone ≡ s.to_zone)
  outcome :
      (r.matched_rule ≡ s.matched_rule) × (r.verdict ≡ s.verdict) × (r.app_shifted ≡ s.app_shifted)
  nat : r.nat_applied ≡ s.nat_applied
  names : (r.app ≡ s.app) × (r.sni ≡ s.sni) × (r.app_latched ≡ s.app_latched)
  still_closed : (is_closed s.state ≡ false) ⊎ (is_closed r.state ≡ true)

pub Keeps-IsRuled : (p : Policy) (s r : Session) → Keeps s r → IsRuled p s → IsRuled p r
Keeps-IsRuled p s r k v = record {
  source = cc (v.source, k.zones.0, k.ends.0);
  target = cc (v.target, k.zones.1, k.ends.1);
  rule = k.outcome.0 ∙ v.rule ∙ ap (λ t. (evaluate p t).0) (sym same);
  verdict = k.outcome.1 ∙ v.verdict ∙ ap (λ t. (evaluate p t).1) (sym same);
  shifted = ground arith;
  translation = ground arith;
  identified = ground arith;
  server = ground arith;
}
  where
    same : traffic r r.resp_port r.app ≡ traffic s s.resp_port s.app
    same = ground arith

pub touched-Keeps : (s : Session) (m : PacketMeta) (d : Bool) → Keeps s (touched s m d)
unfolding touched
touched-Keeps s m d = ground arith

pub advanced-Keeps : (g : Segment) (d : Bool) (s : Session) → Keeps s (advanced g d s)
unfolding advanced tcp_advance udp_advance
advanced-Keeps g d s = ground arith

pub retire-Keeps : (s : Session) → Keeps s (retire s)
retire-Keeps s = ground arith
