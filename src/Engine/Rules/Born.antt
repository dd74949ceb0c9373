-- ===== src/Engine/Rules/Born.antt =====
-- The birth of a session in src/engine.cpp, and what the rule base says of it.
use nano_ngfw.Prelude.{
  ℕ, ◌≡◌, ◌⊎◌, inl, inr, refl, sym, true, arith, Bool-cases, Option-cases, subst, ◌&&◌,
}
use nano_ngfw.Policy.{Zone, Policy, allow, verdict_eq, zone_eq}
use nano_ngfw.Flow.{PacketMeta, Session, fresh}
use nano_ngfw.Nat.{NatPool, enabled, allocate}
use nano_ngfw.Engine.{judged, translated}
use nano_ngfw.Engine.Rules.{IsRuled}

judged-IsRuled : (p : Policy) (m : PacketMeta) (id : ℕ) → IsRuled p (judged p m (fresh m id))
unfolding judged
judged-IsRuled p m id = record {
  source = refl;
  target = refl;
  rule = refl;
  verdict = refl;
  shifted = inl refl;
  translation = inl refl;
  identified = inl (refl, refl, refl, refl);
  server = (tt, inl refl);
}

-- Translation leaves a session alone, or writes an address and a port into one from trust to untrust.
translated-cases :
    (nat : NatPool) (s : Session)
    → ((translated nat s).1 ≡ s)
      ⊎ (s.from_zone ≡ Zone.trust)
        × (s.to_zone ≡ Zone.untrust)
        × ((port : ℕ) × ((translated nat s).1
              ≡ record s { nat_applied = true; nat_ip = nat.public_ip; nat_port = port }))
unfolding translated
translated-cases nat s =
    elim (Bool-cases (
      verdict_eq s.verdict allow
      && enabled nat
      && zone_eq s.from_zone Zone.trust
      && zone_eq s.to_zone Zone.untrust)) [
        | inr refused ↦ inl (rw refused refl)
        | inl allowed ↦ elim (Option-cases (allocate nat).0) [
          | inl full ↦ inl (rw (allowed, full) refl)
          | inr (port, e) ↦ inr (ground arith, ground arith, (port, rw (allowed, e) refl))
        ]
      ]

translated-IsRuled :
    (p : Policy) (nat : NatPool) (s : Session) → IsRuled p s → IsRuled p (translated nat s).1
translated-IsRuled p nat s v = elim (translated-cases nat s) [
  | inl same ↦ subst (IsRuled p) (sym same) v
  | inr (from', to', (port, e)) ↦ subst (IsRuled p) (sym e) (record {
    source = v.source;
    target = v.target;
    rule = v.rule;
    verdict = v.verdict;
    shifted = v.shifted;
    translation = inr (from', to');
    identified = v.identified;
    server = v.server;
  })
]

-- A session that is born is as the rule base says.
pub born-IsRuled :
    (p : Policy) (m : PacketMeta) (id : ℕ) (nat : NatPool)
    → IsRuled p (translated nat (judged p m (fresh m id))).1
born-IsRuled p m id nat = translated-IsRuled p nat (judged p m (fresh m id)) (judged-IsRuled p m id)
