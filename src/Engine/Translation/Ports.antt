-- ===== src/Engine/Translation/Ports.antt =====
-- Engine::process of src/engine.cpp and the ports that NatPool::allocate of src/nat.cpp hands out.
use nano_ngfw.Prelude.{
  ℕ, zero, suc, ◌+◌, ◌≤◌, ◌<◌, ◌≡◌, ◌⊎◌, ◌∙◌, inl, inr, refl, sym, ap, subst, true, false, List, [],
  ◌∷◌, ◌++◌, some, arith, get_elem?, length, Ensures, some-inj,
}
use nano_ngfw.ByteView.{ByteView}
use nano_ngfw.Flow.{PacketMeta, Session}
use nano_ngfw.Nat.{NatPool, allocate}
use nano_ngfw.Nat.Ports.{IsPool, allocate_next}
use nano_ngfw.Engine.{Engine, process}
use nano_ngfw.Engine.Delivery.{deliver-Delivered}
use nano_ngfw.Engine.Invariant.{IsEngine}
use nano_ngfw.Engine.Opening.{Opened}
use nano_ngfw.Engine.Carried.{Carries}
use nano_ngfw.Engine.Pipeline.{process-Carries}
use nano_ngfw.Engine.Translation.{
  nat_of, IsTranslated, Translated, finish-Translated, Delivered-Translated,
}

-- Where a list with one more session has its translations.
nat_of-append :
    (ss : List Session) (n : Session) (i ip port : ℕ)
    → nat_of (get_elem? (ss ++ n ∷ []) i) ≡ some (ip, port)
    → (nat_of (get_elem? ss i) ≡ some (ip, port))
      ⊎ (i ≡ length ss) × (nat_of (some n) ≡ some (ip, port))
nat_of-append [] n zero ip port e = inr (refl, e)
nat_of-append [] n (suc i) ip port e = cc
nat_of-append (x ∷ ss) n zero ip port e = inl e
nat_of-append (x ∷ ss) n (suc i) ip port e = elim (nat_of-append ss n i ip port e) [
  | inl h ↦ inl h
  | inr (q, h) ↦ inr (ap suc q, h)
]

module _ (p : NatPool) (ss : List Session) (n : Session) (v : IsPool p)
    (h : IsTranslated p ss) where
  -- A session that gets no port.
  no_port-IsTranslated : n.nat_applied ≡ false → IsTranslated p (ss ++ n ∷ [])
  no_port-IsTranslated off = record {
    in_order = h.in_order;
    range = λ i ip port e. h.range i ip port (old i ip port e);
    once = λ i j ip iq port e f. h.once i j ip iq port (old i ip port e) (old j iq port f);
  }
    where
      old :
          (i ip port : ℕ)
          → nat_of (get_elem? (ss ++ n ∷ []) i) ≡ some (ip, port)
          → nat_of (get_elem? ss i) ≡ some (ip, port)
      old i ip port e = elim (nat_of-append ss n i ip port e) [
        | inl q ↦ q
        | inr (_, q) ↦ absurd (ground arith)
      ]

  module _ (on : n.nat_applied ≡ true) (address : n.nat_ip ≡ p.public_ip)
      (taken : (allocate p).0 ≡ some n.nat_port) where
    abbrev q : NatPool
    q = (allocate p).1

    next :
        (n.nat_port ≡ p.next_port)
        × (q.next_port ≡ p.next_port + 1)
        × (q.in_use ≡ p.in_use + 1)
        × (q.first_port ≡ p.first_port)
        × (q.public_ip ≡ p.public_ip)
    next = allocate_next p n.nat_port v h.in_order taken

    newest :
        (ip port : ℕ)
        → nat_of (some n) ≡ some (ip, port)
        → (ip ≡ p.public_ip) × (port ≡ p.next_port)
    newest ip port e = ground (arith, next)

    new_range :
        (i ip port : ℕ)
        → nat_of (get_elem? (ss ++ n ∷ []) i) ≡ some (ip, port)
        → (ip ≡ q.public_ip) × (q.first_port ≤ port) × (port < q.next_port)
    new_range i ip port e = elim (nat_of-append ss n i ip port e) [
      | inl old ↦ let (a, b, c) = h.range i ip port old in omega (arith, next)
      | inr (_, new) ↦ let (a, b) = newest ip port new in omega (arith, next, v.low)
    ]

    new_once :
        (i j ip iq port : ℕ)
        → nat_of (get_elem? (ss ++ n ∷ []) i) ≡ some (ip, port)
        → nat_of (get_elem? (ss ++ n ∷ []) j) ≡ some (iq, port)
        → i ≡ j
    new_once i j ip iq port e f = elim (nat_of-append ss n i ip port e) [
      | inl old ↦ elim (nat_of-append ss n j iq port f) [
        | inl old' ↦ h.once i j ip iq port old old'
        | inr (_, new) ↦ absurd (omega (arith, h.range i ip port old, newest iq port new))
      ]
      | inr (here, new) ↦ elim (nat_of-append ss n j iq port f) [
        | inl old ↦ absurd (omega (arith, h.range j iq port old, newest ip port new))
        | inr (there, _) ↦ here ∙ sym there
      ]
    ]

    -- A session that gets the next port.
    next_port-IsTranslated : IsTranslated q (ss ++ n ∷ [])
    next_port-IsTranslated = record {
      in_order = omega (arith, next, h.in_order);
      range = new_range;
      once = new_once;
    }

Opened-Translated :
    (e : Engine) (m : PacketMeta) (r : ℕ × Engine)
    → IsPool e.nat
    → Opened e m r
    → Translated e
    → Translated r.1
Opened-Translated e m r v o h = subst (IsTranslated r.1.nat) (sym o.appended) (elim (o.ported) [
  | inl (off, same) ↦ rw same (no_port-IsTranslated e.nat e.flows.sessions o.newcomer v h off)
  | inr (on, address, taken, same) ↦
      rw same (next_port-IsTranslated e.nat e.flows.sessions o.newcomer v h on address taken)
])

Translated-Carries : Carries Translated Translated
Translated-Carries = record {
  notes = λ e d a h. h;
  sets_aside = λ e d a h. h;
  sweeps = λ e e' ts v q h. finish-Translated e ts h e' q;
  opens = λ e m r v b q o h. Opened-Translated e m r v.nat o h;
  delivers = λ e e' g id d s at q h.
      let (e1, q1, x) = deliver-Delivered e g id d s at in
      subst Translated (some-inj (sym q1 ∙ q)) (Delivered-Translated e e1 id s at x h);
}

-- No two sessions are translated to one port. On a sound engine with fewer than 2^32 - 1 sessions whose
-- translations are in order, every frame is processed, and they are in order again: each translated session has the address of
-- the pool and a port of its range below the next one to be handed out, no two sessions, live or retired, have the same
-- port, and the pool has handed out its ports one by one.
pub process-Translated :
    (e : Engine) (frame : ByteView) (ts : ℕ)
    → IsEngine e
    → length e.flows.sessions < 0xffffffff
    → Translated e
    → Ensures Translated (process e frame ts)
process-Translated e frame ts v b h =
    process-Carries Translated Translated Translated-Carries e frame ts v h b
