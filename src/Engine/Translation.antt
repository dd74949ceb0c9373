-- ===== src/Engine/Translation.antt =====
-- The translated sessions of src/engine.cpp and the pool of src/nat.h that their ports come from.
pub mod Ports
use nano_ngfw.Prelude.{
  ℕ, zero, suc, ◌+◌, ◌≤◌, ◌<◌, ◌≡◌, ◌⊎◌, ◌∙◌, inl, inr, refl, sym, ap, subst, true, false, List, [],
  ◌∷◌, ◌++◌, Option, none, some, arith, get_elem?, set, length, Bool-cases, Ensures, IfReturns,
  IfReturns-bind, IfReturns-some, if◌then◌else◌, some-inj, ◌==◌, get_elem?-set_self,
  get_elem?-set_ne, get_elem?-lt,
}
use nano_ngfw.ByteView.{ByteView}
use nano_ngfw.Flow.{
  PacketMeta, Session, FlowTable, Index, Swept, Timeouts, put, expired, sweep, age_out,
}
use nano_ngfw.Flow.Aging.{retire}
use nano_ngfw.Nat.{NatPool, allocate}
use nano_ngfw.Nat.Ports.{IsPool, allocate_next}
use nano_ngfw.Engine.{Engine, finish, process}
use nano_ngfw.Engine.Delivery.{Delivered, deliver-Delivered}
use nano_ngfw.Engine.Invariant.{IsEngine}
use nano_ngfw.Engine.Opening.{Opened}
use nano_ngfw.Engine.Carried.{Carries}
use nano_ngfw.Engine.Pipeline.{process-Carries}

-- The address and the port that a session is translated to.
abbrev pub nat_of : Option Session → Option (ℕ × ℕ)
nat_of none = none
nat_of (some s) = if s.nat_applied then some (s.nat_ip, s.nat_port) else none

-- The ports that are out are those below the next one; each translated session has the pool's address
-- and one of these, and no two sessions have the same.
pub record IsTranslated (pool : NatPool) (ss : List Session) : Type 0 where
  pub in_order : pool.next_port ≡ pool.first_port + pool.in_use
  pub range :
      (i ip port : ℕ)
      → nat_of (get_elem? ss i) ≡ some (ip, port)
      → (ip ≡ pool.public_ip) × (pool.first_port ≤ port) × (port < pool.next_port)
  pub once :
      (i j ip iq port : ℕ)
      → nat_of (get_elem? ss i) ≡ some (ip, port)
      → nat_of (get_elem? ss j) ≡ some (iq, port)
      → i ≡ j

-- Lists whose sessions are translated alike.
abbrev SameNat : List Session → List Session → Type 0
SameNat ss rs = (i : ℕ) → nat_of (get_elem? rs i) ≡ nat_of (get_elem? ss i)

SameNat-IsTranslated :
    (p : NatPool) (ss rs : List Session) → SameNat ss rs → IsTranslated p ss → IsTranslated p rs
SameNat-IsTranslated p ss rs h v = record {
  in_order = v.in_order;
  range = λ i ip port e. v.range i ip port (sym (h i) ∙ e);
  once = λ i j ip iq port e f. v.once i j ip iq port (sym (h i) ∙ e) (sym (h j) ∙ f);
}

set-SameNat :
    (ss : List Session) (id : ℕ) (s r : Session)
    → get_elem? ss id ≡ some s
    → nat_of (some r) ≡ nat_of (some s)
    → SameNat ss (set ss id r)
set-SameNat ss id s r at e i = elim (Bool-cases (id == i)) [
  | inl same ↦
      let q : id ≡ i = ground arith in
      subst (λ j. nat_of (get_elem? (set ss id r) j) ≡ nat_of (get_elem? ss j)) q
        (ap nat_of (get_elem?-set_self ss id r (get_elem?-lt ss id at)) ∙ e ∙ ap nat_of (sym at))
  | inr other ↦ ap nat_of (get_elem?-set_ne ss id i r (λ w. ground arith))
]

sweep-SameNat :
    (idx : Index) (ss : List Session) (now : ℕ) (t : Timeouts)
    → IfReturns (λ (w : Swept). SameNat ss w.sessions) (sweep idx ss now t)
unfolding sweep
sweep-SameNat [] ss now t = IfReturns-some _ (λ i. refl)
sweep-SameNat ((k, id) ∷ rest) ss now t = IfReturns-bind _ (get_elem? ss id) _ λ s at.
    elim (Bool-cases (expired now t s)) [
      | inl gone ↦ rw gone (
          IfReturns-bind _ (sweep rest (set ss id (retire s)) now t) _ λ w e. IfReturns-some _ λ i.
            sweep-SameNat rest (set ss id (retire s)) now t w e i
            ∙ set-SameNat ss id s (retire s) at refl i)
      | inr live ↦ rw live (
          IfReturns-bind _ (sweep rest ss now t) _
            λ w e. IfReturns-some _ (sweep-SameNat rest ss now t w e))
    ]

abbrev pub Translated : Engine → Type 0
Translated e = IsTranslated e.nat e.flows.sessions

pub finish-Translated : (e : Engine) (ts : ℕ) → Translated e → IfReturns Translated (finish e ts)
unfolding finish age_out
finish-Translated e ts h = IfReturns-bind _ (age_out e.flows ts e.timeouts) _ λ r g.
    IfReturns-some _ (
      SameNat-IsTranslated e.nat e.flows.sessions r.0.sessions
        (IfReturns-bind (λ (x : FlowTable × ℕ). SameNat e.flows.sessions x.0.sessions)
          (sweep e.flows.by_key e.flows.sessions ts e.timeouts) _
          (λ w g'.
            IfReturns-some _ (sweep-SameNat e.flows.by_key e.flows.sessions ts e.timeouts w g'))
          r g)
        h)

pub Delivered-Translated :
    (e e' : Engine) (id : ℕ) (s : Session)
    → get_elem? e.flows.sessions id ≡ some s
    → Delivered e id s e'
    → Translated e
    → Translated e'
unfolding put
Delivered-Translated e e' id s at (r, q, (x, _, _), n, _, _) h =
    subst (λ (f : FlowTable). IsTranslated e'.nat f.sessions) (sym q)
      (subst (λ p. IsTranslated p (set e.flows.sessions id r)) (sym n)
        (SameNat-IsTranslated e.nat e.flows.sessions (set e.flows.sessions id r)
          (set-SameNat e.flows.sessions id s r at (ground (arith, x.same_nat))) h))
