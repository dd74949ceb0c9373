-- ===== src/Engine/Invariant.antt =====
-- src/engine.cpp: what holds of the engine between two frames.
use nano_ngfw.Prelude.{
  ℕ, ◌+◌, ◌%◌, ◌^◌, ◌≤◌, ◌≡◌, ◌∙◌, inl, inr, sym, ap, subst, List, [], ◌∷◌, ◌++◌, some, arith,
  get_elem?, set, length, Bool-cases, length-set, length-append, get_elem?-lt,
  get_elem?-append_left, get_elem?-set_self, get_elem?-set_ne, ◌==◌,
}
use nano_ngfw.Flow.{PacketMeta, Session, FlowTable, put, active}
use nano_ngfw.Flow.Table.{IsTable, Updates, put-IsTable}
use nano_ngfw.Nat.Ports.{IsPool}
use nano_ngfw.Engine.{Engine, Counters}
use nano_ngfw.Engine.Counting.{Counted, Moves-Counted, SameTotals}
use nano_ngfw.Engine.Opening.{Opened}
use nano_ngfw.Engine.Delivery.{Evolves, Evolves-trans, Delivered}

-- A sound table and pool; every session counted as created, and under its verdict; and every session
-- either in the index or counted as retired. The counters are 64-bit, so they count modulo 2^64.
pub record IsEngine (e : Engine) : Type 0 where
  pub table : IsTable e.flows
  pub nat : IsPool e.nat
  pub counted : Counted e.counters e.flows.sessions
  pub created : e.counters.sessions_created % 2 ^ 64 ≡ length e.flows.sessions % 2 ^ 64
  pub retired :
      (e.counters.sessions_retired + active e.flows) % 2 ^ 64 ≡ length e.flows.sessions % 2 ^ 64

-- An engine that differs in counters that say nothing of sessions.
abbrev pub SameSessions : Counters → Counters → Type 0
SameSessions c d =
    SameTotals c d × (d.allowed ≡ c.allowed) × (d.denied ≡ c.denied) × (d.dropped ≡ c.dropped)

pub recount-IsEngine :
    (e : Engine) (d : Counters)
    → IsEngine e
    → SameSessions e.counters d
    → IsEngine (record e { counters = d })
recount-IsEngine e d v ((a, b), x, y, z) = record {
  table = v.table;
  nat = v.nat;
  counted = ground arith;
  created = ground arith;
  retired = ground arith;
}

-- Each session of the first list stands at its place in the second, evolved.
abbrev pub Grows : List Session → List Session → Type 0
Grows ss rs =
    (i : ℕ) (s : Session)
    → get_elem? ss i ≡ some s
    → (r : Session) × (get_elem? rs i ≡ some r) × Evolves s r

pub Evolves-refl : (s : Session) → Evolves s s
Evolves-refl s = ground arith

pub Grows-refl : (ss : List Session) → Grows ss ss
Grows-refl ss i s h = (s, h, Evolves-refl s)

pub Grows-trans : (ss rs qs : List Session) → Grows ss rs → Grows rs qs → Grows ss qs
Grows-trans ss rs qs f g i s h =
    let (r, k, a) = f i s h in let (q, l, b) = g i r k in (q, l, Evolves-trans s r q a b)

Grows-append : (ss : List Session) (n : Session) → Grows ss (ss ++ n ∷ [])
Grows-append ss n i s h = (s, get_elem?-append_left ss (n ∷ []) i h, Evolves-refl s)

Grows-set :
    (ss : List Session) (id : ℕ) (s r : Session)
    → get_elem? ss id ≡ some s
    → Evolves s r
    → Grows ss (set ss id r)
Grows-set ss id s r g v i x h = elim (Bool-cases (id == i)) [
  | inl same ↦
      let q : id ≡ i = ground arith in
      let e : s ≡ x = cc (g, h, ap (get_elem? ss) q) in
      (
        r,
        ap (get_elem? (set ss id r)) (sym q) ∙ get_elem?-set_self ss id r (get_elem?-lt ss id g),
        subst (λ y. Evolves y r) e v,
      )
  | inr other ↦ (x, get_elem?-set_ne ss id i r (λ w. ground arith) ∙ h, Evolves-refl x)
]

-- What a step makes of a sound engine: a sound engine, whose sessions have only evolved, with at most
-- n new ones.
abbrev pub Good : ℕ → Engine → Engine → Type 0
Good n e e' =
    IsEngine e'
    × Grows e.flows.sessions e'.flows.sessions
    × (length e'.flows.sessions ≤ length e.flows.sessions + n)

pub Good-trans : (n : ℕ) (e f g : Engine) → Good 0 e f → Good n f g → Good n e g
Good-trans n e f g (_, a, k) (v, b, l) =
    (v, Grows-trans e.flows.sessions f.flows.sessions g.flows.sessions a b, omega arith)

pub Good-weaken : (e f : Engine) → Good 0 e f → Good 1 e f
Good-weaken e f (v, a, k) = (v, a, omega arith)

Evolves-Updates : (s r : Session) → Evolves s r → Updates s r
Evolves-Updates s r v = record {
  same_id = v.same_id;
  same_key = v.same_key;
  still_closed = v.still_closed;
}

pub Delivered-Good :
    (e : Engine) (id : ℕ) (s : Session) (e' : Engine)
    → IsEngine e
    → get_elem? e.flows.sessions id ≡ some s
    → Delivered e id s e'
    → Good 0 e e'
unfolding put
Delivered-Good e id s e' v g (r, q, (x, m, t), n, _, _) = (
  record {
    table = subst IsTable (sym q) (put-IsTable e.flows id s r v.table g (Evolves-Updates s r x));
    nat = rw n v.nat;
    counted =
        subst (λ (f : FlowTable). Counted e'.counters f.sessions) (sym q)
          (Moves-Counted e.counters e'.counters e.flows.sessions id s r g v.counted m);
    created = omega (arith, t, v.created, len);
    retired = omega (arith, t, v.retired, len, act);
  },
  subst (λ (f : FlowTable). Grows e.flows.sessions f.sessions) (sym q)
      (Grows-set e.flows.sessions id s r g x),
  omega (arith, len),
)
  where
    len : length e'.flows.sessions ≡ length e.flows.sessions
    len = ap (λ (f : FlowTable). length f.sessions) q ∙ length-set e.flows.sessions id r

    act : active e'.flows ≡ active e.flows
    act = ap (λ (f : FlowTable). active f) q

pub Opened-Good :
    (e : Engine) (m : PacketMeta) (r : ℕ × Engine) → IsEngine e → Opened e m r → Good 1 e r.1
Opened-Good e m r v o = (
  record {
    table = o.table;
    nat = o.nat;
    counted = o.counted;
    created = omega (arith, o.created, v.created, len);
    retired = omega (arith, o.retired, v.retired, len, o.more_active);
  },
  rw (o.appended) (Grows-append e.flows.sessions o.newcomer),
  omega (arith, len),
)
  where
    len : length r.1.flows.sessions ≡ length e.flows.sessions + 1
    len = ap length o.appended ∙ length-append e.flows.sessions (o.newcomer ∷ [])
