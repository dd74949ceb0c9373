-- ===== src/Flow/Retire.antt =====
-- FlowTable::age_out of src/flow.cpp over a sound table.
use nano_ngfw.Prelude.{
  ℕ, suc, ◌+◌, ◌≡◌, ◌≢◌, ◌⊎◌, ◌↔◌, subst, inl, inr, refl, sym, ap, ◌∙◌, true, false, ◌&&◌, List, [],
  ◌∷◌, Option, none, some, arith, if◌then◌else◌, length, get_elem?, Bool-cases, Ensures,
}
use nano_ngfw.Flow.{
  FiveTuple, Session, is_closed, Index, FlowTable, Timeouts, find, session_key, expired, Swept,
  age_out, active,
}
use nano_ngfw.Flow.Key.{key_eq_iff}
use nano_ngfw.Flow.Index.{Distinct}
use nano_ngfw.Flow.Table.{
  Indexed, Indexed-find, IsTable, Numbered, Numbered-id, Live, Live-get, Findable,
}
use native.Mathlib.Nat.{zero-add}
use nano_ngfw.Flow.Aging.{retire, is_indexed, is_due, surviving, aged, SweptAs, sweep_lem}

-- The parts of a sound table, from what holds at each key and each position.
pub Indexed-intro :
    (ss : List Session) (idx : Index)
    → Distinct idx
    → ((key : FiveTuple) (id : ℕ)
        → find key idx ≡ some id
        → (s : Session) × (get_elem? ss id ≡ some s) × (key ≡ session_key s))
    → Indexed ss idx
unfolding find
Indexed-intro ss [] d h = tt
Indexed-intro ss ((k, id) ∷ rest) (once, d) h = (
  h k id (rw ((key_eq_iff k k).1 refl)),
  Indexed-intro ss rest d λ key i e.
      h key i (ground (arith, key_eq_iff k key, ap (λ y. find y rest) {x = k} {y = key})),
)

Numbered-intro :
    (n : ℕ) (ss : List Session)
    → ((i : ℕ) (s : Session) → get_elem? ss i ≡ some s → s.id ≡ n + i)
    → Numbered n ss
Numbered-intro n [] h = tt
Numbered-intro n (s ∷ ss) h =
    (omega (arith, h 0 s refl), Numbered-intro (suc n) ss λ i r e. omega (arith, h (suc i) r e))

pub Live-intro :
    (idx : Index) (ss : List Session)
    → ((i : ℕ) (s : Session) → get_elem? ss i ≡ some s → Findable idx s)
    → Live idx ss
Live-intro idx [] h = tt
Live-intro idx (s ∷ ss) h = (h 0 s refl, Live-intro idx ss λ i r e. h (suc i) r e)

module _ (now : ℕ) (t : Timeouts) (idx : Index) where
  -- A session after the sweep is one before it, or one that was retired.
  aged-some :
      (i : ℕ) (o : Option Session) {r : Session}
      → aged now t idx i o ≡ some r
      → (s : Session) × (o ≡ some s)
        × ((r ≡ s) × ((is_indexed idx i s && expired now t s) ≡ false) ⊎ (r ≡ retire s))
  aged-some i none e = cc
  aged-some i (some s) e = elim (Bool-cases (is_indexed idx i s && expired now t s)) [
    | inl gone ↦ (s, refl, inr (ground arith))
    | inr kept ↦ (s, refl, inl (ground arith, kept))
  ]

  surviving-some :
      (ss : List Session) (o : Option ℕ) {id : ℕ}
      → surviving now t ss o ≡ some id
      → (o ≡ some id) × ((s : Session) → get_elem? ss id ≡ some s → expired now t s ≡ false)
  surviving-some ss none {id = id} e = cc
  surviving-some ss (some j) {id = id} e = elim (Bool-cases (is_due now t (get_elem? ss j))) [
    | inl due ↦ absurd (ground arith)
    | inr live ↦
        let same : j ≡ id = ground arith in
        (ap some same, λ s g. ap (is_due now t) (sym g ∙ ap (get_elem? ss) (sym same)) ∙ live)
  ]

module _ (now : ℕ) (t : Timeouts) (f : FlowTable) (v : IsTable f) (w : Swept)
    (p : SweptAs now t f.sessions f.by_key w) where
  swept-Indexed :
      (key : FiveTuple) (id : ℕ)
      → find key w.kept ≡ some id
      → (s : Session) × (get_elem? w.sessions id ≡ some s) × (key ≡ session_key s)
  swept-Indexed key id e =
      let (q, live) =
        surviving-some now t f.by_key f.sessions (find key f.by_key) (sym (p.0 key) ∙ e) in
      let (s, g, own) = Indexed-find f.sessions f.by_key key id v.indexed q in
      (s, p.1 id ∙ ap (aged now t f.by_key id) g ∙ ground (arith, live s g), own)

  swept-Numbered : (i : ℕ) (r : Session) → get_elem? w.sessions i ≡ some r → r.id ≡ 0 + i
  swept-Numbered i r e =
      let (s, g, how) = aged-some now t f.by_key i (get_elem? f.sessions i) (sym (p.1 i) ∙ e) in
      let n = Numbered-id 0 f.sessions i v.numbered g in
      elim how [
        | inl (q, _) ↦ ap (λ (x : Session). x.id) q ∙ n
        | inr q ↦ ap (λ (x : Session). x.id) q ∙ n
      ]

  kept-Findable :
      (i : ℕ) (s : Session)
      → get_elem? f.sessions i ≡ some s
      → (is_indexed f.by_key i s && expired now t s) ≡ false
      → Findable f.by_key s
      → Findable w.kept s
  kept-Findable i s g live (inl c) = inl c
  kept-Findable i s g live (inr e) = inr (
      p.0 (session_key s)
      ∙ ap (surviving now t f.sessions) (e ∙ ap some n)
      ∙ ap (λ o. if is_due now t o then none else some i) g
      ∙ rw young (ap some (sym n)))
    where
      n : s.id ≡ i
      n = Numbered-id 0 f.sessions i v.numbered g ∙ zero-add i

      young : expired now t s ≡ false
      young = ground (arith, n, e)

  swept-Live : (i : ℕ) (r : Session) → get_elem? w.sessions i ≡ some r → Findable w.kept r
  swept-Live i r e =
      let (s, g, how) = aged-some now t f.by_key i (get_elem? f.sessions i) (sym (p.1 i) ∙ e) in
      elim how [
        | inl (q, live) ↦ rw q (kept-Findable i s g live (Live-get f.by_key f.sessions i v.live g))
        | inr q ↦ inl (ap (λ (x : Session). is_closed x.state) q)
      ]

  swept-IsTable : IsTable (record { sessions = w.sessions; by_key = w.kept })
  swept-IsTable = record {
    indexed = Indexed-intro w.sessions w.kept p.4 swept-Indexed;
    distinct = p.4;
    numbered = Numbered-intro 0 w.sessions swept-Numbered;
    live = Live-intro w.kept w.sessions swept-Live;
  }

-- A sweep of a sound table returns, leaves a sound table with all the sessions in it, and counts
-- exactly the entries that it takes out of the index.
pub age_out-IsTable :
    (f : FlowTable) (now : ℕ) (t : Timeouts)
    → IsTable f
    → Ensures
        (λ r.
          IsTable r.0 × (active r.0 + r.1 ≡ active f) × (length r.0.sessions ≡ length f.sessions))
        (age_out f now t)
unfolding age_out
age_out-IsTable f now t v =
    let (w, e, p) = sweep_lem now t f.by_key f.sessions v.indexed v.distinct in
    rw e (_, refl, (swept-IsTable now t f v w p, p.2, p.3))

-- What a sweep does to the session at a position, and to the entry of its key.
abbrev pub Effect : FlowTable → ℕ → Timeouts → ℕ → Session → FlowTable → Type 0
Effect f now t i s g =
    (find (session_key s) f.by_key ≡ some i)
      × (expired now t s ≡ true)
      × (find (session_key s) g.by_key ≡ none)
      × (get_elem? g.sessions i ≡ some (retire s))
    ⊎ (find (session_key s) f.by_key ≡ some i)
      × (expired now t s ≡ false)
      × (find (session_key s) g.by_key ≡ some i)
      × (get_elem? g.sessions i ≡ some s)
    ⊎ (find (session_key s) f.by_key ≢ some i) × (get_elem? g.sessions i ≡ some s)

indexed_iff :
    (idx : Index) (i : ℕ) (s : Session)
    → (is_indexed idx i s ≡ true) ↔ (find (session_key s) idx ≡ some i)
indexed_iff idx i s = (λ h. ground arith, λ h. ground arith)

swept-Effect :
    (f : FlowTable) (now : ℕ) (t : Timeouts) (i : ℕ) (s : Session) (w : Swept)
    → SweptAs now t f.sessions f.by_key w
    → get_elem? f.sessions i ≡ some s
    → Effect f now t i s (record { sessions = w.sessions; by_key = w.kept })
swept-Effect f now t i s w p at = elim (Bool-cases (is_indexed f.by_key i s)) [
  | inr out ↦ inr (inr (λ e. cc (out, (indexed_iff f.by_key i s).1 e), here ∙ rw out))
  | inl found ↦
      let own = (indexed_iff f.by_key i s).0 found in
      elim (Bool-cases (expired now t s)) [
        | inl old ↦ inl (own, old, entry own ∙ rw old, here ∙ rw (found, old))
        | inr young ↦ inr (inl (own, young, entry own ∙ rw young, here ∙ rw (found, young)))
      ]
]
  where
    here : get_elem? w.sessions i ≡ aged now t f.by_key i (some s)
    here = p.1 i ∙ ap (aged now t f.by_key i) at

    entry :
        find (session_key s) f.by_key ≡ some i
        → find (session_key s) w.kept ≡ (if expired now t s then none else some i)
    entry own =
        p.0 (session_key s)
        ∙ ap (surviving now t f.sessions) own
        ∙ ap (λ o. if is_due now t o then none else some i) at

-- A sweep takes a session that its key finds out of the index and closes it exactly if it is expired
-- (closed already, or idle for longer than its state allows), and touches neither its record nor its
-- entry otherwise. A session that its key does not find stays as it is.
pub age_out-Effect :
    (f g : FlowTable) (now n : ℕ) (t : Timeouts) (i : ℕ) (s : Session)
    → IsTable f
    → age_out f now t ≡ some (g, n)
    → get_elem? f.sessions i ≡ some s
    → Effect f now t i s g
unfolding age_out
age_out-Effect f g now n t i s v e at =
    let (w, q, p) = sweep_lem now t f.by_key f.sessions v.indexed v.distinct in
    let out : record { sessions = w.sessions; by_key = w.kept } ≡ g = ground (arith, q) in
    subst (Effect f now t i s) out (swept-Effect f now t i s w p at)
