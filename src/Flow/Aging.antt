-- ===== src/Flow/Aging.antt =====
-- FlowTable::age_out of src/flow.cpp: what a sweep retires, and what it leaves.
use nano_ngfw.Prelude.{
  ℕ, ◌+◌, ◌≡◌, ◌≢◌, inl, inr, refl, sym, ap, ◌∙◌, Bool, true, false, ◌&&◌, List, [], ◌∷◌, Option,
  none, some, arith, if◌then◌else◌, length, get_elem?, set, Bool-cases, Option-cases, length-set,
  get_elem?-set_self, get_elem?-set_ne, get_elem?-lt, ◌==◌, Ensures,
}
use nano_ngfw.Flow.{
  FiveTuple, Session, closed, Index, Timeouts, key_eq, find, session_key, expired, Swept, sweep,
}
use nano_ngfw.Flow.Key.{key_eq_iff}
use nano_ngfw.Flow.Index.{Distinct}
use nano_ngfw.Flow.Table.{Indexed, Indexed-find, Indexed-set}

abbrev pub retire : Session → Session
retire s = record s { state = closed }

abbrev pub is_id : ℕ → Option ℕ → Bool
is_id i none = false
is_id i (some j) = j == i

-- Does the session's own key lead to it?
abbrev pub is_indexed : Index → ℕ → Session → Bool
is_indexed idx i s = is_id i (find (session_key s) idx)

module _ (now : ℕ) (t : Timeouts) where
  abbrev pub is_due : Option Session → Bool
  is_due none = false
  is_due (some s) = expired now t s

  -- What a key finds after the sweep, from what it found before.
  abbrev pub surviving : List Session → Option ℕ → Option ℕ
  surviving ss none = none
  surviving ss (some id) = if is_due (get_elem? ss id) then none else some id

  -- What stands at a position after the sweep.
  abbrev pub aged : Index → ℕ → Option Session → Option Session
  aged idx i none = none
  aged idx i (some s) = some (if is_indexed idx i s && expired now t s then retire s else s)

  abbrev pub SweptAs : List Session → Index → Swept → Type 0
  SweptAs ss idx w =
      ((key : FiveTuple) → find key w.kept ≡ surviving ss (find key idx))
      × ((i : ℕ) → get_elem? w.sessions i ≡ aged idx i (get_elem? ss i))
      × (length w.kept + w.retired ≡ length idx)
      × (length w.sessions ≡ length ss)
      × Distinct w.kept

module _ (now : ℕ) (t : Timeouts) (ss : List Session) (k : FiveTuple) (id : ℕ) (rest : Index)
    (s : Session) (at : get_elem? ss id ≡ some s) (own : k ≡ session_key s)
    (once : find k rest ≡ none) (more : Indexed ss rest) where
  other_id : (key : FiveTuple) (j : ℕ) → find key rest ≡ some j → id ≢ j
  other_id key j e q =
      let (x, g, own') = Indexed-find ss rest key j more e in
      let same : x ≡ s = cc (g, at, ap (get_elem? ss) q) in
      cc (once, e, ap (λ y. find y rest) (own' ∙ ap session_key same ∙ sym own))

  surviving_retired :
      (key : FiveTuple)
      → surviving now t (set ss id (retire s)) (find key rest) ≡ surviving now t ss (find key rest)
  surviving_retired key = elim (Option-cases (find key rest)) [
    | inl e ↦ rw e
    | inr (j, e) ↦ rw e (
        ap (λ o. if is_due now t o then none else some j)
          (get_elem?-set_ne ss id j (retire s) (other_id key j e)))
  ]

  once_found : (key : FiveTuple) → key_eq k key ≡ true → find key rest ≡ none
  once_found key same = ap (λ y. find y rest) (sym ((key_eq_iff k key).0 same)) ∙ once

  kept_gone :
      (key : FiveTuple)
      → expired now t s ≡ true
      → surviving now t (set ss id (retire s)) (find key rest)
        ≡ surviving now t ss (find key ((k, id) ∷ rest))
  unfolding find
  kept_gone key gone = elim (Bool-cases (key_eq k key)) [
    | inl same ↦ rw (same, once_found key same) (ground arith)
    | inr other ↦ rw other (surviving_retired key)
  ]

  kept_live :
      (key : FiveTuple) (kept : Index)
      → expired now t s ≡ false
      → find key kept ≡ surviving now t ss (find key rest)
      → find key ((k, id) ∷ kept) ≡ surviving now t ss (find key ((k, id) ∷ rest))
  unfolding find
  kept_live key kept live e = elim (Bool-cases (key_eq k key)) [
    | inl same ↦ rw same (ground arith)
    | inr other ↦ rw other e
  ]

  aged_same :
      aged now t ((k, id) ∷ rest) id (some s) ≡ some (if expired now t s then retire s else s)
  unfolding find
  aged_same = ground (arith, key_eq_iff k (session_key s))

  aged_other :
      (i : ℕ) (o : Option Session) → id ≢ i → aged now t rest i o ≡ aged now t ((k, id) ∷ rest) i o
  unfolding find
  aged_other i none ne = refl
  aged_other i (some x) ne = ground (arith, once_found (session_key x))

  aged_own : (r : Session) → session_key r ≡ k → aged now t rest id (some r) ≡ some r
  aged_own r e = ground (arith, ap (λ y. find y rest) e)

  gone_here :
      expired now t s ≡ true
      → aged now t rest id (get_elem? (set ss id (retire s)) id)
        ≡ aged now t ((k, id) ∷ rest) id (get_elem? ss id)
  gone_here gone =
      ap (aged now t rest id) (get_elem?-set_self ss id (retire s) (get_elem?-lt ss id at))
      ∙ aged_own (retire s) (sym own)
      ∙ sym (ap (aged now t ((k, id) ∷ rest) id) at ∙ aged_same ∙ rw gone)

  live_here :
      expired now t s ≡ false
      → aged now t rest id (get_elem? ss id) ≡ aged now t ((k, id) ∷ rest) id (get_elem? ss id)
  live_here live =
      ap (aged now t rest id) at
      ∙ aged_own s (sym own)
      ∙ sym (ap (aged now t ((k, id) ∷ rest) id) at ∙ aged_same ∙ rw live)

  aged_gone :
      (i : ℕ)
      → expired now t s ≡ true
      → aged now t rest i (get_elem? (set ss id (retire s)) i)
        ≡ aged now t ((k, id) ∷ rest) i (get_elem? ss i)
  aged_gone i gone = elim (Bool-cases (id == i)) [
    | inl same ↦ let q : id ≡ i = ground arith in rw (← q) (gone_here gone)
    | inr other ↦
        ap (aged now t rest i) (get_elem?-set_ne ss id i (retire s) (λ q. ground arith))
        ∙ aged_other i (get_elem? ss i) (λ q. ground arith)
  ]

  aged_live :
      (i : ℕ)
      → expired now t s ≡ false
      → aged now t rest i (get_elem? ss i) ≡ aged now t ((k, id) ∷ rest) i (get_elem? ss i)
  aged_live i live = elim (Bool-cases (id == i)) [
    | inl same ↦ let q : id ≡ i = ground arith in rw (← q) (live_here live)
    | inr other ↦ aged_other i (get_elem? ss i) (λ q. ground arith)
  ]

module _ (now : ℕ) (t : Timeouts) where
  aged_nil : (i : ℕ) (o : Option Session) → o ≡ aged now t [] i o
  unfolding find
  aged_nil i none = refl
  aged_nil i (some s) = refl

  -- A sweep returns, and does to each entry and each session what its own age says.
  pub sweep_lem :
      (idx : Index) (ss : List Session)
      → Indexed ss idx
      → Distinct idx
      → Ensures (SweptAs now t ss idx) (sweep idx ss now t)
  unfolding sweep find
  sweep_lem [] ss h d =
      (_, refl, (λ key. refl, λ i. aged_nil i (get_elem? ss i), omega arith, refl, tt))
  sweep_lem ((k, id) ∷ rest) ss ((s, at, own), more) (once, d) =
      elim (Bool-cases (expired now t s)) [
        | inl gone ↦
            let (w, e, p) =
              sweep_lem rest (set ss id (retire s))
                (Indexed-set ss id s (retire s) rest at refl more) d in
            rw (at, gone, e)
              (
                _,
                refl,
                (
                  λ key. p.0 key ∙ kept_gone now t ss k id rest s at own once more key gone,
                  λ i. p.1 i ∙ aged_gone now t ss k id rest s at own once more i gone,
                  omega (arith, p.2),
                  p.3 ∙ length-set ss id (retire s),
                  p.4,
                ),
              )
        | inr live ↦
            let (w, e, p) = sweep_lem rest ss more d in
            rw (at, live, e)
              (
                _,
                refl,
                (
                  λ key. kept_live now t ss k id rest s at own once more key w.kept live (p.0 key),
                  λ i. p.1 i ∙ aged_live now t ss k id rest s at own once more i live,
                  omega (arith, p.2),
                  p.3,
                  (p.0 k ∙ ap (surviving now t ss) once, p.4),
                ),
              )
      ]
