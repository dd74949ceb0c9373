-- ===== src/Flow/Order/Tables.antt =====
-- FlowTable of src/flow.h and src/flow.cpp, over index maps that hold the same entries in another order.
use nano_ngfw.Prelude.{
  ℕ, suc, ◌%◌, ◌^◌, ◌≡◌, ◌∙◌, inl, inr, ◌⊎◌, ◌&&◌, true, refl, sym, ap, subst, List, [], ◌∷◌,
  Option, none, some, arith, Option-cases, length, get_elem?, Ensures, some-inj, if◌then◌else◌,
}
use mathlib.Core.List.{Perm}
use nano_ngfw.Flow.{
  FiveTuple, PacketMeta, Session, FlowTable, Timeouts, Swept, is_closed, expired, key_eq, find,
  meta_key, session_key, lookup, create, age_out,
}
use nano_ngfw.Flow.Index.{Distinct, find-assign, assign-Distinct}
use nano_ngfw.Flow.Table.{IsTable, Indexed-find, Live-get}
use nano_ngfw.Flow.Aging.{is_id, retire, surviving, aged, SweptAs, sweep_lem}
use nano_ngfw.Flow.Retire.{Indexed-intro, Live-intro}
use nano_ngfw.Flow.Order.{same-Perm, Perm-same, Perm-Distinct, Perm-length}

-- The same sessions, and the same entries in some order.
abbrev pub Reordered : FlowTable → FlowTable → Type 0
Reordered f g = (f.sessions ≡ g.sessions) × Perm f.by_key g.by_key

get_elem?-ext {ℓ} :
    {A : Type ℓ} (xs ys : List A) → ((i : ℕ) → get_elem? xs i ≡ get_elem? ys i) → xs ≡ ys
get_elem?-ext [] [] h = refl
get_elem?-ext [] (y ∷ ys) h = let e = h 0 in cc
get_elem?-ext (x ∷ xs) [] h = let e = h 0 in cc
get_elem?-ext (x ∷ xs) (y ∷ ys) h =
    let e = some-inj (h 0) in let es = get_elem?-ext xs ys (λ i. h (suc i)) in cc (e, es)

-- A table is sound in every order of its index.
Reordered-IsTable : (f g : FlowTable) → Reordered f g → IsTable f → IsTable g
Reordered-IsTable f g (same, p) v = record {
  indexed = Indexed-intro g.sessions g.by_key distinct λ key id e.
      subst (λ ss. (s : Session) × (get_elem? ss id ≡ some s) × (key ≡ session_key s)) same
        (Indexed-find f.sessions f.by_key key id v.indexed (finds key ∙ e));
  distinct = distinct;
  numbered = rw (← same) v.numbered;
  live = Live-intro g.by_key g.sessions λ i s e.
      subst (λ o. (is_closed s.state ≡ true) ⊎ (o ≡ some s.id)) (finds (session_key s))
        (Live-get f.by_key f.sessions i v.live (ap (λ ss. get_elem? ss i) same ∙ e));
}
  where
    distinct : Distinct g.by_key
    distinct = Perm-Distinct f.by_key g.by_key p v.distinct

    finds : (k : FiveTuple) → find k f.by_key ≡ find k g.by_key
    finds = Perm-same f.by_key g.by_key v.distinct distinct p

module _ (f g : FlowTable) (r : Reordered f g) (v : IsTable f) where
  Reordered-Distinct : Distinct g.by_key
  Reordered-Distinct = Perm-Distinct f.by_key g.by_key (r.1) v.distinct

  same_find : (k : FiveTuple) → find k f.by_key ≡ find k g.by_key
  same_find = Perm-same f.by_key g.by_key v.distinct Reordered-Distinct (r.1)

  lookup-Reordered : (m : PacketMeta) → lookup f m ≡ lookup g m
  unfolding lookup
  lookup-Reordered m = elim (Option-cases (find (meta_key m) f.by_key)) [
    | inl miss ↦ rw (miss, sym (same_find (meta_key m)) ∙ miss, lookup) refl
    | inr (id, hit) ↦ rw (hit, sym (same_find (meta_key m)) ∙ hit, lookup) (rw (r.0) refl)
  ]

  create-Reordered :
      (m : PacketMeta) → ((create f m).0 ≡ (create g m).0) × Reordered (create f m).1 (create g m).1
  unfolding create
  create-Reordered m = rw (r.0) (
    refl,
    (
      refl,
      same-Perm _ _ (assign-Distinct (meta_key m) _ f.by_key v.distinct)
          (assign-Distinct (meta_key m) _ g.by_key Reordered-Distinct)
          λ k.
            find-assign (meta_key m) k _ f.by_key
            ∙ ap (λ o. if key_eq (meta_key m) k then some (length g.sessions % 2 ^ 32) else o)
                (same_find k)
            ∙ sym (find-assign (meta_key m) k _ g.by_key),
    ),
  )

  module _ (now : ℕ) (t : Timeouts) (w x : Swept) (p : SweptAs now t f.sessions f.by_key w)
      (q : SweptAs now t g.sessions g.by_key x) where
    swept_find : (k : FiveTuple) → find k w.kept ≡ find k x.kept
    swept_find k =
        p.0 k
        ∙ ap (λ ss. surviving now t ss (find k f.by_key)) (r.0)
        ∙ ap (surviving now t g.sessions) (same_find k)
        ∙ sym (q.0 k)

    same_aged : (i : ℕ) (o : Option Session) → aged now t f.by_key i o ≡ aged now t g.by_key i o
    same_aged i none = refl
    same_aged i (some s) =
        ap (λ y. some (if is_id i y && expired now t s then retire s else s))
          (same_find (session_key s))

    swept_sessions : w.sessions ≡ x.sessions
    swept_sessions = get_elem?-ext w.sessions x.sessions λ i.
        p.1 i
        ∙ ap (λ ss. aged now t f.by_key i (get_elem? ss i)) (r.0)
        ∙ same_aged i (get_elem? g.sessions i)
        ∙ sym (q.1 i)

    swept_kept : Perm w.kept x.kept
    swept_kept = same-Perm w.kept x.kept p.4 q.4 swept_find

    swept_retired : w.retired ≡ x.retired
    swept_retired =
        omega (
          arith,
          p.2,
          q.2,
          Perm-length w.kept x.kept swept_kept,
          Perm-length f.by_key g.by_key (r.1),
        )

-- The order in which the index map is iterated shows in nothing but the order of what is left. Two tables with
-- the same sessions and with indexes that are permutations of each other, one of them sound: the other is sound, lookup gives the same
-- for every packet, create gives the same id, a sweep of either returns and counts the same, and what
-- create and the sweep leave are again the same sessions, with indexes that are permutations of each other.
pub tables-Reordered :
    (f g : FlowTable) (m : PacketMeta) (now : ℕ) (t : Timeouts)
    → Reordered f g
    → IsTable f
    → IsTable g
      × (lookup f m ≡ lookup g m)
      × ((create f m).0 ≡ (create g m).0)
      × Reordered (create f m).1 (create g m).1
      × Ensures
          (λ a. Ensures (λ b. Reordered a.0 b.0 × (a.1 ≡ b.1)) (age_out g now t))
          (age_out f now t)
unfolding age_out
tables-Reordered f g m now t r v =
    let u = Reordered-IsTable f g r v in
    let (same_id, both) = create-Reordered f g r v m in
    let (w, e, p) = sweep_lem now t f.by_key f.sessions v.indexed v.distinct in
    let (x, d, q) = sweep_lem now t g.by_key g.sessions u.indexed u.distinct in
    (
      u,
      lookup-Reordered f g r v m,
      same_id,
      both,
      rw (e, d)
          (
            _,
            refl,
            (
              _,
              refl,
              (
                (swept_sessions f g r v now t w x p q, swept_kept f g r v now t w x p q),
                swept_retired f g r v now t w x p q,
              ),
            ),
          ),
    )
