-- ===== src/Flow/Order.antt =====
-- The std::unordered_map of src/flow.h, whose order the source leaves open: the laws of find and of the entries.
pub mod Tables
use nano_ngfw.Prelude.{
  ℕ, zero, suc, ◌+◌, ◌%◌, ◌^◌, ◌≡◌, ◌≢◌, ◌↔◌, ◌∙◌, inl, inr, refl, sym, ap, subst, true, false,
  Bool, List, [], ◌∷◌, ◌++◌, Option, none, some, arith, length, get_elem?, Bool-cases, Option-cases,
  Ensures, some-inj, if◌then◌else◌,
}
use mathlib.Core.Logic.{∥∥₁_elim}
use mathlib.Core.List.{
  Mem, Perm, Pairwise, Nodup, mem-cons_self, mem-cons_of_mem, perm_ext_iff_of_Nodup, Memᴰ, Permᴰ,
}
use mathlib.Core.List.Perm
use mathlib.Core.List.Permᴰ
use nano_ngfw.Flow.{
  FiveTuple, PacketMeta, Session, Index, FlowTable, Timeouts, key_eq, find, assign, meta_key,
  lookup, create, age_out,
}
use nano_ngfw.Flow.Key.{key_eq_iff}
use nano_ngfw.Flow.Index.{Distinct, find-assign, assign-Distinct}
use nano_ngfw.Flow.Table.{IsTable, Indexed-find, Live-get, Findable}
use nano_ngfw.Flow.Aging.{surviving, aged, SweptAs, sweep_lem}
use nano_ngfw.Flow.Retire.{Indexed-intro, Live-intro}

Distinct-prop : (idx : Index) → IsProp (Distinct idx)
Distinct-prop [] = hlevel
Distinct-prop ((k, id) ∷ rest) = hlevel (Distinct-prop rest)

-- Entries and what find gives.
mem-found :
    (idx : Index) (k : FiveTuple) (id : ℕ) → Distinct idx → Memᴰ (k, id) idx → find k idx ≡ some id
unfolding find
mem-found [] k id d m = elim m [ ]
mem-found ((j, i) ∷ rest) k id d (Memᴰ.head e) =
    rw ((key_eq_iff j k).1 (sym (ap (λ (x : FiveTuple × ℕ). x.0) e)))
      (ap (λ (x : FiveTuple × ℕ). some x.1) (sym e))
mem-found ((j, i) ∷ rest) k id (once, d) (Memᴰ.tail m) = elim (Bool-cases (key_eq j k)) [
  | inl same ↦ cc (once, mem-found rest k id d m, ap (λ y. find y rest) ((key_eq_iff j k).0 same))
  | inr other ↦ rw other (mem-found rest k id d m)
]

found-mem : (idx : Index) (k : FiveTuple) (id : ℕ) → find k idx ≡ some id → Mem (k, id) idx
unfolding find
found-mem [] k id e = cc
found-mem ((j, i) ∷ rest) k id e = elim (Bool-cases (key_eq j k)) [
  | inl same ↦
      let key : j ≡ k = (key_eq_iff j k).0 same in
      let value : i ≡ id = some-inj (sym (rw same refl) ∙ e) in ∣ Memᴰ.head (cc (key, value)) ∣₁
  | inr other ↦ mem-cons_of_mem (j, i) (found-mem rest k id (ground arith))
]

mem_iff_found :
    (idx : Index) (k : FiveTuple) (id : ℕ) → Distinct idx → Mem (k, id) idx ↔ (find k idx ≡ some id)
mem_iff_found idx k id d = (λ m. ∥∥₁_elim m (hlevel) (mem-found idx k id d), found-mem idx k id)

Distinct-Nodup : (idx : Index) → Distinct idx → Nodup idx
Distinct-Nodup [] d = Pairwise.nil
Distinct-Nodup ((k, id) ∷ rest) (once, d) =
    Pairwise.cons
      (λ x m e. cc (once, (mem_iff_found rest k id d).0 (subst (λ y. Mem y rest) (sym e) m)))
      (Distinct-Nodup rest d)

-- Two maps that find the same have the same entries.
pub same-Perm :
    (idx jdx : Index)
    → Distinct idx
    → Distinct jdx
    → ((k : FiveTuple) → find k idx ≡ find k jdx)
    → Perm idx jdx
same-Perm idx jdx d e same =
    (perm_ext_iff_of_Nodup (Distinct-Nodup idx d) (Distinct-Nodup jdx e)).1 λ x. (
      λ m. (mem_iff_found jdx x.0 x.1 e).1 (sym (same x.0) ∙ (mem_iff_found idx x.0 x.1 d).0 m),
      λ m. (mem_iff_found idx x.0 x.1 d).1 (same x.0 ∙ (mem_iff_found jdx x.0 x.1 e).0 m),
    )

-- And conversely.
pub Perm-same :
    (idx jdx : Index)
    → Distinct idx
    → Distinct jdx
    → Perm idx jdx
    → (k : FiveTuple) → find k idx ≡ find k jdx
Perm-same idx jdx d e p k = elim (Option-cases (find k idx)) [
  | inr (id, hit) ↦
      hit ∙ sym ((mem_iff_found jdx k id e).0 ((Perm.mem_iff p).0 (found-mem idx k id hit)))
  | inl miss ↦ elim (Option-cases (find k jdx)) [
    | inl miss' ↦ miss ∙ sym miss'
    | inr (id, hit) ↦
        let hit' = (mem_iff_found idx k id d).0 ((Perm.mem_iff p).1 (found-mem jdx k id hit)) in
        cc (hit', miss)
  ]
]

absent-cons :
    (k : FiveTuple) (x : FiveTuple × ℕ) (idx : Index)
    → (find k (x ∷ idx) ≡ none) ↔ ((key_eq x.0 k ≡ false) × (find k idx ≡ none))
unfolding find
absent-cons k x idx = (
  λ h. elim (Bool-cases (key_eq x.0 k)) [
    | inl same ↦ let h' = rw same at h in cc
    | inr other ↦ (other, sym (rw other refl) ∙ h)
  ],
  λ h. rw (h.0) (h.1),
)

absent : (k : FiveTuple) (idx jdx : Index) → Permᴰ idx jdx → find k idx ≡ none → find k jdx ≡ none
absent k _ _ Permᴰ.nil h = h
absent k (a ∷ idx) (b ∷ jdx) (Permᴰ.cons e p) h =
    let (off, rest) = (absent-cons k a idx).0 h in
    (absent-cons k b jdx).1
      (ap (λ (x : FiveTuple × ℕ). key_eq x.0 k) (sym e) ∙ off, absent k idx jdx p rest)
absent k (a ∷ b ∷ idx) (c ∷ d ∷ _) (Permᴰ.swap e f) h =
    let (off, rest) = (absent-cons k a (b ∷ idx)).0 h in
    let (off', rest') = (absent-cons k b idx).0 rest in
    (absent-cons k c (d ∷ idx)).1 (
      ap (λ (x : FiveTuple × ℕ). key_eq x.0 k) (sym f) ∙ off',
      (absent-cons k d idx).1 (ap (λ (x : FiveTuple × ℕ). key_eq x.0 k) (sym e) ∙ off, rest'),
    )
absent k idx jdx (Permᴰ.trans {l₂ = l} p q) h = absent k l jdx q (absent k idx l p h)

Distinct-moved : (idx jdx : Index) → Permᴰ idx jdx → Distinct idx → Distinct jdx
Distinct-moved _ _ Permᴰ.nil d = tt
Distinct-moved (a ∷ idx) (b ∷ jdx) (Permᴰ.cons e p) (once, d) = (
  ap (λ (x : FiveTuple × ℕ). find x.0 jdx) (sym e) ∙ absent a.0 idx jdx p once,
  Distinct-moved idx jdx p d,
)
Distinct-moved (a ∷ b ∷ idx) (c ∷ d' ∷ _) (Permᴰ.swap e f) (once, (once', d)) =
    let (off, rest) = (absent-cons a.0 b idx).0 once in
    let apart : key_eq a.0 b.0 ≡ false = elim (Bool-cases (key_eq a.0 b.0)) [
      | inr other ↦ other
      | inl same ↦ cc (off, (key_eq_iff b.0 a.0).1 (sym ((key_eq_iff a.0 b.0).0 same)))
    ] in
    subst (λ x. Distinct (x ∷ d' ∷ idx)) f
      (subst (λ x. Distinct (b ∷ x ∷ idx)) e ((absent-cons b.0 a idx).1 (apart, once'), (rest, d)))
Distinct-moved idx jdx (Permᴰ.trans {l₂ = l} p q) d =
    Distinct-moved l jdx q (Distinct-moved idx l p d)

length-moved : (idx jdx : Index) → Permᴰ idx jdx → length idx ≡ length jdx
length-moved _ _ Permᴰ.nil = refl
length-moved (a ∷ idx) (b ∷ jdx) (Permᴰ.cons e p) = ap suc (length-moved idx jdx p)
length-moved (a ∷ b ∷ idx) (c ∷ d ∷ _) (Permᴰ.swap e f) = refl
length-moved idx jdx (Permᴰ.trans {l₂ = l} p q) = length-moved idx l p ∙ length-moved l jdx q

pub Perm-Distinct : (idx jdx : Index) → Perm idx jdx → Distinct idx → Distinct jdx
Perm-Distinct idx jdx p d = ∥∥₁_elim p (Distinct-prop jdx) (λ q. Distinct-moved idx jdx q d)

pub Perm-length : (idx jdx : Index) → Perm idx jdx → length idx ≡ length jdx
Perm-length idx jdx p = ∥∥₁_elim p (hlevel) (length-moved idx jdx)
