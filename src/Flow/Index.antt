-- ===== src/Flow/Index.antt =====
-- The map from keys to session ids of src/flow.h: the laws of find and of operator[].
use nano_ngfw.Prelude.{
  ℕ, suc, ◌≡◌, inl, inr, refl, [], ◌∷◌, none, some, arith, if◌then◌else◌, length, Bool-cases,
}
use nano_ngfw.Flow.{FiveTuple, Index, key_eq, find, assign}
use nano_ngfw.Flow.Key.{key_eq_iff}

pub find-assign :
    (k j : FiveTuple) (id : ℕ) (idx : Index)
    → find j (assign k id idx) ≡ (if key_eq k j then some id else find j idx)
unfolding find assign
find-assign k j id [] = refl
find-assign k j id ((i, n) ∷ rest) =
    ground (arith, find-assign k j id rest, key_eq_iff i k, key_eq_iff i j, key_eq_iff k j)

-- Each key stands once.
abbrev pub Distinct : Index → Type 0
Distinct [] = Unit {0}
Distinct ((k, id) ∷ rest) = (find k rest ≡ none) × Distinct rest

pub length-assign :
    (k : FiveTuple) (id : ℕ) (idx : Index)
    → find k idx ≡ none
    → length (assign k id idx) ≡ suc (length idx)
unfolding find assign
length-assign k id [] h = refl
length-assign k id ((i, n) ∷ rest) h = ground (arith, length-assign k id rest)

pub assign-Distinct :
    (k : FiveTuple) (id : ℕ) (idx : Index) → Distinct idx → Distinct (assign k id idx)
unfolding find assign
assign-Distinct k id [] d = (refl, tt)
assign-Distinct k id ((i, n) ∷ rest) d = elim (Bool-cases (key_eq i k)) [
  | inl same ↦ rw same d
  | inr other ↦ rw other (
    ground (arith, find-assign k i id rest, key_eq_iff k i, key_eq_iff i k),
    assign-Distinct k id rest d.1,
  )
]

pub find-assign_self : (k : FiveTuple) (id : ℕ) (idx : Index) → find k (assign k id idx) ≡ some id
find-assign_self k id idx = rw (find-assign k k id idx, (key_eq_iff k k).1 refl)
