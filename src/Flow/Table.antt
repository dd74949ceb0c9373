-- ===== src/Flow/Table.antt =====
-- FlowTable of src/flow.h and src/flow.cpp: what holds of a table between two packets, and that
-- creating a session and writing to one keep it.
use nano_ngfw.Prelude.{
  ℕ, zero, suc, ◌+◌, ◌%◌, ◌^◌, ◌<◌, ◌≡◌, ◌⊎◌, inl, inr, refl, ap, ◌∙◌, true, false, List, [], ◌∷◌,
  ◌++◌, none, some, arith, length, get_elem?, set, Bool-cases, get_elem?-set_self, get_elem?-set_ne,
  get_elem?-lt, get_elem?-append_left, get_elem?-append_end, ◌==◌,
}
use nano_ngfw.Flow.{
  FiveTuple, PacketMeta, Session, is_closed, Index, FlowTable, key_eq, find, assign, meta_key,
  session_key, fresh, create, put,
}
use nano_ngfw.Flow.Key.{key_eq_iff}
use nano_ngfw.Flow.Index.{Distinct, find-assign, find-assign_self, assign-Distinct}

-- Each entry leads to a session of its key.
abbrev pub Indexed : List Session → Index → Type 0
Indexed sessions [] = Unit {0}
Indexed sessions ((k, id) ∷ rest) =
    ((s : Session) × (get_elem? sessions id ≡ some s) × (k ≡ session_key s)) × Indexed sessions rest

-- The ids are the positions, counted from n.
abbrev pub Numbered : ℕ → List Session → Type 0
Numbered n [] = Unit {0}
Numbered n (s ∷ ss) = (s.id ≡ n) × Numbered (suc n) ss

-- A session that is not closed is found by its key.
abbrev pub Findable : Index → Session → Type 0
Findable idx s = (is_closed s.state ≡ true) ⊎ (find (session_key s) idx ≡ some s.id)

abbrev pub Live : Index → List Session → Type 0
Live idx [] = Unit {0}
Live idx (s ∷ ss) = Findable idx s × Live idx ss

pub record IsTable (t : FlowTable) : Type 0 where
  pub indexed : Indexed t.sessions t.by_key
  pub distinct : Distinct t.by_key
  pub numbered : Numbered 0 t.sessions
  pub live : Live t.by_key t.sessions

pub Indexed-find :
    (ss : List Session) (idx : Index) (key : FiveTuple) (id : ℕ)
    → Indexed ss idx
    → find key idx ≡ some id
    → (s : Session) × (get_elem? ss id ≡ some s) × (key ≡ session_key s)
unfolding find
Indexed-find ss [] key id h e = cc
Indexed-find ss ((k, i) ∷ rest) key id ((s, g, q), h) e = elim (Bool-cases (key_eq k key)) [
  | inl same ↦ (s, ground arith, ground (arith, key_eq_iff k key))
  | inr other ↦ Indexed-find ss rest key id h (ground arith)
]

Indexed-append :
    (ss : List Session) (s : Session) (idx : Index) → Indexed ss idx → Indexed (ss ++ s ∷ []) idx
Indexed-append ss s [] h = tt
Indexed-append ss s ((k, i) ∷ rest) ((r, g, q), h) =
    ((r, get_elem?-append_left ss (s ∷ []) i g, q), Indexed-append ss s rest h)

Indexed-assign :
    (ss : List Session) (s : Session) (id : ℕ) (idx : Index)
    → get_elem? ss id ≡ some s
    → Indexed ss idx
    → Indexed ss (assign (session_key s) id idx)
unfolding assign
Indexed-assign ss s id [] g h = ((s, g, refl), tt)
Indexed-assign ss s id ((k, i) ∷ rest) g (e, h) = elim (Bool-cases (key_eq k (session_key s))) [
  | inl same ↦ rw same ((s, g, (key_eq_iff k (session_key s)).0 same), h)
  | inr other ↦ rw other (e, Indexed-assign ss s id rest g h)
]

Numbered-append :
    (n : ℕ) (ss : List Session) (s : Session)
    → Numbered n ss
    → s.id ≡ n + length ss
    → Numbered n (ss ++ s ∷ [])
Numbered-append n [] s h e = (omega arith, tt)
Numbered-append n (r ∷ ss) s (p, h) e = (p, Numbered-append (suc n) ss s h (omega arith))

pub Numbered-id :
    (n : ℕ) (ss : List Session) (i : ℕ) {s : Session}
    → Numbered n ss
    → get_elem? ss i ≡ some s
    → s.id ≡ n + i
Numbered-id n [] i h e = cc
Numbered-id n (r ∷ ss) zero (p, h) e = ground arith
Numbered-id n (r ∷ ss) (suc i) (p, h) e = omega (arith, Numbered-id (suc n) ss i h e)

pub Live-get :
    (idx : Index) (ss : List Session) (i : ℕ) {s : Session}
    → Live idx ss
    → get_elem? ss i ≡ some s
    → Findable idx s
Live-get idx [] i h e = cc
Live-get idx (r ∷ ss) zero (p, h) e = ground arith
Live-get idx (r ∷ ss) (suc i) (p, h) e = Live-get idx ss i h e

-- A new key hides no live session.
Live-assign :
    (k : FiveTuple) (id : ℕ) (idx : Index) (ss : List Session)
    → find k idx ≡ none
    → Live idx ss
    → Live (assign k id idx) ss
Live-assign k id idx [] e h = tt
Live-assign k id idx (s ∷ ss) e (f, h) = (
  ground (arith, find-assign k (session_key s) id idx, key_eq_iff k (session_key s)),
  Live-assign k id idx ss e h,
)

Live-append :
    (idx : Index) (ss : List Session) (s : Session)
    → Live idx ss
    → Findable idx s
    → Live idx (ss ++ s ∷ [])
Live-append idx [] s h f = (f, tt)
Live-append idx (r ∷ ss) s (p, h) f = (p, Live-append idx ss s h f)

module _ (t : FlowTable) (m : PacketMeta) (v : IsTable t)
    (e : find (meta_key m) t.by_key ≡ none) where
  added-IsTable :
      (id : ℕ)
      → id ≡ length t.sessions
      → IsTable (record {
        sessions = t.sessions ++ fresh m id ∷ [];
        by_key = assign (meta_key m) id t.by_key;
      })
  added-IsTable id q = record {
    indexed =
        Indexed-assign (t.sessions ++ fresh m id ∷ []) (fresh m id) id t.by_key
          (ap (get_elem? (t.sessions ++ fresh m id ∷ [])) q
            ∙ get_elem?-append_end t.sessions (fresh m id))
          (Indexed-append t.sessions (fresh m id) t.by_key v.indexed);
    distinct = assign-Distinct (meta_key m) id t.by_key v.distinct;
    numbered = Numbered-append 0 t.sessions (fresh m id) v.numbered (omega arith);
    live =
        Live-append (assign (meta_key m) id t.by_key) t.sessions (fresh m id)
          (Live-assign (meta_key m) id t.by_key t.sessions e v.live)
          (inr (find-assign_self (meta_key m) id t.by_key));
  }

  -- Creating a session for a key that is not in use keeps the table sound, while the ids fit.
  pub create-IsTable : length t.sessions < 0xffffffff → IsTable (create t m).1
  unfolding create
  create-IsTable b = added-IsTable (length t.sessions % 2 ^ 32) (omega arith)

-- A write that leaves the session's name, its endpoints and its end alone.
pub record Updates (s r : Session) : Type 0 where
  pub same_id : r.id ≡ s.id
  pub same_key : session_key r ≡ session_key s
  pub still_closed : (is_closed s.state ≡ false) ⊎ (is_closed r.state ≡ true)

pub Indexed-set :
    (ss : List Session) (i : ℕ) (s r : Session) (idx : Index)
    → get_elem? ss i ≡ some s
    → session_key r ≡ session_key s
    → Indexed ss idx
    → Indexed (set ss i r) idx
Indexed-set ss i s r [] g q h = tt
Indexed-set ss i s r ((k, j) ∷ rest) g q ((x, e, p), h) = (
  elim (Bool-cases (i == j)) [
    | inl same ↦ (r, ground (arith, get_elem?-set_self ss i r, get_elem?-lt ss i g), ground arith)
    | inr other ↦ (x, get_elem?-set_ne ss i j r (λ w. ground arith) ∙ e, p)
  ],
  Indexed-set ss i s r rest g q h,
)

Numbered-set :
    (n : ℕ) (ss : List Session) (i : ℕ) (s r : Session)
    → get_elem? ss i ≡ some s
    → r.id ≡ s.id
    → Numbered n ss
    → Numbered n (set ss i r)
Numbered-set n [] i s r g e h = tt
Numbered-set n (x ∷ ss) zero s r g e (p, h) = (ground arith, h)
Numbered-set n (x ∷ ss) (suc i) s r g e (p, h) = (p, Numbered-set (suc n) ss i s r g e h)

Live-set :
    (idx : Index) (ss : List Session) (i : ℕ) (r : Session)
    → Findable idx r
    → Live idx ss
    → Live idx (set ss i r)
Live-set idx [] i r f h = tt
Live-set idx (x ∷ ss) zero r f (p, h) = (f, h)
Live-set idx (x ∷ ss) (suc i) r f (p, h) = (p, Live-set idx ss i r f h)

Updates-Findable : (idx : Index) (s r : Session) → Updates s r → Findable idx s → Findable idx r
Updates-Findable idx s r u f = ground arith

-- So do the writes to a session that a packet makes.
pub put-IsTable :
    (t : FlowTable) (i : ℕ) (s r : Session)
    → IsTable t
    → get_elem? t.sessions i ≡ some s
    → Updates s r
    → IsTable (put t i r)
unfolding put
put-IsTable t i s r v g u = record {
  indexed = Indexed-set t.sessions i s r t.by_key g u.same_key v.indexed;
  distinct = v.distinct;
  numbered = Numbered-set 0 t.sessions i s r g u.same_id v.numbered;
  live =
      Live-set t.by_key t.sessions i r
        (Updates-Findable t.by_key s r u (Live-get t.by_key t.sessions i v.live g)) v.live;
}
