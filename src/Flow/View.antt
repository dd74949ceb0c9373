-- ===== src/Flow/View.antt =====
-- FlowTable of src/flow.h and src/flow.cpp seen from outside: a map from conversations to sessions. Ids, positions and the
-- sessions that no key leads to any more are forgotten.
use nano_ngfw.Prelude.{
  ℕ, ◌%◌, ◌^◌, ◌<◌, ◌≡◌, ◌∙◌, inl, inr, refl, sym, ap, [], ◌∷◌, Bool, Option, none, some, arith,
  get_elem?, length, Bool-cases, Option-cases, get_elem?-set_self, get_elem?-set_ne, get_elem?-lt,
  get_elem?-append_left, get_elem?-append_end, if◌then◌else◌, ◌>>=◌,
}
use mathlib.Core.Path.{fun_ext}
use nano_ngfw.Flow.{
  FiveTuple, PacketMeta, Session, FlowTable, Timeouts, key_eq, find, meta_key, session_key, fresh,
  create, put, expired, age_out, lookup,
}
use nano_ngfw.Flow.Key.{key_eq_iff}
use nano_ngfw.Flow.Index.{find-assign}
use nano_ngfw.Flow.Table.{IsTable, Indexed-find}
use nano_ngfw.Flow.Aging.{surviving, aged, sweep_lem}

abbrev pub View : Type 0
View = FiveTuple → Option Session

-- The session that a conversation's key leads to.
unfoldable pub view : FlowTable → View
view t key = (find key t.by_key) >>= get_elem? t.sessions

abbrev pub update : FiveTuple → Session → View → View
update key s v other = if key_eq key other then some s else v other

-- The second write to a key counts.
pub update-update :
    (key : FiveTuple) (s r : Session) (v : View) → update key r (update key s v) ≡ update key r v
update-update key s r v = fun_ext λ other. elim (Bool-cases (key_eq key other)) [
  | inl same ↦ rw same refl
  | inr away ↦ rw away refl
]

-- The view without the sessions that are expired.
abbrev pub unexpired : ℕ → Timeouts → Option Session → Option Session
unexpired now t none = none
unexpired now t (some s) = if expired now t s then none else some s

pub view-found :
    (t : FlowTable) (key : FiveTuple) (id : ℕ)
    → find key t.by_key ≡ some id
    → view t key ≡ get_elem? t.sessions id
unfolding view
view-found t key id e = rw e refl

pub view-missed : (t : FlowTable) (key : FiveTuple) → find key t.by_key ≡ none → view t key ≡ none
unfolding view
view-missed t key e = rw e refl

-- In a sound table only a key that is not indexed leads nowhere.
pub view-left :
    (t : FlowTable) (key : FiveTuple) → IsTable t → view t key ≡ none → find key t.by_key ≡ none
view-left t key v h = elim (Option-cases (find key t.by_key)) [
  | inl miss ↦ miss
  | inr (id, hit) ↦
      let (s, g, _) = Indexed-find t.sessions t.by_key key id v.indexed hit in
      let at = view-found t key id hit in cc (at, g, h)
]

module _ (t : FlowTable) (m : PacketMeta) (v : IsTable t) (b : length t.sessions < 0xffffffff) where
  created_at :
      (key : FiveTuple)
      → view (create t m).1 key ≡ update (meta_key m) (fresh m (length t.sessions)) (view t) key
  unfolding view create
  created_at key =
      rw (small, find-assign (meta_key m) key (length t.sessions) t.by_key)
        (elim (Bool-cases (key_eq (meta_key m) key)) [
          | inl same ↦ rw same (get_elem?-append_end t.sessions (fresh m (length t.sessions)))
          | inr other ↦ rw other (elim (Option-cases (find key t.by_key)) [
            | inl miss ↦ rw miss refl
            | inr (id, hit) ↦
                let (s, g, _) = Indexed-find t.sessions t.by_key key id v.indexed hit in
                rw (hit, g)
                  (get_elem?-append_left t.sessions (fresh m (length t.sessions) ∷ []) id g)
          ])
        ])
    where
      small : length t.sessions % 2 ^ 32 ≡ length t.sessions
      small = omega arith

  pub view-create : view (create t m).1 ≡ update (meta_key m) (fresh m (length t.sessions)) (view t)
  view-create = fun_ext created_at

module _ (t : FlowTable) (id : ℕ) (s r : Session) (v : IsTable t)
    (hit : find (session_key s) t.by_key ≡ some id) (at : get_elem? t.sessions id ≡ some s) where
  put_at : (key : FiveTuple) → view (put t id r) key ≡ update (session_key s) r (view t) key
  unfolding view put
  put_at key = elim (Bool-cases (key_eq (session_key s) key)) [
    | inl same ↦
        let q : session_key s ≡ key = (key_eq_iff (session_key s) key).0 same in
        rw (same, ← q, hit) (get_elem?-set_self t.sessions id r (get_elem?-lt t.sessions id at))
    | inr other ↦ rw other (elim (Option-cases (find key t.by_key)) [
      | inl miss ↦ rw miss refl
      | inr (j, found) ↦
          let (x, g, own) = Indexed-find t.sessions t.by_key key j v.indexed found in
          rw found (
            get_elem?-set_ne t.sessions id j r λ q.
              let same : s ≡ x = cc (at, g, q) in
              cc (other, (key_eq_iff (session_key s) key).1 (ap session_key same ∙ sym own)))
    ])
  ]

  pub view-put : view (put t id r) ≡ update (session_key s) r (view t)
  view-put = fun_ext put_at

surviving_at :
    (f : FlowTable) (now : ℕ) (t : Timeouts) (key : FiveTuple) (rs : _)
    → IsTable f
    → ((i : ℕ) → get_elem? rs i ≡ aged now t f.by_key i (get_elem? f.sessions i))
    → (surviving now t f.sessions (find key f.by_key) >>= get_elem? rs)
      ≡ unexpired now t (view f key)
unfolding view
surviving_at f now t key rs v p = elim (Option-cases (find key f.by_key)) [
  | inl miss ↦ rw miss refl
  | inr (id, hit) ↦
      let (s, g, own) = Indexed-find f.sessions f.by_key key id v.indexed hit in
      elim (Bool-cases (expired now t s)) [
        | inl old ↦ rw (hit, g, old) refl
        | inr young ↦ rw (hit, g, young) (p id ∙ ap (aged now t f.by_key id) g ∙ ground arith)
      ]
]

-- On a sound table, a sweep that returns leaves exactly those conversations whose sessions are not
-- expired, each with the same session, and no other.
pub view-age_out :
    (f g : FlowTable) (now n : ℕ) (t : Timeouts)
    → IsTable f
    → age_out f now t ≡ some (g, n)
    → view g ≡ (λ key. unexpired now t (view f key))
unfolding view age_out
view-age_out f g now n t v e =
    let (w, q, p) = sweep_lem now t f.by_key f.sessions v.indexed v.distinct in
    let out : record { sessions = w.sessions; by_key = w.kept } ≡ g = ground (arith, q) in
    fun_ext λ key.
      ap (λ (x : FlowTable). view x key) (sym out)
      ∙ ap (λ o. o >>= get_elem? w.sessions) (p.0 key)
      ∙ surviving_at f now t key w.sessions v p.1

-- What lookup finds is what the key leads to.
pub lookup-found :
    (t : FlowTable) (m : PacketMeta) (id : ℕ) (d : Bool)
    → lookup t m ≡ some (id, d)
    → id < 0xffffffff
    → find (meta_key m) t.by_key ≡ some id
unfolding lookup
lookup-found t m id d e l = elim (Option-cases (find (meta_key m) t.by_key)) [
  | inl miss ↦ absurd (ground arith)
  | inr (j, hit) ↦ ground arith
]
