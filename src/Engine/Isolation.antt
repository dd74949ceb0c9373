-- ===== src/Engine/Isolation.antt =====
-- Engine::handle_l4 of src/engine.cpp from the lookup on, and the conversations that a segment is not part of.
pub mod Frames
use nano_ngfw.Prelude.{
  ℕ, ◌%◌, ◌<◌, ◌≡◌, ◌≢◌, ◌⊎◌, ◌∙◌, inl, inr, refl, sym, ap, subst, Bool, true, false, not, Option,
  none, some, arith, get_elem?, length, Bool-cases, Ensures, if◌then◌else◌, ◌>>=◌, ◌==◌, some-inj,
}
use nano_ngfw.ByteView.{ByteView, empty_view}
use nano_ngfw.Decode.{
  Ipv4Header, no_eth, no_ipv4, no_tcp, no_udp, later_fragment, decode_eth, decode_ipv4,
}
use nano_ngfw.Decode.Ipv4.{decode_ipv4-Outcome}
use nano_ngfw.Decode.L4.{decode_eth-Outcome, decode_tcp-Outcome, decode_udp-Outcome}
use nano_ngfw.Flow.{
  FiveTuple, PacketMeta, Session, FlowTable, find, key_eq, meta_key, session_key, put, age_out,
  lookup,
}
use nano_ngfw.Flow.Key.{key_eq_iff}
use nano_ngfw.Flow.Table.{IsTable, Indexed-find}
use nano_ngfw.Flow.Answer.{lookup_ok}
use nano_ngfw.Flow.View.{
  view, update, unexpired, view-found, view-put, view-age_out, lookup-found, view-missed,
}
use nano_ngfw.Engine.{
  Engine, Segment, L4, failed, untracked, segment, is_ok, inc, count_decode_failure, read_l4,
  open_session, deliver, may_open, track, handle_l4, process_ipv4, process_l3, process, finish,
  maybe_sweep,
}
use nano_ngfw.Engine.Opening.{Opened, open_session-Opened}
use nano_ngfw.Engine.Delivery.{Evolves, Delivered, deliver-Delivered}
use nano_ngfw.Engine.Carried.{Opened-get}
use nano_ngfw.Engine.Invariant.{IsEngine, recount-IsEngine}

-- What a packet may do to its own conversation.
abbrev pub Moved : Option Session → Option Session → Type 0
Moved none o = Unit {0}
Moved (some s) o = Ensures (Evolves s) o

-- Every conversation but the one named is as it was; that one stays, if it was there.
abbrev pub Isolated : Option FiveTuple → FlowTable → FlowTable → Type 0
Isolated k f g =
    (key : FiveTuple) → (k ≡ some key) × Moved (view f key) (view g key) ⊎ (view g key ≡ view f key)

update-Isolated :
    (k : FiveTuple) (r : Session) (f g : FlowTable)
    → view g ≡ update k r (view f)
    → Moved (view f k) (some r)
    → Isolated (some k) f g
update-Isolated k r f g e h key = elim (Bool-cases (key_eq k key)) [
  | inl same ↦
      let q : k ≡ key = (key_eq_iff k key).0 same in
      inl (
        ap some q,
        subst (λ x. Moved (view f x) (view g x)) q
            (subst (Moved (view f k)) (sym (ap (λ w. w k) e ∙ rw ((key_eq_iff k k).1 refl) refl))
              h),
      )
  | inr other ↦ inr (ap (λ w. w key) e ∙ rw other refl)
]

pub Isolated-refl : (k : Option FiveTuple) (f : FlowTable) → Isolated k f f
Isolated-refl k f key = inr refl

module _ (e : Engine) (g : Segment) (v : IsTable e.flows) where
  Delivered-Isolated :
      (id : ℕ) (s : Session) (e' : Engine)
      → get_elem? e.flows.sessions id ≡ some s
      → find (session_key s) e.flows.by_key ≡ some id
      → Delivered e id s e'
      → Isolated (some (session_key s)) e.flows e'.flows
  Delivered-Isolated id s e' at hit (r, q, (x, _, _), _, _, _) =
      update-Isolated (session_key s) r e.flows e'.flows
        (ap view q ∙ view-put e.flows id s r v hit at)
        (subst (λ o. Moved o (some r)) (sym (view-found e.flows (session_key s) id hit ∙ at))
          (r, refl, x))

  Opened-Isolated :
      (r : ℕ × Engine) (e' : Engine)
      → (o : Opened e g.meta r) → Isolated (some (session_key o.newcomer)) r.1.flows e'.flows
      → view e.flows (meta_key g.meta) ≡ none
      → Isolated (some (meta_key g.meta)) e.flows e'.flows
  Opened-Isolated r e' o h none' key = elim (Bool-cases (key_eq (meta_key g.meta) key)) [
    | inl same ↦
        let q : meta_key g.meta ≡ key = (key_eq_iff (meta_key g.meta) key).0 same in
        inl (
          ap some q,
          subst (λ o. Moved o (view e'.flows key)) (sym (ap (view e.flows) (sym q) ∙ none')) tt,
        )
    | inr other ↦ elim (h key) [
      | inl (q, _) ↦
          let same : meta_key g.meta ≡ key = sym o.own ∙ some-inj q in
          cc (other, (key_eq_iff (meta_key g.meta) key).1 same)
      | inr q ↦ inr (q ∙ ap (λ w. w key) o.seen ∙ rw other refl)
    ]
  ]

abbrev pub Keeps : Option FiveTuple → Engine → Engine → Type 0
Keeps k e e' = Isolated k e.flows e'.flows

open-Keeps :
    (e : Engine) (g : Segment)
    → IsEngine e
    → length e.flows.sessions < 0xffffffff
    → find (meta_key g.meta) e.flows.by_key ≡ none
    → Ensures
        (Keeps (some (meta_key g.meta)) e)
        (open_session e g.meta >>= λ r. deliver r.1 g r.0 false)
open-Keeps e g v b miss =
    let (r, q, o) = open_session-Opened e g.meta v.table v.nat v.counted b miss in
    let at = Opened-get e g.meta r o in
    let (e', p, x) = deliver-Delivered r.1 g r.0 false o.newcomer at in
    let hit = ap (λ k. find k r.1.flows.by_key) o.own ∙ o.found in
    rw (q, p)
      (
        e',
        refl,
        Opened-Isolated e g v.table r e' o
            (Delivered-Isolated r.1 g o.table r.0 o.newcomer e' at hit x)
            (view-missed e.flows (meta_key g.meta) miss),
      )

known-Keeps :
    (e : Engine) (g : Segment) (id : ℕ) (d : Bool) (s : Session)
    → IsEngine e
    → lookup e.flows g.meta ≡ some (id, d)
    → get_elem? e.flows.sessions id ≡ some s
    → id < 0xffffffff
    → Ensures (Keeps (some (meta_key g.meta)) e) (deliver e g id d)
known-Keeps e g id d s v found at l =
    let hit = lookup-found e.flows g.meta id d found l in
    let (x, at', own) =
      Indexed-find e.flows.sessions e.flows.by_key (meta_key g.meta) id v.table.indexed hit in
    let same : x ≡ s = cc (at, at') in
    let key : meta_key g.meta ≡ session_key s = own ∙ ap session_key same in
    let (e', q, y) = deliver-Delivered e g id d s at in
    (
      e',
      q,
      subst (λ k. Isolated (some k) e.flows e'.flows) (sym key)
          (Delivered-Isolated e g v.table id s e' at
            (ap (λ k. find k e.flows.by_key) (sym key) ∙ hit) y),
    )

pub track-Keeps :
    (e : Engine) (g : Segment)
    → IsEngine e
    → length e.flows.sessions < 0xffffffff
    → Ensures (Keeps (some (meta_key g.meta)) e) (track e g)
unfolding track
track-Keeps e g v b = elim (lookup_ok e.flows g.meta v.table b) [
  | inl (miss, f) ↦ rw miss (elim (Bool-cases (may_open e g)) [
    | inl opens ↦ rw opens (open-Keeps e g v b f)
    | inr refused ↦ rw refused (_, refl, Isolated-refl _ e.flows)
  ])
  | inr (id, d, s, hit, h, l) ↦
      let known : (id == 0xffffffff) ≡ false = ground arith in
      rw (hit, known) (known-Keeps e g id d s v hit h l)
]
