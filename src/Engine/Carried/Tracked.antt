-- ===== src/Engine/Carried/Tracked.antt =====
-- Engine::handle_l4 of src/engine.cpp carries on what its parts carry on.
use nano_ngfw.Prelude.{
  ℕ, ◌<◌, ◌≡◌, inl, inr, refl, Bool, false, Option, none, some, arith, get_elem?, length,
  Bool-cases, Ensures, ◌>>=◌, ◌==◌,
}
use nano_ngfw.ByteView.{ByteView}
use nano_ngfw.Decode.{Ipv4Header}
use nano_ngfw.Flow.{Session, find, meta_key}
use nano_ngfw.Flow.Answer.{lookup_ok}
use nano_ngfw.Engine.{
  Engine, Counters, Segment, L4, failed, untracked, segment, inc, count_decode_failure,
  open_session, deliver, may_open, track, handle_l4,
}
use nano_ngfw.Engine.Opening.{open_session-Opened}
use nano_ngfw.Engine.Delivery.{deliver-Delivered}
use nano_ngfw.Engine.Invariant.{
  IsEngine, recount-IsEngine, Good-weaken, Grows-refl, Grows-trans, Good, Delivered-Good,
  Opened-Good,
}
use nano_ngfw.Engine.Carried.{Aside, Carries, NotOk, read_l4_ok, failure-Aside, Opened-get}

module _ (Before After : Engine → Type 0) (k : Carries Before After) where
  abbrev pub Step : ℕ → Engine → Engine → Type 0
  Step n e e' = Good n e e' × After e'

  pub Aside-Step :
      (e : Engine) (d : Counters)
      → IsEngine e
      → Before e
      → Aside 1 e.counters d
      → Ensures (Step 1 e) (some (record e { counters = d }))
  Aside-Step e d v h a = (
    _,
    refl,
    (
      (recount-IsEngine e d v a.sessions, Grows-refl e.flows.sessions, omega arith),
      k.sets_aside e d a h,
    ),
  )

  deliver-Step :
      (e : Engine) (g : Segment) (id : ℕ) (d : Bool) (s : Session)
      → IsEngine e
      → Before e
      → get_elem? e.flows.sessions id ≡ some s
      → Ensures (Step 0 e) (deliver e g id d)
  deliver-Step e g id d s v h at =
      let (e', q, x) = deliver-Delivered e g id d s at in
      (e', q, (Delivered-Good e id s e' v at x, k.delivers e e' g id d s at q h))

  open-Step :
      (e : Engine) (g : Segment)
      → IsEngine e
      → Before e
      → length e.flows.sessions < 0xffffffff
      → find (meta_key g.meta) e.flows.by_key ≡ none
      → Ensures (Step 1 e) (open_session e g.meta >>= λ r. deliver r.1 g r.0 false)
  open-Step e g v h b f =
      let (r, q, o) = open_session-Opened e g.meta v.table v.nat v.counted b f in
      let (w, grown, more) = Opened-Good e g.meta r v o in
      let (e', q', ((x, y, z), a)) =
        deliver-Step r.1 g r.0 false o.newcomer w (k.opens e g.meta r v b q o h)
          (Opened-get e g.meta r o) in
      rw (q, q')
        (
          e',
          refl,
          (
            (
              x,
              Grows-trans e.flows.sessions r.1.flows.sessions e'.flows.sessions grown y,
              omega arith,
            ),
            a,
          ),
        )

  weakly : (e : Engine) (o : Option Engine) → Ensures (Step 0 e) o → Ensures (Step 1 e) o
  weakly e o (e', q, (x, a)) = (e', q, (Good-weaken e e' x, a))

  track-Step :
      (e : Engine) (g : Segment)
      → IsEngine e
      → Before e
      → length e.flows.sessions < 0xffffffff
      → Ensures (Step 1 e) (track e g)
  unfolding track
  track-Step e g v h b = elim (lookup_ok e.flows g.meta v.table b) [
    | inl (miss, f) ↦ rw miss (elim (Bool-cases (may_open e g)) [
      | inl opens ↦ rw opens (open-Step e g v h b f)
      | inr refused ↦ rw refused (Aside-Step e _ v h (ground arith))
    ])
    | inr (id, d, s, hit, at, l) ↦
        let known : (id == 0xffffffff) ≡ false = ground arith in
        rw (hit, known) (weakly e _ (deliver-Step e g id d s v h at))
  ]

  pub handle_l4-Step :
      (e : Engine) (ip : Ipv4Header) (l4 : ByteView) (ts n : ℕ)
      → IsEngine e
      → Before e
      → length e.flows.sessions < 0xffffffff
      → Ensures (Step 1 e) (handle_l4 e ip l4 ts n)
  unfolding handle_l4
  handle_l4-Step e ip l4 ts n v h b = let (r, q, x) = read_l4_ok ip l4 ts n in rw q (each r x)
    where
      each :
          (r : L4)
          → NotOk r
          → Ensures (Step 1 e) (elim r [
            | failed st ↦ some (record e { counters = count_decode_failure (e.counters) st })
            | untracked ↦
                some (record e {
                  counters = record (e.counters) { other_l4 = inc e.counters.other_l4 };
                })
            | segment g ↦ track e g
          ])
      each (failed st) q = Aside-Step e _ v h (failure-Aside e.counters st q)
      each untracked q = Aside-Step e _ v h (ground arith)
      each (segment g) q = track-Step e g v h b
