-- ===== src/Capture/Idle.antt =====
-- The loop of src/main.cpp over the frames that follow the last one of a conversation: Engine::process of
-- src/engine.cpp sweeps before every 128th of them.
use nano_ngfw.Prelude.{
  ℕ, ◌+◌, ◌-◌, ◌%◌, ◌^◌, ◌≤◌, ◌<◌, ◌≡◌, ◌≢◌, ◌⊎◌, ◌∙◌, inl, inr, refl, sym, ap, subst, Bool, true,
  false, List, [], ◌∷◌, Option, none, some, arith, length, get_elem?, Ensures, Bool-cases,
  if◌then◌else◌, ◌>>=◌, ◌==◌, some-inj,
}
use nano_ngfw.ByteView.{ByteView}
use nano_ngfw.Flow.{FiveTuple, Session, is_closed, find, Timeouts, expired, session_key}
use nano_ngfw.Flow.Table.{Live-get, Indexed-find}
use nano_ngfw.Flow.View.{view, unexpired, view-found, view-left}
use nano_ngfw.Engine.{Engine, inc, process}
use nano_ngfw.Engine.Invariant.{IsEngine, Grows, Grows-refl, Grows-trans}
use nano_ngfw.Engine.Pipeline.{process-Good}
use nano_ngfw.Engine.Carried.{counted}
use nano_ngfw.Engine.Steady.{Steady, process-Steady}
use nano_ngfw.Engine.Isolation.Frames.{frame_key, swept_view, process-Isolated}

-- The calls of process that the loop makes for these frames.
unfoldable pub feed : Engine → List (ByteView × ℕ) → Option Engine
feed e [] = some e
feed e ((frame, ts) ∷ rest) = process e frame ts >>= λ e'. feed e' rest

-- Frames of other conversations, at times at which the session is expired.
abbrev pub Quiet : FiveTuple → Timeouts → Session → List (ByteView × ℕ) → Type 0
Quiet key t s [] = Unit {0}
Quiet key t s ((frame, ts) ∷ rest) =
    (frame_key frame ≢ some key) × (expired ts t s ≡ true) × Quiet key t s rest

-- How many frames there are to the next sweep.
abbrev pub distance : Engine → ℕ
distance e = 128 - e.counters.packets % 128

-- The conversation is gone, or goes with one of the next n frames.
abbrev Waits : FiveTuple → Session → ℕ → Engine → Type 0
Waits key s n e = (view e.flows key ≡ none) ⊎ (view e.flows key ≡ some s) × (distance e ≤ n)

none_swept : (b : Bool) (o : Option Session) → o ≡ none → (if b then o else none) ≡ none
none_swept b o e = ground arith

nearer :
    (p n : ℕ)
    → ((p + 1) % 2 ^ 64 % 128 == 0) ≡ false
    → 128 - p % 128 ≤ n + 1
    → 128 - (p + 1) % 2 ^ 64 % 128 ≤ n
nearer p n later near = ground arith

module _ (key : FiveTuple) (s : Session) (e e' : Engine) (frame : ByteView) (ts n : ℕ)
    (away : frame_key frame ≢ some key) (old : expired ts e.timeouts s ≡ true)
    (st : e'.counters.packets ≡ inc e.counters.packets)
    (here : view e'.flows key ≡ swept_view e ts key) where
  Waits-step : Waits key s (n + 1) e → Waits key s n e'
  Waits-step (inl gone) = inl (
      here
      ∙ rw gone
          (none_swept (inc e.counters.packets % 128 == 0) (unexpired ts e.timeouts none) refl))
  Waits-step (inr (at, near)) = elim (Bool-cases (inc e.counters.packets % 128 == 0)) [
    | inl due ↦ inl (here ∙ rw (due, at, old) refl)
    | inr later ↦ inr (here ∙ rw (later, at) refl, rw st (nearer e.counters.packets n later near))
  ]

gone : (key : FiveTuple) (s : Session) (e : Engine) → Waits key s 0 e → view e.flows key ≡ none
gone key s e (inl h) = h
gone key s e (inr (_, near)) = absurd (omega arith)

others :
    (key : FiveTuple) (frame : ByteView) (e e' : Engine) (ts : ℕ) {A : Type 0}
    → frame_key frame ≢ some key
    → (frame_key frame ≡ some key) × A ⊎ (view e'.flows key ≡ swept_view e ts key)
    → view e'.flows key ≡ swept_view e ts key
others key frame e e' ts away (inl (q, _)) = absurd (away q)
others key frame e e' ts away (inr q) = q

feed-Waits :
    (e : Engine) (frames : List (ByteView × ℕ)) (key : FiveTuple) (s : Session)
    → IsEngine e
    → length e.flows.sessions + length frames < 2 ^ 32
    → Quiet key e.timeouts s frames
    → Waits key s (length frames) e
    → Ensures
        (λ e'. IsEngine e' × Grows e.flows.sessions e'.flows.sessions × (view e'.flows key ≡ none))
        (feed e frames)
unfolding feed
feed-Waits e [] key s v b quiet w = (e, refl, (v, Grows-refl e.flows.sessions, gone key s e w))
feed-Waits e ((frame, ts) ∷ rest) key s v b (away, old, quiet) w =
    let (e1, q, (v1, grown, l)) = process-Good e frame ts v (omega arith) in
    let (e1', q1, st') = process-Steady e frame ts v (omega arith) in
    let st = subst (Steady (counted e)) (some-inj (sym q1 ∙ q)) st' in
    let here =
      others key frame e e1 ts away (process-Isolated e e1 frame ts key v (omega arith) q) in
    let (e2, p, (v2, more, none')) =
      feed-Waits e1 rest key s v1 (omega arith)
        (subst (λ t. Quiet key t s rest) (sym st.timeouts) quiet)
        (Waits-step key s e e1 frame ts (length rest) away old st.packets here
          (subst (λ n. Waits key s n e) (omega arith) w)) in
    rw q (
      e2,
      p,
      (v2, Grows-trans e.flows.sessions e1.flows.sessions e2.flows.sessions grown more, none'),
    )

-- A conversation that gets no more packets does not stay. On a sound engine, with fewer than 2^32 sessions and frames
-- together: if a conversation's key leads to a session, and 128 frames or more follow, none of them the conversation's own and each at a time
-- at which the session is expired, then all of them are processed, after them the key leads to no session, and the session is closed at its
-- place in the vector.
pub feed-idle :
    (e : Engine) (frames : List (ByteView × ℕ)) (key : FiveTuple) (id : ℕ) (s : Session)
    → IsEngine e
    → length e.flows.sessions + length frames < 2 ^ 32
    → find key e.flows.by_key ≡ some id
    → get_elem? e.flows.sessions id ≡ some s
    → 128 ≤ length frames
    → Quiet key e.timeouts s frames
    → Ensures
        (λ e'.
          (find key e'.flows.by_key ≡ none)
          × Ensures (λ r. is_closed r.state ≡ true) (get_elem? e'.flows.sessions id))
        (feed e frames)
feed-idle e frames key id s v b hit at many quiet =
    let (e', q, (v', grown, left)) =
      feed-Waits e frames key s v b quiet (inr (view-found e.flows key id hit ∙ at, omega arith)) in
    let out = view-left e'.flows key v'.table left in
    let (x, at', own) = Indexed-find e.flows.sessions e.flows.by_key key id v.table.indexed hit in
    let (r, there, evolved) = grown id s at in
    let closes : is_closed r.state ≡ true =
      elim (Live-get e'.flows.by_key e'.flows.sessions id v'.table.live there) [
        | inl c ↦ c
        | inr found ↦
            let same : session_key r ≡ key =
              evolved.same_key ∙ ap session_key (some-inj (sym at ∙ at')) ∙ sym own in
            cc (found, out, ap (λ k. find k e'.flows.by_key) same)
      ] in
    (e', q, (out, (r, there, closes)))
