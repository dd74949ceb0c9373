-- ===== src/Engine/Isolation/Frames.antt =====
-- Engine::process of src/engine.cpp and the conversations that a frame is not part of.
use nano_ngfw.Prelude.{
  ℕ, ◌%◌, ◌<◌, ◌≡◌, ◌⊎◌, ◌∙◌, inl, inr, ◌^◌, refl, sym, ap, subst, not, Option, none, some, arith,
  length, Bool-cases, Ensures, if◌then◌else◌, ◌>>=◌, ◌==◌, some-inj, >>=-some,
}
use nano_ngfw.ByteView.{ByteView, empty_view}
use nano_ngfw.Decode.{
  Ipv4Header, no_eth, no_ipv4, no_tcp, no_udp, later_fragment, decode_eth, decode_ipv4,
}
use nano_ngfw.Decode.Ipv4.{decode_ipv4-Outcome}
use nano_ngfw.Decode.L4.{decode_eth-Outcome, decode_tcp-Outcome, decode_udp-Outcome}
use nano_ngfw.Flow.{FiveTuple, Session, meta_key, age_out}
use nano_ngfw.Flow.View.{view, unexpired, view-age_out}
use nano_ngfw.Engine.{
  Engine, L4, failed, untracked, segment, is_ok, inc, count_decode_failure, read_l4, track,
  handle_l4, process_ipv4, process_l3, process, finish, maybe_sweep,
}
use nano_ngfw.Engine.Invariant.{IsEngine, recount-IsEngine}
use nano_ngfw.Engine.Isolation.{Isolated-refl, Keeps, Moved, track-Keeps}
use nano_ngfw.Engine.Sweeping.{maybe_sweep-Good}

abbrev pub l4_key : L4 → Option FiveTuple
l4_key (segment g) = some (meta_key g.meta)
l4_key _ = none

abbrev pub ipv4_key : ByteView → Option FiveTuple
ipv4_key l3 = decode_ipv4 l3 no_ipv4 empty_view >>= λ d.
    if not (is_ok d.status)
    then none
    else if later_fragment d.out
    then none
    else read_l4 d.out d.payload 0 0 >>= l4_key

-- The conversation that a frame belongs to: none unless it is a whole or first IPv4 packet whose TCP
-- or UDP header decodes.
unfoldable pub frame_key : ByteView → Option FiveTuple
frame_key frame = decode_eth frame no_eth empty_view >>= λ d.
    if not (is_ok d.status)
    then none
    else if d.out.ethertype == 0x0800
    then ipv4_key d.payload
    else none

-- The time stamp and the length of a frame have no part in its key.
read_l4-key :
    (ip : Ipv4Header) (l4 : ByteView) (ts n : ℕ)
    → Ensures (λ r. (read_l4 ip l4 0 0 >>= l4_key) ≡ l4_key r) (read_l4 ip l4 ts n)
unfolding read_l4
read_l4-key ip l4 ts n = elim (Bool-cases (ip.protocol == 6)) [
  | inl tcp ↦
      let (d, e, _) = decode_tcp-Outcome l4 no_tcp empty_view in
      rw (tcp, e)
        (elim (Bool-cases (is_ok d.status)) [
          | inl fine ↦ rw fine (_, refl, refl)
          | inr bad ↦ rw bad (_, refl, refl)
        ])
  | inr other ↦ rw other (elim (Bool-cases (ip.protocol == 17)) [
    | inl udp ↦
        let (d, e, _) = decode_udp-Outcome l4 no_udp empty_view in
        rw (udp, e)
          (elim (Bool-cases (is_ok d.status)) [
            | inl fine ↦ rw fine (_, refl, refl)
            | inr bad ↦ rw bad (_, refl, refl)
          ])
    | inr neither ↦ rw neither (_, refl, refl)
  ])
]

handle_l4-Keeps :
    (e : Engine) (ip : Ipv4Header) (l4 : ByteView) (ts n : ℕ)
    → IsEngine e
    → length e.flows.sessions < 0xffffffff
    → Ensures (Keeps (read_l4 ip l4 0 0 >>= l4_key) e) (handle_l4 e ip l4 ts n)
unfolding handle_l4
handle_l4-Keeps e ip l4 ts n v b = let (r, q, k) = read_l4-key ip l4 ts n in rw (q, k) (each r)
  where
    each :
        (r : L4)
        → Ensures (Keeps (l4_key r) e) (elim r [
          | failed st ↦ some (record e { counters = count_decode_failure (e.counters) st })
          | untracked ↦
              some
                (record e { counters = record (e.counters) { other_l4 = inc e.counters.other_l4 } })
          | segment g ↦ track e g
        ])
    each (failed st) = (_, refl, Isolated-refl none e.flows)
    each untracked = (_, refl, Isolated-refl none e.flows)
    each (segment g) = track-Keeps e g v b

process_ipv4-Keeps :
    (e : Engine) (l3 : ByteView) (ts n : ℕ)
    → IsEngine e
    → length e.flows.sessions < 0xffffffff
    → Ensures (Keeps (ipv4_key l3) e) (process_ipv4 e l3 ts n)
unfolding process_ipv4
process_ipv4-Keeps e l3 ts n v b =
    let (d, q, _) = decode_ipv4-Outcome l3 no_ipv4 empty_view in
    rw q (elim (Bool-cases (not (is_ok d.status))) [
      | inl bad ↦ rw bad (_, refl, Isolated-refl none e.flows)
      | inr fine ↦ rw fine (elim (Bool-cases (later_fragment d.out)) [
        | inl later ↦ rw later (_, refl, Isolated-refl none e.flows)
        | inr first ↦
            rw first
              (handle_l4-Keeps _ d.out d.payload ts n (recount-IsEngine e _ v (ground arith)) b)
      ])
    ])

process_l3-Keeps :
    (e : Engine) (ethertype : ℕ) (l3 : ByteView) (ts n : ℕ)
    → IsEngine e
    → length e.flows.sessions < 0xffffffff
    → Ensures
        (Keeps (if ethertype == 0x0800 then ipv4_key l3 else none) e)
        (process_l3 e ethertype l3 ts n)
unfolding process_l3
process_l3-Keeps e ethertype l3 ts n v b = elim (Bool-cases (ethertype == 0x0800)) [
  | inl ipv4 ↦ rw ipv4 (process_ipv4-Keeps _ l3 ts n (recount-IsEngine e _ v (ground arith)) b)
  | inr other ↦ rw other (_, refl, Isolated-refl none e.flows)
]

behind_sweep-Keeps :
    (e : Engine) (frame : ByteView) (ts : ℕ)
    → IsEngine e
    → length e.flows.sessions < 0xffffffff
    → Ensures (Keeps (frame_key frame) e) (
        (decode_eth frame no_eth empty_view) >>= λ d.
        if not (is_ok d.status)
        then some (record e { counters = count_decode_failure (e.counters) d.status })
        else process_l3 e d.out.ethertype d.payload ts (frame.len % 2 ^ 32))
unfolding frame_key
behind_sweep-Keeps e frame ts v b =
    let (d, q, _) = decode_eth-Outcome frame no_eth empty_view in
    rw q (elim (Bool-cases (not (is_ok d.status))) [
      | inl bad ↦ rw bad (_, refl, Isolated-refl none e.flows)
      | inr fine ↦
          rw fine (process_l3-Keeps e d.out.ethertype d.payload ts (frame.len % 2 ^ 32) v b)
    ])

-- What the sweep before a frame leaves of a conversation.
abbrev pub swept_view : Engine → ℕ → FiveTuple → Option Session
swept_view e ts key =
    if inc e.counters.packets % 128 == 0
    then unexpired ts e.timeouts (view e.flows key)
    else view e.flows key

pub finish-view :
    (e e' : Engine) (ts : ℕ)
    → IsEngine e
    → finish e ts ≡ some e'
    → (key : FiveTuple) → view e'.flows key ≡ unexpired ts e.timeouts (view e.flows key)
unfolding finish
finish-view e e' ts v q key =
    let (r, p, made) = >>=-some (age_out e.flows ts e.timeouts) _ q in
    ap (λ (x : Engine). view x.flows key) (sym (some-inj made))
    ∙ ap (λ w. w key) (view-age_out e.flows r.0 ts r.1 e.timeouts v.table p)

maybe_sweep-view :
    (e e' : Engine) (ts : ℕ)
    → IsEngine e
    → maybe_sweep e ts ≡ some e'
    → (key : FiveTuple)
    → view e'.flows key ≡ (
        if e.counters.packets % 128 == 0
        then unexpired ts e.timeouts (view e.flows key)
        else view e.flows key)
unfolding maybe_sweep
maybe_sweep-view e e' ts v q key = elim (Bool-cases (e.counters.packets % 128 == 0)) [
  | inl due ↦ rw due (finish-view e e' ts v (sym (rw due refl) ∙ q) key)
  | inr later ↦
      let same : e ≡ e' = some-inj (sym (rw later refl) ∙ q) in
      rw later (ap (λ (x : Engine). view x.flows key) (sym same))
]

-- On a sound engine with fewer than 2^32 - 1 sessions, a frame changes no conversation but its own: what the key of any other
-- leads to is what the sweep before the frame left of it, which is all unless every 128th frame makes it drop the
-- expired ones. A frame that belongs to no conversation changes none. The frame's own conversation, if the sweep left it, is still there, with its session
-- evolved.
pub process-Isolated :
    (e e' : Engine) (frame : ByteView) (ts : ℕ) (key : FiveTuple)
    → IsEngine e
    → length e.flows.sessions < 0xffffffff
    → process e frame ts ≡ some e'
    → (frame_key frame ≡ some key) × Moved (swept_view e ts key) (view e'.flows key)
      ⊎ (view e'.flows key ≡ swept_view e ts key)
unfolding process
process-Isolated e e' frame ts key v b p =
    let v1 =
      recount-IsEngine e (record (e.counters) { packets = inc e.counters.packets }) v
        (ground arith) in
    let (e1, q, (w, _, len)) = maybe_sweep-Good _ ts v1 in
    let (e2, p', h) = behind_sweep-Keeps e1 frame ts w (omega arith) in
    let same : e2 ≡ e' = some-inj (sym (rw (q, p') refl) ∙ p) in
    let here = maybe_sweep-view _ e1 ts v1 q key in
    subst
      (λ (x : Engine).
        (frame_key frame ≡ some key) × Moved (swept_view e ts key) (view x.flows key)
        ⊎ (view x.flows key ≡ swept_view e ts key))
      same
      (subst
        (λ o. (frame_key frame ≡ some key) × Moved o (view e2.flows key) ⊎ (view e2.flows key ≡ o))
        here (h key))
