-- ===== src/Engine/Pipeline.antt =====
-- Engine::process and handle_l4 of src/engine.cpp: every frame is processed without a fault, and what its
-- parts carry on is carried on by the whole.
use nano_ngfw.Prelude.{
  ℕ, ◌%◌, ◌^◌, ◌<◌, ◌≡◌, inl, inr, refl, not, some, arith, get_elem?, length, Bool-cases, Ensures,
  if◌then◌else◌, ◌>>=◌, ◌==◌,
}
use nano_ngfw.ByteView.{ByteView, empty_view}
use nano_ngfw.Decode.{no_eth, no_ipv4, later_fragment, decode_eth}
use nano_ngfw.Decode.Ipv4.{decode_ipv4-Outcome}
use nano_ngfw.Decode.L4.{decode_eth-Outcome}
use nano_ngfw.Flow.{Session}
use nano_ngfw.Engine.{
  Engine, is_ok, inc, count_decode_failure, maybe_sweep, process_ipv4, process_l3, process,
}
use nano_ngfw.Engine.Delivery.{Evolves}
use nano_ngfw.Engine.Invariant.{IsEngine, recount-IsEngine, Good-trans, Grows-refl, Good}
use nano_ngfw.Engine.Sweeping.{finish-Good}
use nano_ngfw.Engine.Carried.{Aside, Carries, counted, failure-Aside}
use nano_ngfw.Engine.Carried.Tracked.{Step, Aside-Step, handle_l4-Step}

module _ (Before After : Engine → Type 0) (k : Carries Before After) where
  process_ipv4-Step :
      (e : Engine) (l3 : ByteView) (ts n : ℕ)
      → IsEngine e
      → Before e
      → length e.flows.sessions < 0xffffffff
      → Ensures (Step Before After k 1 e) (process_ipv4 e l3 ts n)
  unfolding process_ipv4
  process_ipv4-Step e l3 ts n v h b =
      let (d, q, _) = decode_ipv4-Outcome l3 no_ipv4 empty_view in
      rw q (elim (Bool-cases (is_ok d.status)) [
        | inr bad ↦
            rw bad (Aside-Step Before After k e _ v h (failure-Aside e.counters d.status bad))
        | inl fine ↦
            let a : Aside 0 e.counters (
                if d.out.checksum_ok
                then e.counters
                else record (e.counters) { bad_checksum = inc e.counters.bad_checksum }) =
              ground arith in
            let v' = recount-IsEngine e _ v a.sessions in
            let h' = k.notes e _ a h in
            rw fine (elim (Bool-cases (later_fragment d.out)) [
              | inl later ↦ rw later (Aside-Step Before After k _ _ v' h' (ground arith))
              | inr first ↦ rw first (handle_l4-Step Before After k _ d.out d.payload ts n v' h' b)
            ])
      ])

  process_l3-Step :
      (e : Engine) (ethertype : ℕ) (l3 : ByteView) (ts n : ℕ)
      → IsEngine e
      → Before e
      → length e.flows.sessions < 0xffffffff
      → Ensures (Step Before After k 1 e) (process_l3 e ethertype l3 ts n)
  unfolding process_l3
  process_l3-Step e ethertype l3 ts n v h b = elim (Bool-cases (ethertype == 0x0800)) [
    | inl ipv4 ↦
        let a : Aside 0 e.counters (record (e.counters) { ipv4 = inc e.counters.ipv4 }) =
          ground arith in
        rw ipv4
          (process_ipv4-Step _ l3 ts n (recount-IsEngine e _ v a.sessions) (k.notes e _ a h) b)
    | inr other ↦ rw other (Aside-Step Before After k e _ v h (ground arith))
  ]

  behind_sweep :
      (e : Engine) (frame : ByteView) (ts : ℕ)
      → IsEngine e
      → Before e
      → length e.flows.sessions < 0xffffffff
      → Ensures (Step Before After k 1 e) (
          (decode_eth frame no_eth empty_view) >>= λ d.
          if not (is_ok d.status)
          then some (record e { counters = count_decode_failure (e.counters) d.status })
          else process_l3 e d.out.ethertype d.payload ts (frame.len % 2 ^ 32))
  behind_sweep e frame ts v h b =
      let (d, q, _) = decode_eth-Outcome frame no_eth empty_view in
      rw q (elim (Bool-cases (is_ok d.status)) [
        | inr bad ↦
            rw bad (Aside-Step Before After k e _ v h (failure-Aside e.counters d.status bad))
        | inl fine ↦
            rw fine (process_l3-Step e d.out.ethertype d.payload ts (frame.len % 2 ^ 32) v h b)
      ])

  maybe_sweep-Step :
      (e : Engine) (ts : ℕ)
      → IsEngine e
      → Before e
      → Ensures (λ e'. Good 0 e e' × Before e') (maybe_sweep e ts)
  unfolding maybe_sweep
  maybe_sweep-Step e ts v h = elim (Bool-cases (e.counters.packets % 128 == 0)) [
    | inl due ↦ let (e', q, x) = finish-Good e ts v in rw due (e', q, (x, k.sweeps e e' ts v q h))
    | inr later ↦ rw later (e, refl, ((v, Grows-refl e.flows.sessions, omega arith), h))
  ]

  process-Step :
      (e : Engine) (frame : ByteView) (ts : ℕ)
      → IsEngine e
      → Before (counted e)
      → length e.flows.sessions < 0xffffffff
      → Ensures (Step Before After k 1 e) (process e frame ts)
  unfolding process
  process-Step e frame ts v h b =
      let (e1, q, ((w, g, len), h1)) =
        maybe_sweep-Step (counted e) ts (recount-IsEngine e _ v (ground arith)) h in
      let (e2, p, (x, a)) = behind_sweep e1 frame ts w h1 (omega arith) in
      rw (q, p) (e2, refl, (Good-trans 1 e e1 e2 (w, g, len) x, a))

  -- A frame is processed, and what its parts carry on holds after it.
  pub process-Carries :
      (e : Engine) (frame : ByteView) (ts : ℕ)
      → IsEngine e
      → Before (counted e)
      → length e.flows.sessions < 0xffffffff
      → Ensures After (process e frame ts)
  process-Carries e frame ts v h b =
      let (e', q, (_, a)) = process-Step e frame ts v h b in (e', q, a)

nothing : Carries (λ e. Unit {0}) (λ e. Unit {0})
nothing = record {
  notes = λ e d a h. tt;
  sets_aside = λ e d a h. tt;
  sweeps = λ e e' ts v q h. tt;
  opens = λ e m r v b q o h. tt;
  delivers = λ e e' g id d s at q h. tt;
}

pub process-Good :
    (e : Engine) (frame : ByteView) (ts : ℕ)
    → IsEngine e
    → length e.flows.sessions < 0xffffffff
    → Ensures (Good 1 e) (process e frame ts)
process-Good e frame ts v b =
    let (e', q, (x, _)) = process-Step (λ e. Unit {0}) (λ e. Unit {0}) nothing e frame ts v tt b in
    (e', q, x)

-- On a sound engine that has created fewer than 2^32 - 1 sessions, every frame is processed: no
-- assertion aborts, no read leaves the frame or the session vector, and the engine is sound again.
pub process-IsEngine :
    (e : Engine) (frame : ByteView) (ts : ℕ)
    → IsEngine e
    → length e.flows.sessions < 0xffffffff
    → Ensures IsEngine (process e frame ts)
process-IsEngine e frame ts v b = let (e', q, (x, _, _)) = process-Good e frame ts v b in (e', q, x)

-- On a sound engine with fewer than 2^32 - 1 sessions, every frame is processed and takes no session
-- away: it stays at its place with its id, initiator, responder, protocol, zones and translation, a closed
-- session stays closed, and an identified one keeps application, server name, rule and verdict.
pub process-Evolves :
    (e : Engine) (frame : ByteView) (ts i : ℕ) (s : Session)
    → IsEngine e
    → length e.flows.sessions < 0xffffffff
    → get_elem? e.flows.sessions i ≡ some s
    → Ensures (λ e'. Ensures (Evolves s) (get_elem? e'.flows.sessions i)) (process e frame ts)
process-Evolves e frame ts i s v b g =
    let (e', q, (_, grown, _)) = process-Good e frame ts v b in (e', q, grown i s g)
