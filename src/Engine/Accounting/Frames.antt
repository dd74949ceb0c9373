-- ===== src/Engine/Accounting/Frames.antt =====
-- Engine::process of src/engine.cpp and the account of its frames.
use nano_ngfw.Prelude.{
  ℕ, ◌+◌, ◌%◌, ◌^◌, ◌<◌, ◌≡◌, inl, inr, refl, Bool, not, ◌&&◌, [], ◌∷◌, ◌++◌, arith, get_elem?,
  length, Bool-cases, Ensures, IfReturns, IfReturns-bind, IfReturns-some, if◌then◌else◌,
}
use nano_ngfw.ByteView.{ByteView, empty}
use nano_ngfw.Flow.{PacketMeta, FlowTable, fresh, create, touch, touched, put}
use nano_ngfw.Engine.{
  Engine, Segment, inc, finish, open_session, judged, translated, deliver, advanced,
  classify_and_maybe_shift, process,
}
use nano_ngfw.Engine.Invariant.{IsEngine}
use nano_ngfw.Engine.Carried.{Carries}
use nano_ngfw.Engine.Pipeline.{process-Carries}
use nano_ngfw.Engine.Accounting.{
  carried, Accounted, Underway, SameFrames, carried-set, carried-append, finish-carried,
  count-SameFrames, judged-packets, advanced-packets, touched-packets, classify-packets,
}

touch-carried :
    (t : FlowTable) (id : ℕ) (m : PacketMeta) (d : Bool)
    → IfReturns
        (λ (f : FlowTable). carried f.sessions % 2 ^ 64 ≡ (carried t.sessions + 1) % 2 ^ 64)
        (touch t id m d)
unfolding touch put
touch-carried t id m d = IfReturns-bind _ (get_elem? t.sessions id) _ λ s at.
    IfReturns-some _
      (omega (arith, carried-set t.sessions id s (touched s m d) at, touched-packets s m d))

-- What the delivery of a packet adds.
abbrev OneMore : Engine → Engine → Type 0
OneMore e e' =
    (carried e'.flows.sessions % 2 ^ 64 ≡ (carried e.flows.sessions + 1) % 2 ^ 64)
    × SameFrames e.counters e'.counters

deliver-OneMore :
    (e : Engine) (g : Segment) (id : ℕ) (d : Bool) → IfReturns (OneMore e) (deliver e g id d)
unfolding deliver touch put
deliver-OneMore e g id d = IfReturns-bind _ (touch e.flows id g.meta d) _ λ flows f.
    IfReturns-bind _ (get_elem? flows.sessions id) _ λ s at.
      let more = touch-carried e.flows id g.meta d flows f in
      let a = advanced g d s in
      let same = advanced-packets g d s in
      elim (Bool-cases (not a.app_latched && not (empty g.payload))) [
        | inr done ↦ rw done (
            IfReturns-some _
              (omega (arith, more, same, carried-set flows.sessions id s a at), (refl, refl)))
        | inl unknown ↦
            let port = if d then a.resp_port else g.meta.dst_port in
            rw unknown (
              IfReturns-bind _ (classify_and_maybe_shift e.policy a e.counters g.payload port) _
                λ r c.
                  let (kept, frames) = classify-packets e.policy a e.counters g.payload port r c in
                  IfReturns-some _ (
                    omega (arith, more, same, kept, carried-set flows.sessions id s r.0 at),
                    frames,
                  ))
      ]

open_session-SameTotal :
    (e : Engine) (m : PacketMeta)
    → IfReturns
        (λ r.
          (carried r.1.flows.sessions ≡ carried e.flows.sessions)
          × SameFrames e.counters r.1.counters)
        (open_session e m)
unfolding open_session create put
open_session-SameTotal e m =
    let id = length e.flows.sessions % 2 ^ 32 in
    let ss = e.flows.sessions ++ fresh m id ∷ [] in
    IfReturns-bind _ (get_elem? ss id) _ λ s at.
      let r = (translated e.nat (judged e.policy m s)).1 in
      IfReturns-some _ (
        omega (
          arith,
          carried-set ss id s r at,
          carried-append e.flows.sessions (fresh m id),
          judged-packets e.policy m e.nat s,
        ),
        count-SameFrames
            (record (e.counters) { sessions_created = inc e.counters.sessions_created })
            (judged e.policy m s).verdict,
      )

accounts : Carries Underway Accounted
accounts = record {
  notes = λ e d a h. omega (arith, a.packets, a.aside, h);
  sets_aside = λ e d a h. omega (arith, a.packets, a.aside, h);
  sweeps = λ e e' ts v q h. let x = finish-carried e ts e' q in omega (arith, x, h);
  opens = λ e m r v b q o h. let x = open_session-SameTotal e m r q in omega (arith, x, h);
  delivers = λ e e' g id d s at q h. let x = deliver-OneMore e g id d e' q in omega (arith, x, h);
}

-- No frame is lost or counted twice. On a sound engine with fewer than 2^32 - 1 sessions whose frames are accounted for, every frame is processed, and
-- the frames are accounted for again: modulo 2^64, their number is that of those set aside as
-- malformed, of another protocol than IPv4, TCP and UDP, as later fragments or as out of state, plus the packets of all sessions.
pub process-Accounted :
    (e : Engine) (frame : ByteView) (ts : ℕ)
    → IsEngine e
    → length e.flows.sessions < 0xffffffff
    → Accounted e
    → Ensures Accounted (process e frame ts)
process-Accounted e frame ts v b h =
    process-Carries Underway Accounted accounts e frame ts v (omega (arith, h)) b

-- The closing sweep keeps the account.
pub finish-Accounted : (e : Engine) (ts : ℕ) → Accounted e → IfReturns Accounted (finish e ts)
finish-Accounted e ts h e' q = let x = finish-carried e ts e' q in omega (arith, x, h)
