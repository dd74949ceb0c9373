-- ===== src/Engine/Accounting.antt =====
-- The counters of src/engine.h against the packets of the sessions.
pub mod Frames
use nano_ngfw.Prelude.{
  ℕ, zero, suc, ◌+◌, ◌%◌, ◌^◌, ◌<◌, ◌≡◌, ◌∙◌, inl, inr, refl, ap, Bool, not, ◌&&◌, List, [], ◌∷◌,
  ◌++◌, Option, none, some, arith, get_elem?, set, length, Bool-cases, Ensures, IfReturns,
  IfReturns-bind, IfReturns-some, if◌then◌else◌, some-inj,
}
use nano_ngfw.ByteView.{ByteView, empty}
use nano_ngfw.Policy.{Policy, Verdict, verdict_eq, evaluate}
use nano_ngfw.Flow.{
  PacketMeta, Session, FlowTable, Index, Swept, Timeouts, fresh, create, touch, touched, put,
  expired, sweep, age_out,
}
use nano_ngfw.Flow.Aging.{retire}
use nano_ngfw.TcpState.{tcp_advance, udp_advance}
use nano_ngfw.Nat.{NatPool}
use nano_ngfw.AppId.{AppIdResult, classify}
use nano_ngfw.Engine.{
  Engine, Counters, Segment, inc, finish, open_session, judged, translated, deliver, advanced,
  latched, reconsider, traffic, classify_and_maybe_shift, count_verdict, uncount_verdict, process,
}
use nano_ngfw.Engine.Invariant.{IsEngine}
use nano_ngfw.Engine.Carried.{Carries, set_aside}
use nano_ngfw.Engine.Pipeline.{process-Carries}

abbrev pub packets_of : Session → ℕ
packets_of s = s.pkts_c2s + s.pkts_s2c

-- The packets of all sessions.
abbrev pub carried : List Session → ℕ
carried [] = 0
carried (s ∷ ss) = packets_of s + carried ss

-- Each frame is set aside under one reason or is a packet of one session, modulo 2^64.
abbrev pub Accounted : Engine → Type 0
Accounted e =
    e.counters.packets % 2 ^ 64 ≡ (set_aside e.counters + carried e.flows.sessions) % 2 ^ 64

-- So but for the frame that is on its way.
abbrev pub Underway : Engine → Type 0
Underway e =
    e.counters.packets % 2 ^ 64 ≡ (set_aside e.counters + carried e.flows.sessions + 1) % 2 ^ 64

pub carried-set :
    (ss : List Session) (i : ℕ) (s r : Session)
    → get_elem? ss i ≡ some s
    → carried (set ss i r) + packets_of s ≡ carried ss + packets_of r
carried-set [] i s r e = cc
carried-set (x ∷ ss) zero s r e = let same = some-inj e in omega (arith, ap packets_of same)
carried-set (x ∷ ss) (suc i) s r e = omega (arith, carried-set ss i s r e)

pub carried-append :
    (ss : List Session) (s : Session) → carried (ss ++ s ∷ []) ≡ carried ss + packets_of s
carried-append [] s = omega arith
carried-append (x ∷ ss) s = omega (arith, carried-append ss s)

sweep-carried :
    (idx : Index) (ss : List Session) (now : ℕ) (t : Timeouts)
    → IfReturns (λ (w : Swept). carried w.sessions ≡ carried ss) (sweep idx ss now t)
unfolding sweep
sweep-carried [] ss now t = IfReturns-some _ refl
sweep-carried ((k, id) ∷ rest) ss now t = IfReturns-bind _ (get_elem? ss id) _ λ s at.
    elim (Bool-cases (expired now t s)) [
      | inl gone ↦ rw gone (
          IfReturns-bind _ (sweep rest (set ss id (retire s)) now t) _ λ w e. IfReturns-some _ (
            omega (
              arith,
              sweep-carried rest (set ss id (retire s)) now t w e,
              carried-set ss id s (retire s) at,
            )))
      | inr live ↦ rw live (
          IfReturns-bind _ (sweep rest ss now t) _
            λ w e. IfReturns-some _ (sweep-carried rest ss now t w e))
    ]

pub finish-carried :
    (e : Engine) (ts : ℕ)
    → IfReturns
        (λ e'.
          (carried e'.flows.sessions ≡ carried e.flows.sessions)
          × (e'.counters.packets ≡ e.counters.packets)
          × (set_aside e'.counters ≡ set_aside e.counters))
        (finish e ts)
unfolding finish age_out
finish-carried e ts = IfReturns-bind _ (age_out e.flows ts e.timeouts) _ λ r g. IfReturns-some _ (
  IfReturns-bind (λ (x : FlowTable × ℕ). carried x.0.sessions ≡ carried e.flows.sessions)
      (sweep e.flows.by_key e.flows.sessions ts e.timeouts) _
      (λ w g'. IfReturns-some _ (sweep-carried e.flows.by_key e.flows.sessions ts e.timeouts w g'))
      r g,
  refl,
  refl,
)

-- What counting verdicts leaves alone.
abbrev pub SameFrames : Counters → Counters → Type 0
SameFrames c d = (d.packets ≡ c.packets) × (set_aside d ≡ set_aside c)

pub count-SameFrames : (c : Counters) (w : Verdict) → SameFrames c (count_verdict c w)
unfolding count_verdict
count-SameFrames c w = ground arith

recount-SameFrames :
    (c : Counters) (v w : Verdict) → SameFrames c (count_verdict (uncount_verdict c v) w)
unfolding count_verdict uncount_verdict
recount-SameFrames c v w = ground arith

pub judged-packets :
    (p : Policy) (m : PacketMeta) (nat : NatPool) (s : Session)
    → packets_of (translated nat (judged p m s)).1 ≡ packets_of s
unfolding judged translated
judged-packets p m nat s = ground arith

pub advanced-packets :
    (g : Segment) (d : Bool) (s : Session) → packets_of (advanced g d s) ≡ packets_of s
unfolding advanced tcp_advance udp_advance
advanced-packets g d s = ground arith

pub touched-packets :
    (s : Session) (m : PacketMeta) (d : Bool)
    → packets_of (touched s m d) % 2 ^ 64 ≡ (packets_of s + 1) % 2 ^ 64
unfolding touched
touched-packets s m d = ground arith

latched-packets :
    (s q : Session) (r : AppIdResult) → latched s r ≡ some q → packets_of q ≡ packets_of s
unfolding latched
latched-packets s q r e = ground arith

reconsider-packets :
    (p : Policy) (s : Session) (c : Counters)
    → (packets_of (reconsider p s c).0 ≡ packets_of s) × SameFrames c (reconsider p s c).1
unfolding reconsider
reconsider-packets p s c =
    let r = evaluate p (traffic s s.resp_port s.app) in
    elim (Bool-cases (verdict_eq r.1 s.verdict)) [
      | inl same ↦ rw same (refl, (refl, refl))
      | inr other ↦
          rw other
            (refl, recount-SameFrames (record c { app_shifts = inc c.app_shifts }) s.verdict r.1)
    ]

pub classify-packets :
    (p : Policy) (s : Session) (c : Counters) (payload : ByteView) (dst_port : ℕ)
    → IfReturns
        (λ r. (packets_of r.0 ≡ packets_of s) × SameFrames c r.1)
        (classify_and_maybe_shift p s c payload dst_port)
unfolding classify_and_maybe_shift
classify-packets p s c payload dst_port =
    IfReturns-bind _ (classify payload s.proto dst_port) _
      λ r e. IfReturns-some _ (after r (latched seen r) refl)
  where
    seen : Session
    seen = record s { l7_bytes_seen = (s.l7_bytes_seen + payload.len) % 2 ^ 32 }

    after :
        (r : AppIdResult) (o : Option Session)
        → latched seen r ≡ o
        → let q : Session × Counters = elim o [ none ↦ (seen, c) | some s' ↦ reconsider p s' c ] in
          (packets_of q.0 ≡ packets_of s) × SameFrames c q.1
    after r none e = (refl, (refl, refl))
    after r (some q) e =
        let (same, frames) = reconsider-packets p q c in (same ∙ latched-packets seen q r e, frames)
