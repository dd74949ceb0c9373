-- ===== src/Engine/Steady.antt =====
-- What src/engine.cpp never changes of its engine from one frame to the next, and its count of the frames.
use nano_ngfw.Prelude.{
  ℕ, ◌≡◌, inl, inr, refl, Bool, not, ◌&&◌, get_elem?, arith, Bool-cases, IfReturns, IfReturns-bind,
  IfReturns-some, Ensures, length, ◌<◌, if◌then◌else◌,
}
use nano_ngfw.ByteView.{ByteView, empty}
use nano_ngfw.Flow.{PacketMeta, FlowTable, touch, create, age_out}
use nano_ngfw.Nat.{NatPool}
use nano_ngfw.Engine.Invariant.{IsEngine}
use nano_ngfw.Engine.Accounting.{classify-packets, count-SameFrames}
use nano_ngfw.Engine.Carried.{Carries, counted}
use nano_ngfw.Engine.Pipeline.{process-Carries}
use nano_ngfw.Engine.{
  Engine, Counters, Segment, open_session, deliver, process, finish, advanced,
  classify_and_maybe_shift,
}

-- The settings, and the number of frames seen.
pub record Steady (e e' : Engine) : Type 0 where
  pub policy : e'.policy ≡ e.policy
  pub timeouts : e'.timeouts ≡ e.timeouts
  pub midstream : e'.midstream ≡ e.midstream
  pub packets : e'.counters.packets ≡ e.counters.packets

Steady-trans : (e f g : Engine) → Steady e f → Steady f g → Steady e g
Steady-trans e f g a b = ground arith

changed-Steady :
    (e : Engine) (flows : FlowTable) (nat : NatPool) (d : Counters)
    → d.packets ≡ e.counters.packets
    → Steady e (record e { flows = flows; nat = nat; counters = d })
changed-Steady e flows nat d q = record {
  policy = refl;
  timeouts = refl;
  midstream = refl;
  packets = q;
}

deliver-Steady :
    (e : Engine) (g : Segment) (id : ℕ) (d : Bool) → IfReturns (Steady e) (deliver e g id d)
unfolding deliver
deliver-Steady e g id d = IfReturns-bind _ (touch e.flows id g.meta d) _ λ flows _.
    IfReturns-bind _ (get_elem? flows.sessions id) _ λ s _.
      elim (Bool-cases (not (advanced g d s).app_latched && not (empty g.payload))) [
        | inl more ↦ rw more (
            IfReturns-bind _
              (classify_and_maybe_shift e.policy (advanced g d s) e.counters g.payload
                (if d then (advanced g d s).resp_port else g.meta.dst_port))
              _
              λ r e.
                IfReturns-some _ (changed-Steady _ _ _ _ ((classify-packets _ _ _ _ _ r e).1.0)))
        | inr done ↦ rw done (IfReturns-some _ (changed-Steady _ _ _ _ refl))
      ]

open_session-Steady :
    (e : Engine) (m : PacketMeta) → IfReturns (λ r. Steady e r.1) (open_session e m)
unfolding open_session
open_session-Steady e m =
    IfReturns-bind _ (get_elem? (create e.flows m).1.sessions (create e.flows m).0) _
      λ s _. IfReturns-some _ (changed-Steady e _ _ _ ((count-SameFrames _ _).0))

finish-Steady : (e : Engine) (ts : ℕ) → IfReturns (Steady e) (finish e ts)
unfolding finish
finish-Steady e ts =
    IfReturns-bind _ (age_out e.flows ts e.timeouts) _
      λ r _. IfReturns-some _ (changed-Steady _ _ _ _ refl)

Steady-Carries : (s : Engine) → Carries (Steady s) (Steady s)
Steady-Carries s = record {
  notes = λ e d a h. Steady-trans s e _ h (changed-Steady e e.flows e.nat d a.packets);
  sets_aside = λ e d a h. Steady-trans s e _ h (changed-Steady e e.flows e.nat d a.packets);
  sweeps = λ e e' ts v q h. Steady-trans s e e' h (finish-Steady e ts e' q);
  opens = λ e m r v b q o h. Steady-trans s e r.1 h (open_session-Steady e m r q);
  delivers = λ e e' g id d x at q h. Steady-trans s e e' h (deliver-Steady e g id d e' q);
}

-- A frame changes no setting, and is counted.
pub process-Steady :
    (e : Engine) (frame : ByteView) (ts : ℕ)
    → IsEngine e
    → length e.flows.sessions < 0xffffffff
    → Ensures (Steady (counted e)) (process e frame ts)
process-Steady e frame ts v b =
    process-Carries (Steady (counted e)) (Steady (counted e)) (Steady-Carries (counted e)) e frame
      ts v (changed-Steady (counted e) e.flows e.nat _ refl) b
