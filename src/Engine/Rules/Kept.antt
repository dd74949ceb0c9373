-- ===== src/Engine/Rules/Kept.antt =====
-- The pipeline of src/engine.cpp and what it writes into the sessions.
use nano_ngfw.Prelude.{
  set, subst, some-inj, zero, suc, List, [], ◌∷◌, ◌++◌, length, ℕ, ◌%◌, ◌^◌, ◌≡◌, ◌∙◌, sym, inl,
  inr, Bool, not, ◌&&◌, get_elem?, some, arith, Bool-cases, IfReturns, IfReturns-bind,
  IfReturns-some, get_elem?-append_end, Ensures, ◌<◌, if◌then◌else◌,
}
use nano_ngfw.ByteView.{ByteView, empty}
use nano_ngfw.Policy.{Policy}
use nano_ngfw.Flow.Aging.{retire}
use nano_ngfw.Flow.{
  Index, Swept, Timeouts, sweep, expired, put, fresh, touched, PacketMeta, Session, FlowTable,
  touch, create, age_out,
}
use nano_ngfw.Engine.{
  Engine, Segment, open_session, deliver, process, finish, judged, translated, advanced,
  classify_and_maybe_shift,
}
use nano_ngfw.Engine.Invariant.{IsEngine}
use nano_ngfw.Engine.Carried.{Carries}
use nano_ngfw.Engine.Pipeline.{process-Carries}
use nano_ngfw.Engine.Rules.{IsRuled, Keeps-IsRuled, touched-Keeps, advanced-Keeps, retire-Keeps}
use nano_ngfw.Engine.Rules.Born.{born-IsRuled}
use nano_ngfw.Engine.Rules.Shifted.{classify-IsRuled}

-- Every session of the vector is as the rule base says.
abbrev pub AllRuled : Policy → List Session → Type 0
AllRuled p ss = (i : ℕ) (s : Session) → get_elem? ss i ≡ some s → IsRuled p s

AllRuled-set :
    (p : Policy) (ss : List Session) (id : ℕ) (r : Session)
    → AllRuled p ss
    → IsRuled p r
    → AllRuled p (set ss id r)
AllRuled-set p [] id r h v i s e = cc
AllRuled-set p (x ∷ ss) zero r h v zero s e = subst (IsRuled p) (some-inj e) v
AllRuled-set p (x ∷ ss) zero r h v (suc i) s e = h (suc i) s e
AllRuled-set p (x ∷ ss) (suc id) r h v zero s e = h zero s e
AllRuled-set p (x ∷ ss) (suc id) r h v (suc i) s e =
    AllRuled-set p ss id r (λ j q g. h (suc j) q g) v i s e

-- An entry may be broken until it is written.
AllRuled-append :
    (p : Policy) (ss : List Session) (n r : Session)
    → AllRuled p ss
    → IsRuled p r
    → AllRuled p (set (ss ++ n ∷ []) (length ss) r)
AllRuled-append p [] n r h v zero s e = subst (IsRuled p) (some-inj e) v
AllRuled-append p [] n r h v (suc i) s e = cc
AllRuled-append p (x ∷ ss) n r h v zero s e = h zero s e
AllRuled-append p (x ∷ ss) n r h v (suc i) s e =
    AllRuled-append p ss n r (λ j q g. h (suc j) q g) v i s e

sweep-AllRuled :
    (p : Policy) (idx : Index) (ss : List Session) (now : ℕ) (t : Timeouts)
    → AllRuled p ss
    → IfReturns (λ (w : Swept). AllRuled p w.sessions) (sweep idx ss now t)
unfolding sweep
sweep-AllRuled p [] ss now t h = IfReturns-some _ h
sweep-AllRuled p ((k, id) ∷ rest) ss now t h = IfReturns-bind _ (get_elem? ss id) _ λ s at.
    elim (Bool-cases (expired now t s)) [
      | inl gone ↦ rw gone (
          IfReturns-bind _ (sweep rest (set ss id (retire s)) now t) _ λ w e. IfReturns-some _ (
            sweep-AllRuled p rest (set ss id (retire s)) now t
              (AllRuled-set p ss id (retire s) h
                (Keeps-IsRuled p s (retire s) (retire-Keeps s) (h id s at)))
              w e))
      | inr live ↦ rw live (
          IfReturns-bind _ (sweep rest ss now t) _
            λ w e. IfReturns-some _ (sweep-AllRuled p rest ss now t h w e))
    ]

-- An engine with this rule base, whose sessions are as it says.
abbrev pub RulesOf : Policy → Engine → Type 0
RulesOf p e = (e.policy ≡ p) × AllRuled p e.flows.sessions

pub finish-RulesOf :
    (p : Policy) (e : Engine) (ts : ℕ) → RulesOf p e → IfReturns (RulesOf p) (finish e ts)
unfolding finish age_out
finish-RulesOf p e ts (q, h) = IfReturns-bind _ (age_out e.flows ts e.timeouts) _ λ r g.
    IfReturns-some _ (
      q,
      IfReturns-bind (λ (x : FlowTable × ℕ). AllRuled p x.0.sessions)
          (sweep e.flows.by_key e.flows.sessions ts e.timeouts) _
          (λ w g'.
            IfReturns-some _
              (sweep-AllRuled p e.flows.by_key e.flows.sessions ts e.timeouts h w g'))
          r g,
    )

touch-AllRuled :
    (p : Policy) (t : FlowTable) (id : ℕ) (m : PacketMeta) (d : Bool)
    → AllRuled p t.sessions
    → IfReturns (λ (f : FlowTable). AllRuled p f.sessions) (touch t id m d)
unfolding touch put
touch-AllRuled p t id m d h = IfReturns-bind _ (get_elem? t.sessions id) _ λ s at.
    IfReturns-some _ (
      AllRuled-set p t.sessions id (touched s m d) h
        (Keeps-IsRuled p s (touched s m d) (touched-Keeps s m d) (h id s at)))

deliver-RulesOf :
    (p : Policy) (e : Engine) (g : Segment) (id : ℕ) (d : Bool)
    → RulesOf p e
    → IfReturns (RulesOf p) (deliver e g id d)
unfolding deliver put
deliver-RulesOf p e g id d (q, h) = IfReturns-bind _ (touch e.flows id g.meta d) _ λ flows f.
    let all = touch-AllRuled p e.flows id g.meta d h flows f in
    IfReturns-bind _ (get_elem? flows.sessions id) _ λ s at.
      let a = advanced g d s in
      let v = Keeps-IsRuled p s a (advanced-Keeps g d s) (all id s at) in
      elim (Bool-cases (not a.app_latched && not (empty g.payload))) [
        | inr done ↦ rw done (IfReturns-some _ (q, AllRuled-set p flows.sessions id a all v))
        | inl more ↦
            let port = if d then a.resp_port else g.meta.dst_port in
            let ruled =
              subst
                (λ y.
                  IfReturns (λ r. IsRuled p r.0)
                    (classify_and_maybe_shift y a e.counters g.payload port))
                (sym q) (classify-IsRuled p a e.counters g.payload port v (ground arith)) in
            rw more (
              IfReturns-bind _ (classify_and_maybe_shift e.policy a e.counters g.payload port) _
                λ r c. IfReturns-some _ (q, AllRuled-set p flows.sessions id r.0 all (ruled r c)))
      ]

open_session-RulesOf :
    (p : Policy) (e : Engine) (m : PacketMeta)
    → RulesOf p e
    → length e.flows.sessions < 0xffffffff
    → IfReturns (λ r. RulesOf p r.1) (open_session e m)
unfolding open_session create put
open_session-RulesOf p e m (q, h) b =
    let n = length e.flows.sessions in
    let ss = e.flows.sessions ++ fresh m n ∷ [] in
    let small : n % 2 ^ 32 ≡ n = omega arith in
    rw small (
      IfReturns-bind _ (get_elem? ss n) _ λ s at.
        let new : s ≡ fresh m n =
          some-inj (sym at ∙ get_elem?-append_end e.flows.sessions (fresh m n)) in
        let r = (translated e.nat (judged e.policy m s)).1 in
        let ruled : IsRuled p r =
          subst (λ x. IsRuled p (translated e.nat (judged e.policy m x)).1) (sym new)
            (subst (λ y. IsRuled p (translated e.nat (judged y m (fresh m n))).1) (sym q)
              (born-IsRuled p m n e.nat)) in
        IfReturns-some _ (q, AllRuled-append p e.flows.sessions (fresh m n) r h ruled))

RulesOf-Carries : (p : Policy) → Carries (RulesOf p) (RulesOf p)
RulesOf-Carries p = record {
  notes = λ e d a h. h;
  sets_aside = λ e d a h. h;
  sweeps = λ e e' ts v q h. finish-RulesOf p e ts h e' q;
  opens = λ e m r v b q o h. open_session-RulesOf p e m h b r q;
  delivers = λ e e' g id d s at q h. deliver-RulesOf p e g id d h e' q;
}

-- On a sound engine with fewer than 2^32 - 1 sessions, each of which is as the rule base says: every frame is processed, and every session, old or new, is as the rule base says again. That is: its zones are those of its end points, its rule and
-- verdict are those of the rule base for its traffic with the application as far as it is known, it is closed if its verdict turned away from allow when the
-- application came to be known, it is translated only from trust to untrust, and its application is one of five and its server name printable and only beside ssl.
pub process-RulesOf :
    (p : Policy) (e : Engine) (frame : ByteView) (ts : ℕ)
    → IsEngine e
    → length e.flows.sessions < 0xffffffff
    → RulesOf p e
    → Ensures (RulesOf p) (process e frame ts)
process-RulesOf p e frame ts v b h =
    process-Carries (RulesOf p) (RulesOf p) (RulesOf-Carries p) e frame ts v h b
