-- ===== src/Capture/Whole.antt =====
-- The loop of src/main.cpp over a whole capture.
use nano_ngfw.Prelude.{
  ℕ, ◌+◌, ◌%◌, ◌^◌, ◌≤◌, ◌<◌, ◌≡◌, refl, Bool, List, [], ◌∷◌, arith, length, Ensures, some-inj, sym,
  ◌∙◌, subst,
}
use nano_ngfw.ByteView.{ByteView}
use nano_ngfw.Policy.{Policy, allow, deny, drop}
use nano_ngfw.Flow.{Timeouts, active}
use nano_ngfw.Nat.{NatPool}
use nano_ngfw.Nat.Ports.{IsPool}
use nano_ngfw.Engine.{Engine, process}
use nano_ngfw.Engine.Invariant.{IsEngine}
use nano_ngfw.Engine.Sweeping.{finish-Good}
use nano_ngfw.Engine.Pipeline.{process-Good}
use nano_ngfw.Engine.Rules.Kept.{RulesOf, finish-RulesOf, process-RulesOf}
use nano_ngfw.Engine.Accounting.{Accounted}
use nano_ngfw.Engine.Accounting.Frames.{process-Accounted, finish-Accounted}
use nano_ngfw.Engine.Translation.{Translated, finish-Translated}
use nano_ngfw.Engine.Translation.Ports.{process-Translated}
use nano_ngfw.Engine.Counting.{tally}
use nano_ngfw.Capture.{start, process_all}

-- An engine that has seen nothing is sound, whatever it is set up with.
pub start-IsEngine :
    (p : Policy) (nat : NatPool) (t : Timeouts) (midstream : Bool)
    → IsPool nat
    → IsEngine (start p nat t midstream)
start-IsEngine p nat t midstream v = record {
  table = record { indexed = tt; distinct = tt; numbered = tt; live = tt };
  nat = v;
  counted = record { allows = refl; denies = refl; drops = refl };
  created = refl;
  retired = refl;
}

-- A sound engine with this rule base: its sessions are as that says, its frames are accounted for and
-- its translations are in order.
pub record Orderly (p : Policy) (e : Engine) : Type 0 where
  pub engine : IsEngine e
  pub rules : RulesOf p e
  pub accounted : Accounted e
  pub translated : Translated e

process-Orderly :
    (p : Policy) (e : Engine) (frame : ByteView) (ts : ℕ)
    → Orderly p e
    → length e.flows.sessions < 0xffffffff
    → Ensures
        (λ e'. Orderly p e' × (length e'.flows.sessions ≤ length e.flows.sessions + 1))
        (process e frame ts)
process-Orderly p e frame ts o b =
    let (e', q, (v, _, l)) = process-Good e frame ts o.engine b in
    let (e1, q1, rules) = process-RulesOf p e frame ts o.engine b o.rules in
    let (e2, q2, accounted) = process-Accounted e frame ts o.engine b o.accounted in
    let (e3, q3, translated) = process-Translated e frame ts o.engine b o.translated in
    (
      e',
      q,
      (
        record {
          engine = v;
          rules = subst (RulesOf p) (some-inj (sym q1 ∙ q)) rules;
          accounted = subst Accounted (some-inj (sym q2 ∙ q)) accounted;
          translated = subst Translated (some-inj (sym q3 ∙ q)) translated;
        },
        l,
      ),
    )

process_all-Orderly :
    (p : Policy) (e : Engine) (frames : List (ByteView × ℕ)) (last : ℕ)
    → Orderly p e
    → length e.flows.sessions + length frames < 2 ^ 32
    → Ensures (Orderly p) (process_all e frames last)
unfolding process_all
process_all-Orderly p e [] last o b =
    let (e', q, (v, _, _)) = finish-Good e last o.engine in
    (
      e',
      q,
      record {
        engine = v;
        rules = finish-RulesOf p e last o.rules e' q;
        accounted = finish-Accounted e last o.accounted e' q;
        translated = finish-Translated e last o.translated e' q;
      },
    )
process_all-Orderly p e ((frame, ts) ∷ rest) last o b =
    let (e', q, (o', l)) = process-Orderly p e frame ts o (omega arith) in
    rw q (process_all-Orderly p e' rest ts o' (omega arith))

pub start-Orderly :
    (p : Policy) (nat : NatPool) (t : Timeouts) (midstream : Bool)
    → IsPool nat
    → nat.next_port ≡ nat.first_port + nat.in_use
    → Orderly p (start p nat t midstream)
start-Orderly p nat t midstream v h = record {
  engine = start-IsEngine p nat t midstream v;
  rules = (refl, λ i s e. cc);
  accounted = refl;
  translated = record { in_order = h; range = λ i ip port e. cc; once = λ i j ip iq port e f. cc };
}

-- What the closing statistics say, modulo 2^64: the verdicts add up to the sessions created, and these
-- are the retired ones and the active ones.
abbrev pub Balanced : Engine → Type 0
Balanced e =
    (e.counters.sessions_created % 2 ^ 64
      ≡ (e.counters.allowed + e.counters.denied + e.counters.dropped) % 2 ^ 64)
    × (e.counters.sessions_created % 2 ^ 64
        ≡ (e.counters.sessions_retired + active e.flows) % 2 ^ 64)

tally_sum : (ss : List _) → tally allow ss + tally deny ss + tally drop ss ≡ length ss
tally_sum [] = refl
tally_sum (s ∷ ss) = ground (arith, tally_sum ss)

IsEngine-Balanced : (e : Engine) → IsEngine e → Balanced e
IsEngine-Balanced e v = (
  omega (
    arith,
    v.created,
    v.counted.allows,
    v.counted.denies,
    v.counted.drops,
    tally_sum e.flows.sessions,
  ),
  omega (arith, v.created, v.retired),
)

-- A fresh engine with any rule base, timeouts and sound NAT pool whose ports are out in order processes every capture of fewer than
-- 2^32 frames to its end without a fault, and closes orderly and with counters that balance.
pub process_all-Balanced :
    (p : Policy) (nat : NatPool) (t : Timeouts) (midstream : Bool) (frames : List (ByteView × ℕ))
    → IsPool nat
    → nat.next_port ≡ nat.first_port + nat.in_use
    → length frames < 2 ^ 32
    → Ensures (λ e. Orderly p e × Balanced e) (process_all (start p nat t midstream) frames 0)
process_all-Balanced p nat t midstream frames v h b =
    let (e, q, o) =
      process_all-Orderly p (start p nat t midstream) frames 0 (start-Orderly p nat t midstream v h)
        (omega arith) in
    (e, q, (o, IsEngine-Balanced e o.engine))
