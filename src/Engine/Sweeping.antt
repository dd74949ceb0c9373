-- ===== src/Engine/Sweeping.antt =====
-- maybe_sweep and finish of src/engine.cpp on a sound engine.
use nano_ngfw.Prelude.{
  ℕ, ◌%◌, ◌^◌, ◌≡◌, ◌∙◌, inl, inr, refl, sym, ap, some, arith, get_elem?, length, Bool-cases,
  Ensures, ◌==◌,
}
use nano_ngfw.Policy.{Verdict, allow, deny, drop}
use nano_ngfw.Flow.{Session, FlowTable, Timeouts, age_out}
use nano_ngfw.Flow.Table.{IsTable}
use nano_ngfw.Flow.Aging.{retire}
use nano_ngfw.Flow.Retire.{age_out-IsTable, age_out-Effect}
use nano_ngfw.Engine.{Engine, finish, maybe_sweep}
use nano_ngfw.Engine.Counting.{Counted, tally_same, tally}
use nano_ngfw.Engine.Delivery.{Evolves}
use nano_ngfw.Engine.Invariant.{IsEngine, Grows, Evolves-refl, Grows-refl, Good}

swept-Evolves :
    (f g : FlowTable) (now n : ℕ) (t : Timeouts)
    → IsTable f
    → age_out f now t ≡ some (g, n)
    → (i : ℕ) (s : Session) → get_elem? f.sessions i ≡ some s
    → (r : Session) × (get_elem? g.sessions i ≡ some r) × Evolves s r × (r.verdict ≡ s.verdict)
swept-Evolves f g now n t v e i s h = elim (age_out-Effect f g now n t i s v e h) [
  | inl (_, _, _, out) ↦ (retire s, out, ground arith, refl)
  | inr (inl (_, _, _, kept)) ↦ (s, kept, Evolves-refl s, refl)
  | inr (inr (_, kept)) ↦ (s, kept, Evolves-refl s, refl)
]

module _ (e : Engine) (now : ℕ) (v : IsEngine e) (g : FlowTable) (n : ℕ)
    (q : age_out e.flows now e.timeouts ≡ some (g, n))
    (len : length g.sessions ≡ length e.flows.sessions) where
  same_tally : (w : Verdict) → tally w g.sessions ≡ tally w e.flows.sessions
  same_tally w = tally_same w e.flows.sessions g.sessions len λ i s h.
      let (r, k, _, same) = swept-Evolves e.flows g now n e.timeouts v.table q i s h in (r, k, same)

  swept-Grows : Grows e.flows.sessions g.sessions
  swept-Grows i s h =
      let (r, k, x, _) = swept-Evolves e.flows g now n e.timeouts v.table q i s h in (r, k, x)

  swept-Counted : Counted e.counters g.sessions
  swept-Counted = record {
    allows = v.counted.allows ∙ ap (λ t. t % 2 ^ 64) (sym (same_tally allow));
    denies = v.counted.denies ∙ ap (λ t. t % 2 ^ 64) (sym (same_tally deny));
    drops = v.counted.drops ∙ ap (λ t. t % 2 ^ 64) (sym (same_tally drop));
  }

-- A sweep of a sound engine returns, and counts what it retires.
pub finish-Good : (e : Engine) (now : ℕ) → IsEngine e → Ensures (Good 0 e) (finish e now)
unfolding finish
finish-Good e now v =
    let (r, q, o) = age_out-IsTable e.flows now e.timeouts v.table in
    let k = swept-Counted e now v r.0 r.1 q o.2 in
    rw q (
      _,
      refl,
      (
        record {
          table = o.0;
          nat = v.nat;
          counted = record { allows = k.allows; denies = k.denies; drops = k.drops };
          created = omega (arith, v.created, o.2);
          retired = omega (arith, v.retired, o.1, o.2);
        },
        swept-Grows e now v r.0 r.1 q o.2,
        omega (arith, o.2),
      ),
    )

pub maybe_sweep-Good : (e : Engine) (now : ℕ) → IsEngine e → Ensures (Good 0 e) (maybe_sweep e now)
unfolding maybe_sweep
maybe_sweep-Good e now v = elim (Bool-cases (e.counters.packets % 128 == 0)) [
  | inl due ↦ rw due (finish-Good e now v)
  | inr later ↦ rw later (e, refl, (v, Grows-refl e.flows.sessions, omega arith))
]
