-- ===== src/Engine/Counting.antt =====
-- The verdict counters of src/engine.h against the sessions of the table.
use nano_ngfw.Prelude.{
  ℕ, zero, suc, ◌+◌, ◌%◌, ◌^◌, ◌≡◌, refl, List, [], ◌∷◌, ◌++◌, some, arith, if◌then◌else◌,
  get_elem?, set, length, ap, ◌∙◌,
}
use nano_ngfw.Policy.{Verdict, allow, deny, drop, verdict_eq}
use nano_ngfw.Flow.{Session}
use nano_ngfw.Engine.{Counters, count_verdict, uncount_verdict}

abbrev pub one : Verdict → Verdict → ℕ
one v w = if verdict_eq v w then 1 else 0

-- How many sessions have the verdict.
abbrev pub tally : Verdict → List Session → ℕ
tally v [] = 0
tally v (s ∷ ss) = one s.verdict v + tally v ss

pub tally-append :
    (v : Verdict) (ss : List Session) (s : Session)
    → tally v (ss ++ s ∷ []) ≡ tally v ss + one s.verdict v
tally-append v [] s = omega arith
tally-append v (r ∷ ss) s = omega (arith, tally-append v ss s)

pub tally-set :
    (v : Verdict) (ss : List Session) (i : ℕ) (s r : Session)
    → get_elem? ss i ≡ some s
    → tally v (set ss i r) + one s.verdict v ≡ tally v ss + one r.verdict v
tally-set v [] i s r e = cc
tally-set v (x ∷ ss) zero s r e = ground arith
tally-set v (x ∷ ss) (suc i) s r e = omega (arith, tally-set v ss i s r e)

-- Each verdict counter is the number of sessions with that verdict, modulo 2^64.
pub record Counted (c : Counters) (ss : List Session) : Type 0 where
  pub allows : c.allowed % 2 ^ 64 ≡ tally allow ss % 2 ^ 64
  pub denies : c.denied % 2 ^ 64 ≡ tally deny ss % 2 ^ 64
  pub drops : c.dropped % 2 ^ 64 ≡ tally drop ss % 2 ^ 64

-- The counters move one session from the verdict v to the verdict w.
pub record Moves (c d : Counters) (v w : Verdict) : Type 0 where
  pub allows : (d.allowed + one v allow) % 2 ^ 64 ≡ (c.allowed + one w allow) % 2 ^ 64
  pub denies : (d.denied + one v deny) % 2 ^ 64 ≡ (c.denied + one w deny) % 2 ^ 64
  pub drops : (d.dropped + one v drop) % 2 ^ 64 ≡ (c.dropped + one w drop) % 2 ^ 64

pub count-Counted :
    (c : Counters) (ss : List Session) (s : Session)
    → Counted c ss
    → Counted (count_verdict c s.verdict) (ss ++ s ∷ [])
unfolding count_verdict
count-Counted c ss s k =
    ground (arith, tally-append allow ss s, tally-append deny ss s, tally-append drop ss s)

pub recount-Moves :
    (c : Counters) (v w : Verdict) → Moves c (count_verdict (uncount_verdict c v) w) v w
unfolding count_verdict uncount_verdict
recount-Moves c v w = ground arith

pub Moves-Counted :
    (c d : Counters) (ss : List Session) (i : ℕ) (s r : Session)
    → get_elem? ss i ≡ some s
    → Counted c ss
    → Moves c d s.verdict r.verdict
    → Counted d (set ss i r)
Moves-Counted c d ss i s r e k m = record {
  allows = omega (arith, k, m, tally-set allow ss i s r e);
  denies = omega (arith, k, m, tally-set deny ss i s r e);
  drops = omega (arith, k, m, tally-set drop ss i s r e);
}

abbrev pub SameTotals : Counters → Counters → Type 0
SameTotals c d =
    (d.sessions_created ≡ c.sessions_created) × (d.sessions_retired ≡ c.sessions_retired)

pub recount-SameTotals :
    (c : Counters) (v w : Verdict) → SameTotals c (count_verdict (uncount_verdict c v) w)
unfolding count_verdict uncount_verdict
recount-SameTotals c v w = ground arith

pub count-SameTotals : (c : Counters) (v : Verdict) → SameTotals c (count_verdict c v)
unfolding count_verdict
count-SameTotals c v = ground arith

-- A table whose sessions keep their places and verdicts has the same tallies.
pub tally_same :
    (v : Verdict) (ss rs : List Session)
    → length rs ≡ length ss
    → ((i : ℕ) (s : Session)
        → get_elem? ss i ≡ some s
        → (r : Session) × (get_elem? rs i ≡ some r) × (r.verdict ≡ s.verdict))
    → tally v rs ≡ tally v ss
tally_same v [] [] n h = refl
tally_same v [] (r ∷ rs) n h = absurd (omega arith)
tally_same v (s ∷ ss) [] n h = absurd (omega arith)
tally_same v (s ∷ ss) (r ∷ rs) n h =
    let (r', e, q) = h 0 s refl in
    let here : r ≡ r' = cc e in
    let same : r.verdict ≡ s.verdict = ap (λ (x : Session). x.verdict) here ∙ q in
    rw same
      (ap (λ t. one s.verdict v + t) (tally_same v ss rs (omega arith) (λ i x g. h (suc i) x g)))
