-- ===== src/Policy/Match.antt =====
-- Policy::evaluate of src/policy.cpp: the first matching rule decides, and nothing else allows.
use mathlib.Core.List.{Memᴰ}
use nano_ngfw.Prelude.{
  ℕ, ◌+◌, ◌≤◌, ◌≡◌, ◌⊎◌, inl, inr, refl, true, List, [], ◌∷◌, Bool, ◌&&◌, ◌||◌, if◌then◌else◌, ◌<◌,
  ◌^◌, length, to_int, to_int_small, arith, Text, is_empty, eq_of_text_eq, text_eq_refl, ℤ, pos,
  Bool-cases,
}
use nano_ngfw.Policy.{
  Zone, any, Verdict, allow, deny, Service, Rule, Traffic, Policy, zone_eq, default_deny,
  any_service, any_application, evaluate_from, evaluate,
}

abbrev pub Serves : ℕ → ℕ → List Service → Type 0
Serves proto dst_port [] = ⊥
Serves proto dst_port (svc ∷ svcs) =
    (svc.proto ≡ proto) × ((svc.port ≡ 0) ⊎ (svc.port ≡ dst_port)) ⊎ Serves proto dst_port svcs

abbrev pub Names : Text → List Text → Type 0
Names app [] = ⊥
Names app (name ∷ names) = (name ≡ app) ⊎ Names app names

-- A rule claims the traffic: its zones and services fit, and it names no application, or the traffic's,
-- or the traffic's is not known yet. This is the provisional match of the comment in src/policy.cpp;
-- src/policy.h says instead that a rule naming applications is skipped until the application is known.
pub record Matches (r : Rule) (t : Traffic) : Type 0 where
  pub source : (r.source ≡ any) ⊎ (r.source ≡ t.source)
  pub target : (r.target ≡ any) ⊎ (r.target ≡ t.target)
  pub service : (r.services ≡ []) ⊎ Serves t.proto t.dst_port r.services
  pub application : (r.applications ≡ []) ⊎ (t.app ≡ []) ⊎ Names t.app r.applications

-- The first rule of the list that claims the traffic, counted from `i` in an int, and its action; the implicit
-- deny if there is none.
pub data FirstMatch (t : Traffic) : List Rule → ℕ → ℤ → Verdict → Type 0 where
  none_left : {i : ℕ} → FirstMatch t [] i default_deny deny
  here :
      {r : Rule} {rs : List Rule} {i : ℕ}
      → Matches r t
      → FirstMatch t (r ∷ rs) i (to_int i) r.action
  later :
      {r : Rule} {rs : List Rule} {i : ℕ} {n : ℤ} {v : Verdict}
      → ¬ Matches r t
      → FirstMatch t rs (i + 1) n v
      → FirstMatch t (r ∷ rs) i n v

zone_eq_iff : (a b : Zone) → (zone_eq a b ≡ true → a ≡ b) × (a ≡ b → zone_eq a b ≡ true)
zone_eq_iff a b = (λ h. ground arith, λ h. ground arith)

any_service-Serves : (p d : ℕ) (svcs : List Service) → any_service svcs p d ≡ true → Serves p d svcs
unfolding any_service
any_service-Serves p d [] h = ground arith
any_service-Serves p d (svc ∷ svcs) h = ground (arith, any_service-Serves p d svcs)

Serves-any_service : (p d : ℕ) (svcs : List Service) → Serves p d svcs → any_service svcs p d ≡ true
unfolding any_service
Serves-any_service p d [] h = absurd h
Serves-any_service p d (svc ∷ svcs) h = ground (arith, Serves-any_service p d svcs)

any_application-Names :
    (app : Text) (names : List Text) → any_application names app ≡ true → Names app names
unfolding any_application
any_application-Names app [] h = ground arith
any_application-Names app (name ∷ names) h =
    ground (arith, eq_of_text_eq name app, any_application-Names app names)

Names-any_application :
    (app : Text) (names : List Text) → Names app names → any_application names app ≡ true
unfolding any_application
Names-any_application app [] h = absurd h
Names-any_application app (name ∷ names) h =
    ground (arith, text_eq_refl app, Names-any_application app names)

-- The guards of the loop's body, read as one test.
applies : Rule → Traffic → Bool
applies r t =
    (zone_eq r.source any || zone_eq r.source t.source)
    && (zone_eq r.target any || zone_eq r.target t.target)
    && (is_empty r.services || any_service r.services t.proto t.dst_port)
    && (is_empty r.applications || is_empty t.app || any_application r.applications t.app)

evaluate_from_step :
    (r : Rule) (rs : List Rule) (i : ℕ) (t : Traffic)
    → evaluate_from (r ∷ rs) i t
      ≡ (if applies r t then (to_int i, r.action) else evaluate_from rs (i + 1) t)
unfolding evaluate_from applies
evaluate_from_step r rs i t = ground arith

is_empty_iff {ℓ} :
    {A : Type ℓ} (xs : List A) → (is_empty xs ≡ true → xs ≡ []) × (xs ≡ [] → is_empty xs ≡ true)
is_empty_iff [] = (λ h. refl, λ h. refl)
is_empty_iff (x ∷ xs) = (λ h. cc, λ h. cc)

applies-Matches : (r : Rule) (t : Traffic) → applies r t ≡ true → Matches r t
unfolding applies
applies-Matches r t h = record {
  source = ground (arith, zone_eq_iff r.source any, zone_eq_iff r.source t.source);
  target = ground (arith, zone_eq_iff r.target any, zone_eq_iff r.target t.target);
  service =
      ground (arith, is_empty_iff r.services, any_service-Serves t.proto t.dst_port r.services);
  application = ground (
    arith,
    is_empty_iff r.applications,
    is_empty_iff t.app,
    any_application-Names t.app r.applications,
  );
}

Matches-applies : (r : Rule) (t : Traffic) → Matches r t → applies r t ≡ true
unfolding applies
Matches-applies r t m = ground (
  arith,
  is_empty_iff r.services,
  Serves-any_service t.proto t.dst_port r.services,
  is_empty_iff r.applications,
  is_empty_iff t.app,
  Names-any_application t.app r.applications,
)

-- evaluate_from runs to the first rule that claims the traffic.
evaluate_from-FirstMatch :
    (rs : List Rule) (i : ℕ) (t : Traffic)
    → FirstMatch t rs i (evaluate_from rs i t).0 (evaluate_from rs i t).1
evaluate_from-FirstMatch [] i t = unfold evaluate_from in none_left
evaluate_from-FirstMatch (r ∷ rs) i t = elim (Bool-cases (applies r t)) [
  | inl yes' ↦ rw (evaluate_from_step r rs i t, yes') (here (applies-Matches r t yes'))
  | inr no' ↦
      rw (evaluate_from_step r rs i t, no')
        (later (λ m. ground (arith, Matches-applies r t m)) (evaluate_from-FirstMatch rs (i + 1) t))
]

-- Policy::evaluate gives the index, cast to an int of 32 bits, and the action of the first rule that claims the traffic, and the
-- default deny if no rule does. While the application is unknown, a rule that names applications claims
-- what its zones and services fit.
pub evaluate-FirstMatch :
    (p : Policy) (t : Traffic) → FirstMatch t p.rules 0 (evaluate p t).0 (evaluate p t).1
unfolding evaluate
evaluate-FirstMatch p t = evaluate_from-FirstMatch p.rules 0 t

-- The relation leaves one answer: `FirstMatch` determines the index and the verdict.
pub FirstMatch-unique :
    {t : Traffic} {rs : List Rule} {i : ℕ} {n m : ℤ} {v w : Verdict}
    → FirstMatch t rs i n v
    → FirstMatch t rs i m w
    → (n ≡ m) × (v ≡ w)
FirstMatch-unique none_left none_left = (refl, refl)
FirstMatch-unique (here p) (here q) = (refl, refl)
FirstMatch-unique (here p) (later q b) = absurd (q p)
FirstMatch-unique (later p a) (here q) = absurd (p q)
FirstMatch-unique (later p a) (later q b) = FirstMatch-unique a b

FirstMatch-allow :
    {t : Traffic} {rs : List Rule} {i : ℕ} {n : ℤ} {v : Verdict}
    → FirstMatch t rs i n v
    → v ≡ allow
    → (r : Rule) × Memᴰ r rs × Matches r t × (r.action ≡ allow)
FirstMatch-allow none_left e = cc
FirstMatch-allow (here {r = r} m) e = (r, Memᴰ.head refl, m, e)
FirstMatch-allow (later q f) e =
    let (r, mem, m, a) = FirstMatch-allow f e in (r, Memᴰ.tail mem, m, a)

-- The rule base is a whitelist: traffic is allowed only if some rule claims it and says allow.
pub evaluate-allow :
    (p : Policy) (t : Traffic)
    → (evaluate p t).1 ≡ allow
    → (r : Rule) × Memᴰ r p.rules × Matches r t × (r.action ≡ allow)
evaluate-allow p t e = FirstMatch-allow (evaluate-FirstMatch p t) e

-- The traffic as it stands before App-ID has decided.
abbrev pub unidentified : Traffic → Traffic
unidentified t = record t { app = [] }

-- Once the application is known, a rule claims no traffic that it would not have claimed before.
Matches-before : (r : Rule) (t : Traffic) → Matches r t → Matches r (unidentified t)
Matches-before r t m = record {
  source = m.source;
  target = m.target;
  service = m.service;
  application = inr (inl refl);
}

FirstMatch-le :
    {t : Traffic} {rs : List Rule} {i m : ℕ} {n : ℤ} {v : Verdict}
    → FirstMatch t rs i n v
    → i + length rs < 2 ^ 31
    → n ≡ pos m
    → i ≤ m
FirstMatch-le none_left b e = cc
FirstMatch-le {i = i} (here q) b e = let p = to_int_small i (omega arith) in ground arith
FirstMatch-le (later q f) b e = omega (arith, FirstMatch-le f (omega arith) e)

FirstMatch-before :
    {t : Traffic} {rs : List Rule} {i m : ℕ} {n k : ℤ} {v w : Verdict}
    → FirstMatch t rs i n v
    → FirstMatch (unidentified t) rs i k w
    → i + length rs < 2 ^ 31
    → n ≡ pos m
    → (j : ℕ) × (k ≡ pos j) × (j ≤ m)
FirstMatch-before none_left g b e = cc
FirstMatch-before {i = i} (here q) (here q') b e =
    let p = to_int_small i (omega arith) in (i, p, ground arith)
FirstMatch-before (here {r = r} q) (later q' g) b e = absurd (q' (Matches-before r _ q))
FirstMatch-before {i = i} (later q f) (here q') b e =
    (i, to_int_small i (omega arith), omega (arith, FirstMatch-le f (omega arith) e))
FirstMatch-before (later q f) (later q' g) b e = FirstMatch-before f g (omega arith) e

-- With fewer than 2^31 rules, the first evaluation, with the application unknown, never passes over the rule that the second one
-- settles on: it settles on that rule or on one above it.
pub evaluate_provisional :
    (p : Policy) (t : Traffic) (m : ℕ)
    → length p.rules < 2 ^ 31
    → (evaluate p t).0 ≡ pos m
    → (j : ℕ) × ((evaluate p (unidentified t)).0 ≡ pos j) × (j ≤ m)
evaluate_provisional p t m b e =
    FirstMatch-before (evaluate-FirstMatch p t) (evaluate-FirstMatch p (unidentified t))
      (omega (arith, b)) e
