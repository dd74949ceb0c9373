-- ===== src/Prelude/Checked.antt =====
-- Computations that may break a contract: `none` stands for an aborted NANO_ASSERT, an access
-- outside a vector, or a loop that has used up its fuel.
use mathlib.Core.Path.{◌≡◌, ◌∙◌, ap, refl, subst}
use mathlib.Core.Option.{Option, none, some}

infixl 5 ◌>>=◌ ◌>>◌
abbrev pub ◌>>=◌ {ℓ κ} : {A : Type ℓ} {B : Type κ} → Option A → (A → Option B) → Option B
none >>= f = none
some a >>= f = f a

abbrev pub ◌>>◌ {ℓ} : {B : Type ℓ} → Option (Unit {0}) → Option B → Option B
m >> k = m >>= λ _. k

-- The computation succeeds, and its result satisfies `P`.
abbrev pub Ensures {ℓ κ} : {A : Type ℓ} → (A → Type κ) → Option A → Type (ℓ ⊔ κ)
Ensures {A} P o = (a : A) × (o ≡ some a) × P a

-- A chain succeeds if its first step does, and the rest does after it.
pub Ensures-bind {ℓ κ μ ν} :
    {A : Type ℓ} {B : Type κ} (P : A → Type μ) (Q : B → Type ν) (m : Option A) (f : A → Option B)
    → Ensures P m
    → ((a : A) → P a → Ensures Q (f a))
    → Ensures Q (m >>= f)
Ensures-bind P Q m f (a, e, p) next = let (b, e', q) = next a p in (b, ap (λ o. o >>= f) e ∙ e', q)

-- A chain that succeeds went through each of its steps.
pub >>=-some {ℓ κ} :
    {A : Type ℓ} {B : Type κ} (m : Option A) (f : A → Option B) {b : B}
    → (m >>= f) ≡ some b
    → (a : A) × (m ≡ some a) × (f a ≡ some b)
>>=-some none f h = cc
>>=-some (some a) f h = (a, refl, h)

pub some-inj {ℓ} : {A : Type ℓ} {a b : A} → some a ≡ some b → a ≡ b
some-inj e = cc

-- Whatever the computation returns satisfies `P`; it may break a contract instead.
abbrev pub IfReturns {ℓ κ} : {A : Type ℓ} → (A → Type κ) → Option A → Type (ℓ ⊔ κ)
IfReturns {A} P o = (a : A) → o ≡ some a → P a

pub IfReturns-bind {ℓ κ μ} :
    {A : Type ℓ} {B : Type κ} (P : B → Type μ) (m : Option A) (f : A → Option B)
    → ((a : A) → m ≡ some a → IfReturns P (f a))
    → IfReturns P (m >>= f)
IfReturns-bind P m f next b e = let (a, e', q) = >>=-some m f e in next a e' b q

pub IfReturns-some {ℓ κ} : {A : Type ℓ} (P : A → Type κ) {a : A} → P a → IfReturns P (some a)
IfReturns-some P p b e = subst P (cc e) p
