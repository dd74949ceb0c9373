-- ===== src/Policy/Prefix.antt =====
-- ZoneRoute::contains of src/policy.h: the masked comparison is an equality of the leading bits.
use Prim.Native.Nat.{bit_and}
use native.Mathlib.Nat.{div-div-eq-div-mul, pow-suc, mul_comm}
use nano_ngfw.Prelude.{
  ℕ, zero, suc, ◌+◌, ◌-◌, ◌*◌, ◌/◌, ◌^◌, ◌≤◌, ◌<◌, ◌≡◌, ◌↔◌, ◌∙◌, refl, sym, ap, Bool, true, ◌&&◌,
  arith, ◌==◌, ==_iff, Bool-cases, inl, inr, bit_and_lowest,
}
use nano_ngfw.Policy.{ZoneRoute, mask_of, contains}

-- x with its k lowest bits cleared, and without them.
upper : ℕ → ℕ → ℕ
upper zero x = x
upper (suc k) x = upper k (x / 2) * 2

shifted : ℕ → ℕ → ℕ
shifted zero x = x
shifted (suc k) x = shifted k (x / 2)

-- w ones above k zeros.
mask_bits : ℕ → ℕ → ℕ
mask_bits zero zero = 0
mask_bits zero (suc w) = mask_bits zero w * 2 + 1
mask_bits (suc k) w = mask_bits k w * 2

bit_and_mask : (k w x : ℕ) → shifted w (shifted k x) ≡ 0 → bit_and x (mask_bits k w) ≡ upper k x
unfolding upper shifted mask_bits
bit_and_mask zero zero x h = omega (arith, ap (λ t. bit_and t 0) h)
bit_and_mask zero (suc w) x h =
    omega
      (arith, bit_and_lowest x (mask_bits zero w * 2 + 1), halved, bit_and_mask zero w (x / 2) h)
  where
    halved : bit_and (x / 2) ((mask_bits zero w * 2 + 1) / 2) ≡ bit_and (x / 2) (mask_bits zero w)
    halved = ap (bit_and (x / 2)) (omega arith)
bit_and_mask (suc k) w x h =
    omega (arith, bit_and_lowest x (mask_bits k w * 2), halved, bit_and_mask k w (x / 2) h)
  where
    halved : bit_and (x / 2) (mask_bits k w * 2 / 2) ≡ bit_and (x / 2) (mask_bits k w)
    halved = ap (bit_and (x / 2)) (omega arith)

upper-eq : (k x y : ℕ) → (upper k x ≡ upper k y) ↔ (shifted k x ≡ shifted k y)
unfolding upper shifted
upper-eq zero x y = (λ e. e, λ e. e)
upper-eq (suc k) x y = (
  λ e. (upper-eq k (x / 2) (y / 2)).0 (omega arith),
  λ e. omega (arith, (upper-eq k (x / 2) (y / 2)).1 e),
)

shifted-eq-div : (k x : ℕ) → shifted k x ≡ x / 2 ^ k
unfolding shifted
shifted-eq-div zero x = omega arith
shifted-eq-div (suc k) x =
    shifted-eq-div k (x / 2)
    ∙ div-div-eq-div-mul x 2 (2 ^ k)
    ∙ ap (λ t. x / t) (mul_comm 2 (2 ^ k) ∙ sym (pow-suc 2 k))

shifted-shifted : (k w n x : ℕ) → k + w ≡ n → shifted w (shifted k x) ≡ shifted n x
unfolding shifted
shifted-shifted zero w n x e = let q : w ≡ n = omega arith in rw q
shifted-shifted (suc k) w zero x e = absurd (omega arith)
shifted-shifted (suc k) w (suc n) x e = shifted-shifted k w n (x / 2) (omega arith)

shifted_small : (x : ℕ) → x < 2 ^ 32 → shifted 32 x ≡ 0
shifted_small x h = omega (arith, shifted-eq-div 32 x)

-- The masks of the 33 prefix lengths, by evaluation.
masks_below : ℕ → Bool
masks_below zero = true
masks_below (suc n) = (mask_of n == mask_bits (32 - n) n) && masks_below n

mask_of-eq : (n p : ℕ) → masks_below n ≡ true → p < n → mask_of p ≡ mask_bits (32 - p) p
unfolding masks_below
mask_of-eq zero p e h = absurd (omega arith)
mask_of-eq (suc n) p e h = elim (Bool-cases (p == n)) [
  | inl same ↦ let q : p ≡ n = ground arith in rw q ((==_iff _ _).0 (ground arith))
  | inr other ↦ mask_of-eq n p (ground arith) (ground arith)
]

bit_and-mask_of : (p x : ℕ) → p ≤ 32 → x < 2 ^ 32 → bit_and x (mask_of p) ≡ upper (32 - p) x
unfolding masks_below mask_bits
bit_and-mask_of p x h b = rw (mask_of-eq 33 p refl (omega arith)) (bit_and_mask (32 - p) p x fits)
  where
    fits : shifted p (shifted (32 - p) x) ≡ 0
    fits = shifted-shifted (32 - p) p 32 x (omega arith) ∙ shifted_small x b

-- No bits are compared where the prefix is empty.
no_bits : (p x : ℕ) → p ≡ 0 → x < 2 ^ 32 → x / 2 ^ (32 - p) ≡ 0
no_bits p x e b = rw e (omega arith)

masked_iff :
    (p x y : ℕ)
    → p ≤ 32
    → x < 2 ^ 32
    → y < 2 ^ 32
    → (bit_and x (mask_of p) ≡ bit_and y (mask_of p)) ↔ (x / 2 ^ (32 - p) ≡ y / 2 ^ (32 - p))
masked_iff p x y h b c =
    rw
      (
        bit_and-mask_of p x h b,
        bit_and-mask_of p y h c,
        ← shifted-eq-div (32 - p) x,
        ← shifted-eq-div (32 - p) y,
      )
      (upper-eq (32 - p) x y)

-- A 32-bit address lies in a route's prefix of at most 32 bits exactly if its leading `prefix` bits are
-- those of the 32-bit network, at the lengths 0 and 32 too.
pub contains_iff :
    (route : ZoneRoute) (ip : ℕ)
    → route.prefix ≤ 32
    → route.network < 2 ^ 32
    → ip < 2 ^ 32
    → (contains route ip ≡ true)
      ↔ (ip / 2 ^ (32 - route.prefix) ≡ route.network / 2 ^ (32 - route.prefix))
unfolding contains
contains_iff route ip h n b = elim (Bool-cases (route.prefix == 0)) [
  | inl none' ↦ rw none' (
    λ _.
        no_bits route.prefix ip (ground arith) b
        ∙ sym (no_bits route.prefix route.network (ground arith) n),
    λ _. refl,
  )
  | inr some' ↦ rw some' (
    λ e. (masked_iff route.prefix ip route.network h b n).0 ((==_iff _ _).0 e),
    λ e. (==_iff _ _).1 ((masked_iff route.prefix ip route.network h b n).1 e),
  )
]
