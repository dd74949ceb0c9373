-- ===== src/Policy/Zones.antt =====
-- Policy::zone_for of src/policy.cpp: the longest prefix that holds the address decides.
use nano_ngfw.Prelude.{
  ℕ, ◌+◌, ◌≤◌, ◌<◌, ◌≡◌, ◌⊎◌, inl, inr, refl, ap, Bool, true, false, ◌&&◌, List, [], ◌∷◌, ◌++◌,
  arith, ℤ, pos, negsuc, ltb_ℤ, Bool-cases,
}
use nano_ngfw.Policy.{Zone, any, ZoneRoute, Policy, contains, zone_scan, zone_for}

-- Of these routes, those that hold the address have prefixes shorter than n.
abbrev pub Shorter : ℕ → ℕ → List ZoneRoute → Type 0
Shorter ip n [] = Unit {0}
Shorter ip n (r ∷ rs) = ((contains r ip ≡ false) ⊎ (r.prefix < n)) × Shorter ip n rs

-- A route decides the address: it holds it, the routes behind it have no longer prefix, and those
-- before it only shorter ones.
pub record Decides (ip : ℕ) (rs : List ZoneRoute) (z : Zone) : Type 0 where
  pub before : List ZoneRoute
  pub route : ZoneRoute
  pub after : List ZoneRoute
  pub split : rs ≡ before ++ (route ∷ after)
  pub holds : contains route ip ≡ true
  pub zone : z ≡ route.zone
  pub shorter_before : Shorter ip route.prefix before
  pub longest : Shorter ip (route.prefix + 1) after

-- The bound that a best prefix so far sets: one above it, and 0 for -1.
abbrev level : ℤ → ℕ
level (pos n) = n + 1
level (negsuc n) = 0

Scanned : ℕ → List ZoneRoute → Zone → ℤ → Zone → Type 0
Scanned ip rs best_zone best z =
    Shorter ip (level best) rs × (z ≡ best_zone)
    ⊎ (d : Decides ip rs z) × (level best ≤ d.route.prefix)

longer : (r : ZoneRoute) (best : ℤ) → ltb_ℤ best (pos r.prefix) ≡ true → level best ≤ r.prefix
longer r (pos n) h = ground arith
longer r (negsuc n) h = omega arith

not_longer : (r : ZoneRoute) (best : ℤ) → ltb_ℤ best (pos r.prefix) ≡ false → r.prefix < level best
not_longer r (pos n) h = ground arith
not_longer r (negsuc n) h = ground arith

abbrev prepend :
    {ip : ℕ} {rs : List ZoneRoute} {z : Zone} (r : ZoneRoute) (d : Decides ip rs z)
    → (contains r ip ≡ false) ⊎ (r.prefix < d.route.prefix)
    → Decides ip (r ∷ rs) z
prepend r d h = record {
  before = r ∷ d.before;
  route = d.route;
  after = d.after;
  split = ap (λ t. r ∷ t) d.split;
  holds = d.holds;
  zone = d.zone;
  shorter_before = (h, d.shorter_before);
  longest = d.longest;
}

abbrev first :
    {ip : ℕ} {rs : List ZoneRoute} {z : Zone} (r : ZoneRoute)
    → contains r ip ≡ true
    → z ≡ r.zone
    → Shorter ip (r.prefix + 1) rs
    → Decides ip (r ∷ rs) z
first {rs = rs} r h e s = record {
  before = [];
  route = r;
  after = rs;
  split = refl;
  holds = h;
  zone = e;
  shorter_before = tt;
  longest = s;
}

better_split :
    (r : ZoneRoute) (ip : ℕ) (best : ℤ)
    → (contains r ip && ltb_ℤ best (pos r.prefix)) ≡ true
    → (contains r ip ≡ true) × (level best ≤ r.prefix)
better_split r ip best h = ground (arith, longer r best)

worse_split :
    (r : ZoneRoute) (ip : ℕ) (best : ℤ)
    → (contains r ip && ltb_ℤ best (pos r.prefix)) ≡ false
    → (contains r ip ≡ false) ⊎ (r.prefix < level best)
worse_split r ip best h = ground (arith, not_longer r best)

weaken : {a : Bool} {p n m : ℕ} → (a ≡ false) ⊎ (p < n) → n ≤ m → (a ≡ false) ⊎ (p < m)
weaken (inl e) h = inl e
weaken (inr l) h = inr (omega arith)

zone_scan-Scanned :
    (rs : List ZoneRoute) (ip : ℕ) (z : Zone) (best : ℤ)
    → Scanned ip rs z best (zone_scan rs ip z best)
unfolding zone_scan Scanned
zone_scan-Scanned [] ip z best = inl (tt, refl)
zone_scan-Scanned (r ∷ rs) ip z best =
    elim (Bool-cases (contains r ip && ltb_ℤ best (pos r.prefix))) [
      | inl better ↦
          let (h, l) = better_split r ip best better in
          rw better (elim (zone_scan-Scanned rs ip r.zone (pos r.prefix)) [
            | inl (s, e) ↦ inr (first r h e s, l)
            | inr (d, k) ↦ inr (prepend r d (inr (omega arith)), omega arith)
          ])
      | inr worse ↦ rw worse (elim (zone_scan-Scanned rs ip z best) [
        | inl (s, e) ↦ inl ((worse_split r ip best worse, s), e)
        | inr (d, k) ↦ inr (prepend r d (weaken (worse_split r ip best worse) k), k)
      ])
    ]

-- Policy::zone_for gives the zone of the route with the longest prefix that holds the address, the
-- first of them where several are as long, and `any` if no route holds the address.
pub zone_for-Decides :
    (p : Policy) (ip : ℕ)
    → Shorter ip 0 p.zones × (zone_for p ip ≡ any) ⊎ Decides ip p.zones (zone_for p ip)
unfolding zone_for Scanned
zone_for-Decides p ip = elim (zone_scan-Scanned p.zones ip any (negsuc 0)) [
  | inl s ↦ inl s
  | inr (d, l) ↦ inr d
]
