-- ===== src/Policy.antt =====
-- src/policy.h and the evaluation half of src/policy.cpp: zones, verdicts, rules, zone routes, the
-- longest-prefix zone lookup and the first-match evaluation.
pub mod Prefix
pub mod Zones
pub mod Match
pub mod Names
pub mod Tests
use Prim.Native.Nat.{bit_and}
use nano_ngfw.Prelude.{
  ℕ, zero, suc, ◌+◌, ◌-◌, ◌*◌, ◌%◌, ◌^◌, Bool, true, false, not, ◌&&◌, ◌||◌, List, [], ◌∷◌, ◌==◌,
  if◌then◌else◌, Text, is_empty, text_eq, ℤ, pos, negsuc, ltb_ℤ, to_int,
}

pub data Zone : Type 0 where
  any trust untrust dmz : Zone

pub data Verdict : Type 0 where
  allow deny drop : Verdict

abbrev pub zone_eq : Zone → Zone → Bool
zone_eq any any = true
zone_eq trust trust = true
zone_eq untrust untrust = true
zone_eq dmz dmz = true
zone_eq _ _ = false

abbrev pub verdict_eq : Verdict → Verdict → Bool
verdict_eq allow allow = true
verdict_eq deny deny = true
verdict_eq drop drop = true
verdict_eq _ _ = false

pub record Service : Type 0 where
  pub proto : ℕ
  pub port : ℕ

abbrev pub service_matches : Service → ℕ → ℕ → Bool
service_matches svc p dst_port = svc.proto == p && (svc.port == 0 || svc.port == dst_port)

pub record Rule : Type 0 where
  pub name : Text
  pub source : Zone  -- the member `from`
  pub target : Zone  -- the member `to`
  pub services : List Service
  pub applications : List Text
  pub action : Verdict

pub record ZoneRoute : Type 0 where
  pub network : ℕ
  pub prefix : ℕ
  pub zone : Zone

-- `0xffffffffu << (32 - prefix)`
abbrev pub mask_of : ℕ → ℕ
mask_of prefix = 0xffffffff * 2 ^ (32 - prefix) % 2 ^ 32

unfoldable pub contains : ZoneRoute → ℕ → Bool
contains route ip =
    if route.prefix == 0
    then true
    else bit_and ip (mask_of route.prefix) == bit_and route.network (mask_of route.prefix)

pub record Policy : Type 0 where
  pub rules : List Rule
  pub zones : List ZoneRoute

abbrev pub default_deny : ℤ
default_deny = negsuc 0

-- The loop of Policy::zone_for, over the routes that are left.
unfoldable pub zone_scan : List ZoneRoute → ℕ → Zone → ℤ → Zone
zone_scan [] ip best_zone best_prefix = best_zone
zone_scan (route ∷ routes) ip best_zone best_prefix =
    let better = contains route ip && ltb_ℤ best_prefix (pos route.prefix) in
    zone_scan routes ip (if better then route.zone else best_zone)
      (if better then pos route.prefix else best_prefix)

unfoldable pub zone_for : Policy → ℕ → Zone
zone_for p ip = zone_scan p.zones ip any (negsuc 0)

unfoldable pub any_service : List Service → ℕ → ℕ → Bool
any_service [] proto dst_port = false
any_service (svc ∷ svcs) proto dst_port =
    service_matches svc proto dst_port || any_service svcs proto dst_port

unfoldable pub any_application : List Text → Text → Bool
any_application [] app = false
any_application (name ∷ names) app = text_eq name app || any_application names app

-- The traffic that a call of Policy::evaluate asks about.
pub record Traffic : Type 0 where
  pub source : Zone
  pub target : Zone
  pub proto : ℕ
  pub dst_port : ℕ
  pub app : Text

-- The loop of Policy::evaluate from rule `i` on: each `continue` goes to the rules behind. `i` is a
-- size_t, and is cast to an int where it is returned.
unfoldable pub evaluate_from : List Rule → ℕ → Traffic → ℤ × Verdict
evaluate_from [] i t = (default_deny, deny)
evaluate_from (rule ∷ rules) i t =
    let next = evaluate_from rules (i + 1) t in
    if not (zone_eq rule.source any) && not (zone_eq rule.source t.source)
    then next
    else if not (zone_eq rule.target any) && not (zone_eq rule.target t.target)
    then next
    else if not (is_empty rule.services) && not (any_service rule.services t.proto t.dst_port)
    then next
    else if not (is_empty rule.applications)
    then (if is_empty t.app
        then (to_int i, rule.action)
        else if not (any_application rule.applications t.app)
        then next
        else (to_int i, rule.action))
    else (to_int i, rule.action)

-- The rule index and the verdict that the call writes.
unfoldable pub evaluate : Policy → Traffic → ℤ × Verdict
evaluate p t = evaluate_from p.rules 0 t
