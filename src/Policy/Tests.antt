-- ===== src/Policy/Tests.antt =====
-- A concrete rule base for src/policy.cpp.
use nano_ngfw.Prelude.{
  to_int, ℕ, ◌≤◌, ◌≡◌, ◌⊎◌, ◌↔◌, ◌/◌, ◌^◌, refl, ap, true, [], ◌∷◌, codes, ℤ, pos, arith,
}
use nano_ngfw.Policy.{
  any, trust, untrust, dmz, Verdict, allow, deny, Rule, ZoneRoute, Policy, Traffic, contains,
  zone_for, zone_scan, evaluate, evaluate_from, any_service, any_application,
}
use nano_ngfw.Policy.Prefix.{contains_iff}
use nano_ngfw.Policy.Zones.{Shorter, Decides, zone_for-Decides}
use nano_ngfw.Policy.Match.{FirstMatch, evaluate-FirstMatch, evaluate_provisional, unidentified}

abbrev lan : ZoneRoute
lan = record { network = 0xc0a80000; prefix = 16; zone = trust }

abbrev servers : ZoneRoute
servers = record { network = 0xc0a80a00; prefix = 24; zone = dmz }

abbrev no_ssh : Rule
no_ssh = record {
  name = codes "no-ssh";
  source = any;
  target = any;
  services = [];
  applications = codes "ssh" ∷ [];
  action = deny;
}

abbrev outbound : Rule
outbound = record {
  name = codes "outbound";
  source = trust;
  target = untrust;
  services = record { proto = 6; port = 443 } ∷ [];
  applications = codes "ssl" ∷ [];
  action = allow;
}

abbrev pub sample_policy : Policy
sample_policy = record {
  rules = no_ssh ∷ outbound ∷ [];
  zones = lan ∷ servers ∷ record { network = 0; prefix = 0; zone = untrust } ∷ [];
}

abbrev https : Traffic
https = record { source = trust; target = untrust; proto = 6; dst_port = 443; app = codes "ssl" }

dmz_wins : zone_for sample_policy 0xc0a80a07 ≡ dmz
unfolding zone_for zone_scan contains
dmz_wins = refl

https_rule : evaluate sample_policy https ≡ (pos 1, allow)
unfolding evaluate evaluate_from any_service any_application to_int
https_rule = refl

evaluate-FirstMatch_example :
    FirstMatch https sample_policy.rules 0
      (evaluate sample_policy https).0
      (evaluate sample_policy https).1
evaluate-FirstMatch_example = evaluate-FirstMatch sample_policy https

evaluate_provisional_example :
    (j : ℕ) × ((evaluate sample_policy (unidentified https)).0 ≡ pos j) × (j ≤ 1)
evaluate_provisional_example =
    evaluate_provisional sample_policy https 1 (omega arith)
      (ap (λ (a : ℤ × Verdict). a.0) https_rule)

contains_iff_example :
    (contains servers 0xc0a80a07 ≡ true) ↔ (0xc0a80a07 / 2 ^ 8 ≡ 0xc0a80a00 / 2 ^ 8)
contains_iff_example = contains_iff servers 0xc0a80a07 (omega arith) (omega arith) (omega arith)

zone_for-Decides_example :
    Shorter 0xc0a80a07 0 sample_policy.zones × (zone_for sample_policy 0xc0a80a07 ≡ any)
    ⊎ Decides 0xc0a80a07 sample_policy.zones (zone_for sample_policy 0xc0a80a07)
zone_for-Decides_example = zone_for-Decides sample_policy 0xc0a80a07
