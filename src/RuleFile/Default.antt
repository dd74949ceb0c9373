-- ===== src/RuleFile/Default.antt =====
-- The built-in policy of src/policy.cpp: what its text parses to, and what it decides.
use nano_ngfw.Prelude.{
  to_int, ℕ, ◌/◌, ◌^◌, ◌<◌, ◌≡◌, refl, ap, Bool, true, false, ◌||◌, [], ◌∷◌, none, arith,
  if◌then◌else◌, ◌==◌, Text, codes, ℤ, pos,
}
use nano_ngfw.Strings.{strtol, signed_value, digits_value, split_at_first, get_lines, get_words}
use nano_ngfw.Addresses.{parse_cidr, split, read_octets}
use nano_ngfw.Policy.{
  Zone, trust, untrust, Verdict, allow, deny, drop, ZoneRoute, Policy, zone_scan, zone_for,
  evaluate, evaluate_from, default_deny,
}
use nano_ngfw.Policy.Names.{zone_from_string, verdict_from_string}
use nano_ngfw.Policy.Prefix.{contains_iff}
use nano_ngfw.RuleFile.{
  add_services, rule_clause, rule_clauses, rule_line, zone_line, parse_tokens, parse_line,
  parse_lines, parse, default_lines, unlines, load_default, new_rule,
}

abbrev network : ℕ → ℕ → Zone → ZoneRoute
network addr bits zone = record { network = addr; prefix = bits; zone = zone }

abbrev pub built_in : Policy
built_in = record {
  rules =
      record (new_rule (codes "allow-outbound")) {
        source = trust;
        target = untrust;
        action = allow;
      }
      ∷ record (new_rule (codes "deny-inbound")) { source = untrust; target = trust; action = drop }
      ∷ [];
  zones =
      network 0x0a000000 8 trust
      ∷ network 0xac100000 12 trust
      ∷ network 0xc0a80000 16 trust
      ∷ network 0 0 untrust
      ∷ [];
}

parsed_default : parse (unlines default_lines) ≡ (built_in, none)
unfolding parse parse_lines parse_line parse_tokens zone_line rule_line rule_clauses rule_clause
    add_services split_at_first get_lines get_words zone_from_string verdict_from_string parse_cidr
    split read_octets strtol signed_value digits_value
parsed_default = refl

load_default-built_in : load_default ≡ built_in
unfolding load_default
load_default-built_in = ap (λ r. r.0) parsed_default

-- The private networks of RFC 1918.
abbrev pub is_private : ℕ → Bool
is_private ip = ip / 2 ^ 24 == 10 || ip / 2 ^ 20 == 0xac1 || ip / 2 ^ 16 == 0xc0a8

zone_for-built_in :
    (ip : ℕ) → ip < 2 ^ 32 → zone_for built_in ip ≡ (if is_private ip then trust else untrust)
unfolding zone_for zone_scan
zone_for-built_in ip h = ground (
  arith,
  contains_iff (network 0x0a000000 8 trust) ip,
  contains_iff (network 0xac100000 12 trust) ip,
  contains_iff (network 0xc0a80000 16 trust) ip,
  contains_iff (network 0 0 untrust) ip,
)

-- What the built-in rules say of traffic between two addresses.
abbrev pub built_in_verdict : Bool → Bool → ℤ × Verdict
built_in_verdict true false = (pos 0, allow)
built_in_verdict false true = (pos 1, drop)
built_in_verdict _ _ = (default_deny, deny)

-- The policy that load_default leaves allows, under its first rule, exactly what goes from an RFC 1918
-- address to another one, drops what comes the other way, and denies the rest, for every protocol,
-- port and application.
pub load_default-built_in_verdict :
    (src dst proto dst_port : ℕ) (app : Text)
    → src < 2 ^ 32
    → dst < 2 ^ 32
    → evaluate load_default (record {
      source = zone_for load_default src;
      target = zone_for load_default dst;
      proto = proto;
      dst_port = dst_port;
      app = app;
    })
      ≡ built_in_verdict (is_private src) (is_private dst)
unfolding evaluate evaluate_from to_int
load_default-built_in_verdict src dst proto dst_port app h k =
    rw (load_default-built_in, zone_for-built_in src h, zone_for-built_in dst k)
      (cases (is_private src) (is_private dst))
  where
    cases :
        (s d : Bool)
        → evaluate built_in (record {
          source = if s then trust else untrust;
          target = if d then trust else untrust;
          proto = proto;
          dst_port = dst_port;
          app = app;
        })
          ≡ built_in_verdict s d
    cases true true = refl
    cases true false = refl
    cases false true = refl
    cases false false = refl
