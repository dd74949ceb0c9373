-- ===== src/RuleFile/Tests.antt =====
-- Rule files for src/policy.cpp.
use nano_ngfw.Prelude.{
  to_int, length, ◌<◌, ◌^◌, ◌≡◌, refl, ap, inl, inr, true, false, text_eq, [], ◌∷◌, none, some,
  Text, codes, arith,
}
use nano_ngfw.Strings.{get_lines, get_words, split_at_first, to_string}
use nano_ngfw.Policy.{Zone, Verdict, Rule, Policy, zone_for, evaluate}
use nano_ngfw.Policy.Names.{zone_from_string}
use nano_ngfw.RuleFile.{
  int_to_string, parse, parse_lines, parse_line, parse_tokens, zone_line, message, empty_policy,
  load_default,
}
use nano_ngfw.RuleFile.Errors.{Refused, parse-Refused}
use nano_ngfw.RuleFile.Bounds.{IsPolicy, parse-IsPolicy}
use nano_ngfw.RuleFile.Default.{is_private, built_in_verdict, load_default-built_in_verdict}
use nano_ngfw.RuleFile.Printed.{join, policy_text, PrintableRules, IsItem}
use nano_ngfw.RuleFile.Tokens.{literal-IsToken}
use nano_ngfw.RuleFile.RoundTrip.{parse-policy_text}

abbrev web_rule : Rule
web_rule = record {
  name = codes "web";
  source = Zone.trust;
  target = Zone.any;
  services = record { proto = 6; port = 443 } ∷ record { proto = 17; port = 0 } ∷ [];
  applications = codes "ssl" ∷ [];
  action = Verdict.allow;
}

abbrev policy : Policy
policy = record {
  rules = web_rule ∷ [];
  zones = record { network = 0x0a000000; prefix = 8; zone = Zone.trust } ∷ [];
}

ssl-IsItem : IsItem (codes "ssl")
ssl-IsItem = record {
  token = literal-IsToken _ _ refl;
  commaless = (λ e. omega arith, (λ e. omega arith, (λ e. omega arith, tt)));
}

policy-PrintableRules : PrintableRules policy.rules
policy-PrintableRules = (
  record {
    name = literal-IsToken _ _ refl;
    services = (inl refl, omega arith, (inr refl, omega arith, tt));
    applications = (ssl-IsItem, tt);
    not_any = λ e. let bad : true ≡ false = ap (λ ws. text_eq (join b',' ws) (codes "ssl")) e in cc;
  },
  tt,
)

parse-policy_text_example : parse (policy_text policy) ≡ (policy, none)
parse-policy_text_example =
    parse-policy_text policy (omega arith, omega arith, tt) policy-PrintableRules

-- The second line is refused.
abbrev broken : Text
broken = codes "\nzone inside 10.0.0.0/8\nrule x"

broken_fails : parse broken ≡ (empty_policy, some (codes "policy line 2: unknown zone inside"))
unfolding parse parse_lines parse_line parse_tokens zone_line split_at_first get_lines get_words
    zone_from_string message int_to_string to_int to_string
broken_fails = refl

broken_lines : length (get_lines b'\n' broken) < 2 ^ 31
unfolding get_lines
broken_lines = omega arith

parse-Refused_example :
    Refused 0 empty_policy
      (get_lines b'\n' broken)
      empty_policy
      (codes "policy line 2: unknown zone inside")
parse-Refused_example = parse-Refused broken _ _ broken_lines broken_fails

parse-IsPolicy_example : IsPolicy (parse broken).0
parse-IsPolicy_example = parse-IsPolicy broken

load_default-built_in_verdict_example :
    evaluate load_default (record {
      source = zone_for load_default 0x0a000001;
      target = zone_for load_default 0x08080808;
      proto = 6;
      dst_port = 443;
      app = [];
    })
    ≡ built_in_verdict (is_private 0x0a000001) (is_private 0x08080808)
load_default-built_in_verdict_example =
    load_default-built_in_verdict 0x0a000001 0x08080808 6 443 [] (omega arith) (omega arith)
