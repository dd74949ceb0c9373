-- ===== src/RuleFile.antt =====
-- Policy::parse of src/policy.cpp with its helpers, and Policy::load_default: the text of a rule base.
-- The text of a file that load_file has read is the argument.
pub mod Errors
pub mod Bounds
pub mod Printed
pub mod Tokens
pub mod Clauses
pub mod RoundTrip
pub mod Default
pub mod Tests
use nano_ngfw.Prelude.{
  ℕ, ◌+◌, Bool, true, false, not, ◌||◌, List, [], ◌∷◌, ◌++◌, Option, none, some, ◌⊎◌, inl, inr, ltb,
  ◌==◌, if◌then◌else◌, ◌>>=◌, Text, codes, text_eq, ℤ, pos, negsuc, to_int,
}
use nano_ngfw.Strings.{to_string, strtol, split_at_first, get_lines, get_words}
use nano_ngfw.Addresses.{parse_cidr, split}
use nano_ngfw.Policy.{Zone, Verdict, Service, Rule, ZoneRoute, Policy}
use nano_ngfw.Policy.Names.{zone_from_string, verdict_from_string}

-- `value <= 0 || value > 65535` refuses.
abbrev pub port_value : ℤ → Option ℕ
port_value (pos n) = if n == 0 || ltb 65535 n then none else some n
port_value (negsuc n) = none

abbrev pub protocol : Text → Option ℕ
protocol name =
    if text_eq name (codes "tcp")
    then some 6
    else if text_eq name (codes "udp")
    then some 17
    else none

abbrev pub service_port : Text → Option ℕ
service_port port = if text_eq port (codes "any") then some 0 else port_value (strtol port)

-- parse_service: the service, unless it returns false.
unfoldable pub parse_service : Text → Option Service
parse_service text =
    if text_eq text (codes "any") then some (record { proto = 0; port = 0 }) else do
      parts ← split_at_first b'/' text
      proto ← protocol parts.0
      port ← service_port parts.1
      some (record { proto = proto; port = port })

-- Either why the line is refused, or what it makes.
abbrev pub and_then {ℓ κ} : {A : Type ℓ} {B : Type κ} → Text ⊎ A → (A → Text ⊎ B) → Text ⊎ B
and_then (inl why) f = inl why
and_then (inr a) f = f a

abbrev pub or_fail {ℓ} : {A : Type ℓ} → Text → Option A → Text ⊎ A
or_fail why none = inl why
or_fail why (some a) = inr a

-- The loop over the specs of a service clause.
unfoldable pub add_services : List Text → Rule → Text ⊎ Rule
add_services [] rule = inr rule
add_services (spec ∷ specs) rule =
    and_then (or_fail (codes "bad service " ++ spec) (parse_service spec))
      λ svc. add_services specs (record rule { services = rule.services ++ svc ∷ [] })

-- One round of the loop over the clauses of a rule.
unfoldable pub rule_clause : Rule → Text → Text → Text ⊎ Rule
rule_clause rule key value =
    if text_eq key (codes "from")
    then (and_then (or_fail (codes "unknown zone " ++ value) (zone_from_string value))
        λ z. inr (record rule { source = z }))
    else if text_eq key (codes "to")
    then (and_then (or_fail (codes "unknown zone " ++ value) (zone_from_string value))
        λ z. inr (record rule { target = z }))
    else if text_eq key (codes "service")
    then (if text_eq value (codes "any") then inr rule else add_services (split value b',') rule)
    else if text_eq key (codes "application")
    then (if text_eq value (codes "any")
        then inr rule
        else inr (record rule { applications = rule.applications ++ split value b',' }))
    else if text_eq key (codes "action")
    then (and_then (or_fail (codes "bad action " ++ value) (verdict_from_string value))
        λ v. inr (record rule { action = v }))
    else inl (codes "unknown keyword " ++ key)

-- The loop over the clauses, two tokens each; a last token without a partner is not looked at.
unfoldable pub rule_clauses : List Text → Rule → Text ⊎ Rule
rule_clauses [] rule = inr rule
rule_clauses (key ∷ []) rule = inr rule
rule_clauses (key ∷ value ∷ more) rule =
    and_then (rule_clause rule key value) λ rule'. rule_clauses more rule'

abbrev pub new_rule : Text → Rule
new_rule name = record {
  name = name;
  source = Zone.any;
  target = Zone.any;
  services = [];
  applications = [];
  action = Verdict.deny;
}

unfoldable pub rule_line : Policy → List Text → Text ⊎ Policy
rule_line p [] = inl (codes "rule needs a name")
rule_line p (name ∷ clauses) =
    and_then (rule_clauses clauses (new_rule name))
      λ rule. inr (record p { rules = p.rules ++ rule ∷ [] })

unfoldable pub zone_line : Policy → List Text → Text ⊎ Policy
zone_line p (name ∷ cidr ∷ []) =
    and_then (or_fail (codes "unknown zone " ++ name) (zone_from_string name)) λ z.
      and_then (or_fail (codes "bad cidr " ++ cidr) (parse_cidr cidr)) λ c.
        inr (record p { zones = p.zones ++ record { network = c.0; prefix = c.1; zone = z } ∷ [] })
zone_line p _ = inl (codes "expected: zone <name> <cidr>")

unfoldable pub parse_tokens : Policy → List Text → Text ⊎ Policy
parse_tokens p [] = inr p
parse_tokens p (keyword ∷ args) =
    if text_eq keyword (codes "zone")
    then zone_line p args
    else if not (text_eq keyword (codes "rule"))
    then inl (codes "unexpected keyword " ++ keyword)
    else rule_line p args

abbrev pub before_comment : Text → Option (Text × Text) → Text
before_comment line none = line
before_comment line (some (text, comment)) = text

unfoldable pub parse_line : Policy → Text → Text ⊎ Policy
parse_line p line = parse_tokens p (get_words (before_comment line (split_at_first b'#' line)))

-- std::to_string of an int.
unfoldable pub int_to_string : ℤ → Text
int_to_string (pos n) = to_string n
int_to_string (negsuc n) = b'-' ∷ to_string (n + 1)

-- The lambda `fail`.
unfoldable pub message : ℤ → Text → Text
message lineno why = codes "policy line " ++ (int_to_string lineno ++ (codes ": " ++ why))

-- The loop over the lines: the policy as far as it came, and the error. `lineno` is an int of 32 bits, here
-- the number of lines read: C++ leaves its overflow past 2^31 - 1 lines undefined, and it is taken to wrap.
abbrev pub parse_on :
    (Policy → Policy × Option Text) → ℕ → Policy → Text ⊎ Policy → Policy × Option Text
parse_on more lineno p (inl why) = (p, some (message (to_int lineno) why))
parse_on more lineno p (inr p') = more p'

unfoldable pub parse_lines : List Text → ℕ → Policy → Policy × Option Text
parse_lines [] lineno p = (p, none)
parse_lines (line ∷ lines) lineno p =
    parse_on (parse_lines lines (lineno + 1)) (lineno + 1) p (parse_line p line)

abbrev pub empty_policy : Policy
empty_policy = record { rules = []; zones = [] }

unfoldable pub parse : Text → Policy × Option Text
parse text = parse_lines (get_lines b'\n' text) 0 empty_policy

-- The raw string of Policy::load_default, line by line.
abbrev pub default_lines : List Text
default_lines =
    []
    ∷ codes "# Built-in policy. RFC 1918 is trusted, everything else is not."
    ∷ codes "zone trust   10.0.0.0/8"
    ∷ codes "zone trust   172.16.0.0/12"
    ∷ codes "zone trust   192.168.0.0/16"
    ∷ codes "zone untrust 0.0.0.0/0"
    ∷ []
    ∷ codes "rule allow-outbound  from trust to untrust  service any  action allow"
    ∷ codes "rule deny-inbound    from untrust to trust  service any  action drop"
    ∷ []

abbrev pub unlines : List Text → Text
unlines [] = []
unlines (l ∷ ls) = l ++ b'\n' ∷ unlines ls

-- Policy::load_default, which drops the error.
unfoldable pub load_default : Policy
load_default = (parse (unlines default_lines)).0

-- Policy::load_file, with what the file holds, if it opens.
unfoldable pub load_file : Text → Option Text → Text ⊎ Policy
load_file path none = inl (codes "cannot open policy file " ++ path)
load_file path (some text) = accepted (parse text)
  where
    accepted : Policy × Option Text → Text ⊎ Policy
    accepted (p, none) = inr p
    accepted (p, some why) = inl why
