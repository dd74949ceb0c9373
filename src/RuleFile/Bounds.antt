-- ===== src/RuleFile/Bounds.antt =====
-- What holds of every policy that Policy::parse of src/policy.cpp leaves, also where it fails.
use nano_ngfw.Prelude.{
  ℕ, ◌+◌, ◌^◌, codes, ◌≤◌, ◌<◌, ◌≡◌, refl, List, [], ◌∷◌, ◌++◌, Option, none, some, ◌⊎◌, inl, inr,
  arith, Text, text_eq, ℤ, pos, negsuc, Bool-cases, >>=-some,
}
use nano_ngfw.Strings.{get_lines, strtol, split_at_first}
use nano_ngfw.Addresses.{parse_cidr, split}
use nano_ngfw.Addresses.Quads.{parse_cidr_bounds}
use nano_ngfw.Policy.{Zone, Service, Rule, ZoneRoute, Policy}
use nano_ngfw.Policy.Names.{zone_from_string, verdict_from_string}
use nano_ngfw.RuleFile.{
  port_value, protocol, service_port, parse_service, and_then, or_fail, add_services, rule_clause,
  rule_clauses, new_rule, rule_line, zone_line, parse_tokens, parse_line, parse_on, parse_lines,
  parse, empty_policy,
}

-- Members that fit their types, as ZoneRoute::contains and Service::matches rely on.
abbrev pub Routes : List ZoneRoute → Type 0
Routes [] = Unit {0}
Routes (r ∷ rs) = (r.prefix ≤ 32) × (r.network < 2 ^ 32) × Routes rs

abbrev pub Services : List Service → Type 0
Services [] = Unit {0}
Services (s ∷ ss) = (s.proto < 2 ^ 8) × (s.port < 2 ^ 16) × Services ss

abbrev pub Rules : List Rule → Type 0
Rules [] = Unit {0}
Rules (r ∷ rs) = Services r.services × Rules rs

pub record IsPolicy (p : Policy) : Type 0 where
  pub rules : Rules p.rules
  pub zones : Routes p.zones

Routes-append :
    (rs : List ZoneRoute) (r : ZoneRoute)
    → Routes rs
    → r.prefix ≤ 32
    → r.network < 2 ^ 32
    → Routes (rs ++ r ∷ [])
Routes-append [] r v h k = (h, k, tt)
Routes-append (x ∷ rs) r (a, b, v) h k = (a, b, Routes-append rs r v h k)

Services-append :
    (ss : List Service) (s : Service)
    → Services ss
    → s.proto < 2 ^ 8
    → s.port < 2 ^ 16
    → Services (ss ++ s ∷ [])
Services-append [] s v h k = (h, k, tt)
Services-append (x ∷ ss) s (a, b, v) h k = (a, b, Services-append ss s v h k)

Rules-append : (rs : List Rule) (r : Rule) → Rules rs → Services r.services → Rules (rs ++ r ∷ [])
Rules-append [] r v h = (h, tt)
Rules-append (x ∷ rs) r (a, v) h = (a, Rules-append rs r v h)

-- If the line is accepted, what it makes has the property.
abbrev IfDone {ℓ κ} : {A : Type ℓ} → (A → Type κ) → Text ⊎ A → Type κ
IfDone P (inl why) = Unit
IfDone P (inr a) = P a

and_then-IfDone {ℓ κ μ ν} :
    {A : Type ℓ} {B : Type κ} (P : A → Type μ) (Q : B → Type ν) (o : Text ⊎ A) (f : A → Text ⊎ B)
    → IfDone P o
    → ((a : A) → P a → IfDone Q (f a))
    → IfDone Q (and_then o f)
and_then-IfDone P Q (inl why) f p next = tt
and_then-IfDone P Q (inr a) f p next = next a p

or_fail-IfDone {ℓ κ} :
    {A : Type ℓ} (P : A → Type κ) (why : Text) (o : Option A)
    → ((a : A) → o ≡ some a → P a)
    → IfDone P (or_fail why o)
or_fail-IfDone P why none h = tt
or_fail-IfDone P why (some a) h = h a refl

protocol_bound : (name : Text) {p : ℕ} → protocol name ≡ some p → p < 2 ^ 8
protocol_bound name e = ground arith

service_port_bound : (port : Text) {n : ℕ} → service_port port ≡ some n → n < 2 ^ 16
service_port_bound port {n} e = elim (Bool-cases (text_eq port (codes "any"))) [
  | inl every ↦ let e' = rw every at e in ground arith
  | inr one ↦ port_value_bound (strtol port) (rw one at e)
]
  where
    port_value_bound : (v : ℤ) {n : ℕ} → port_value v ≡ some n → n < 2 ^ 16
    port_value_bound (pos m) h = ground arith
    port_value_bound (negsuc m) h = cc

parse_service_bounds :
    (text : Text) (s : Service)
    → parse_service text ≡ some s
    → (s.proto < 2 ^ 8) × (s.port < 2 ^ 16)
unfolding parse_service
parse_service_bounds text s e = elim (Bool-cases (text_eq text (codes "any"))) [
  | inl every ↦ let e' = rw every at e in ground arith
  | inr one ↦
      let (parts, _, e1) = >>=-some (split_at_first b'/' text) _ (rw one at e) in
      let (p, q, e2) = >>=-some (protocol parts.0) _ e1 in
      let (n, q', e3) = >>=-some (service_port parts.1) _ e2 in
      let h = protocol_bound parts.0 q in let k = service_port_bound parts.1 q' in ground arith
]

abbrev Good : Rule → Type 0
Good r = Services r.services

add_services-IfDone : (specs : List Text) (r : Rule) → Good r → IfDone Good (add_services specs r)
unfolding add_services
add_services-IfDone [] r v = v
add_services-IfDone (spec ∷ specs) r v =
    and_then-IfDone (λ s. (s.proto < 2 ^ 8) × (s.port < 2 ^ 16)) Good
      (or_fail (codes "bad service " ++ spec) (parse_service spec)) _
      (or_fail-IfDone _ _ (parse_service spec) (parse_service_bounds spec))
      λ s b. add_services-IfDone specs _ (Services-append r.services s v b.0 b.1)

rule_clause-IfDone : (r : Rule) (key value : Text) → Good r → IfDone Good (rule_clause r key value)
unfolding rule_clause
rule_clause-IfDone r key value v = elim (Bool-cases (text_eq key (codes "from"))) [
  | inl from' ↦ rw from' (zone_clause (λ z. record r { source = z }) λ z. v)
  | inr not_from ↦ rw not_from (elim (Bool-cases (text_eq key (codes "to"))) [
    | inl to' ↦ rw to' (zone_clause (λ z. record r { target = z }) λ z. v)
    | inr not_to ↦ rw not_to (elim (Bool-cases (text_eq key (codes "service"))) [
      | inl service ↦ rw service (elim (Bool-cases (text_eq value (codes "any"))) [
        | inl every ↦ rw every v
        | inr some' ↦ rw some' (add_services-IfDone (split value b',') r v)
      ])
      | inr not_service ↦ rw not_service (elim (Bool-cases (text_eq key (codes "application"))) [
        | inl application ↦ rw application (elim (Bool-cases (text_eq value (codes "any"))) [
          | inl every ↦ rw every v
          | inr some' ↦ rw some' v
        ])
        | inr not_application ↦
            rw not_application (elim (Bool-cases (text_eq key (codes "action"))) [
              | inl action ↦ rw action (
                  and_then-IfDone (λ _. Unit {0}) Good
                    (or_fail (codes "bad action " ++ value) (verdict_from_string value)) _
                    (or_fail-IfDone _ _ (verdict_from_string value) λ a e. tt) λ a _. v)
              | inr other ↦ rw other tt
            ])
      ])
    ])
  ])
]
  where
    zone_clause :
        (f : Zone → Rule)
        → ((z : Zone) → Good (f z))
        → IfDone Good (
            and_then
              (or_fail (codes "unknown zone " ++ value) (zone_from_string value))
              λ z. inr (f z))
    zone_clause f h =
        and_then-IfDone (λ _. Unit {0}) Good
          (or_fail (codes "unknown zone " ++ value) (zone_from_string value)) _
          (or_fail-IfDone _ _ (zone_from_string value) λ a e. tt) λ z _. h z

rule_clauses-IfDone : (tokens : List Text) (r : Rule) → Good r → IfDone Good (rule_clauses tokens r)
unfolding rule_clauses
rule_clauses-IfDone [] r v = v
rule_clauses-IfDone (key ∷ []) r v = v
rule_clauses-IfDone (key ∷ value ∷ more) r v =
    and_then-IfDone Good Good (rule_clause r key value) _ (rule_clause-IfDone r key value v)
      λ s w. rule_clauses-IfDone more s w

rule_line-IfDone : (p : Policy) (args : List Text) → IsPolicy p → IfDone IsPolicy (rule_line p args)
unfolding rule_line
rule_line-IfDone p [] v = tt
rule_line-IfDone p (name ∷ clauses) v =
    and_then-IfDone Good IsPolicy (rule_clauses clauses (new_rule name)) _
      (rule_clauses-IfDone clauses (new_rule name) tt)
      λ r w. record { rules = Rules-append p.rules r v.rules w; zones = v.zones }

zone_line-IfDone : (p : Policy) (args : List Text) → IsPolicy p → IfDone IsPolicy (zone_line p args)
unfolding zone_line
zone_line-IfDone p [] v = tt
zone_line-IfDone p (name ∷ []) v = tt
zone_line-IfDone p (name ∷ cidr ∷ []) v =
    and_then-IfDone (λ _. Unit {0}) IsPolicy
      (or_fail (codes "unknown zone " ++ name) (zone_from_string name)) _
      (or_fail-IfDone _ _ (zone_from_string name) λ a e. tt)
      λ z _.
        and_then-IfDone (λ (c : ℕ × ℕ). (c.0 < 2 ^ 32) × (c.1 ≤ 32)) IsPolicy
          (or_fail (codes "bad cidr " ++ cidr) (parse_cidr cidr)) _
          (or_fail-IfDone _ _ (parse_cidr cidr) λ c e. parse_cidr_bounds cidr e)
          λ c b. record { rules = v.rules; zones = Routes-append p.zones _ v.zones b.1 b.0 }
zone_line-IfDone p (name ∷ cidr ∷ extra ∷ more) v = tt

parse_tokens-IfDone :
    (p : Policy) (tokens : List Text) → IsPolicy p → IfDone IsPolicy (parse_tokens p tokens)
unfolding parse_tokens
parse_tokens-IfDone p [] v = v
parse_tokens-IfDone p (keyword ∷ args) v = elim (Bool-cases (text_eq keyword (codes "zone"))) [
  | inl zone ↦ rw zone (zone_line-IfDone p args v)
  | inr not_zone ↦ rw not_zone (elim (Bool-cases (text_eq keyword (codes "rule"))) [
    | inl rule ↦ rw rule (rule_line-IfDone p args v)
    | inr other ↦ rw other tt
  ])
]

parse_on-IsPolicy :
    (more : Policy → Policy × Option Text) (n : ℕ) (p : Policy) (o : Text ⊎ Policy)
    → IsPolicy p
    → IfDone IsPolicy o
    → ((q : Policy) → IsPolicy q → IsPolicy (more q).0)
    → IsPolicy (parse_on more n p o).0
parse_on-IsPolicy more n p (inl why) v w next = v
parse_on-IsPolicy more n p (inr q) v w next = next q w

parse_lines-IsPolicy :
    (lines : List Text) (n : ℕ) (p : Policy) → IsPolicy p → IsPolicy (parse_lines lines n p).0
unfolding parse_lines parse_line
parse_lines-IsPolicy [] n p v = v
parse_lines-IsPolicy (l ∷ ls) n p v =
    parse_on-IsPolicy (parse_lines ls (n + 1)) (n + 1) p (parse_line p l) v
      (parse_tokens-IfDone p _ v) λ q w. parse_lines-IsPolicy ls (n + 1) q w

-- Whatever the text, and also where it is refused: every zone of the policy that parse leaves is a
-- 32-bit network with a prefix of at most 32, and every service has a protocol of 8 and a port of 16
-- bits.
pub parse-IsPolicy : (text : Text) → IsPolicy (parse text).0
unfolding parse
parse-IsPolicy text =
    parse_lines-IsPolicy (get_lines b'\n' text) 0 empty_policy (record { rules = tt; zones = tt })
