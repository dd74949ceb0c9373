-- ===== src/RuleFile/Clauses.antt =====
-- The clauses of a rule file as they are written, and src/policy.cpp on each of them.
use nano_ngfw.Prelude.{
  ℕ, ◌≤◌, ◌<◌, ◌^◌, ◌≡◌, ◌≢◌, ◌∙◌, refl, sym, ap, ◌⊎◌, inl, inr, false, List, [], ◌∷◌, ◌++◌, some,
  if◌then◌else◌, ◌==◌, Text, codes, text_eq, eq_of_text_eq, arith, Bool-cases,
}
use mathlib.Core.List.{map, append_assoc, append-nil}
use nano_ngfw.Strings.{to_string, get_lines}
use nano_ngfw.Strings.Numbers.{to_string_first}
use nano_ngfw.Strings.Pieces.{Lacks, Lacks-append, split_at_first-append}
use nano_ngfw.Addresses.{split}
use nano_ngfw.Addresses.Quads.{to_string-Lacks, strtol_number, parse_cidr-ipv4_to_string}
use nano_ngfw.Policy.{Zone, Verdict, Service, Rule, ZoneRoute, Policy}
use nano_ngfw.Policy.Names.{
  zone_to_string, verdict_to_string, zone_from_string_iff, verdict_from_string_iff,
}
use nano_ngfw.RuleFile.{
  protocol, service_port, parse_service, add_services, rule_clause, rule_clauses, new_rule,
  rule_line, zone_line, parse_tokens,
}
use nano_ngfw.RuleFile.Printed.{
  join, protocol_name, service_text, listed, zone_words, rule_words, IsToken, IsItem, All,
  Printables, IsPrintable,
}
use nano_ngfw.RuleFile.Tokens.{glue-IsToken, to_string-IsToken, literal-IsToken, split-join}

abbrev IsTransport : ℕ → Type 0
IsTransport p = (p ≡ 6) ⊎ (p ≡ 17)

protocol_name-IsToken : (p : ℕ) → IsTransport p → IsToken (protocol_name p)
protocol_name-IsToken p (inl e) = rw e (literal-IsToken _ _ refl)
protocol_name-IsToken p (inr e) = rw e (literal-IsToken _ _ refl)

protocol_name-Lacks : (sep p : ℕ) → sep < 96 → IsTransport p → Lacks sep (protocol_name p)
protocol_name-Lacks sep p h (inl e) =
    rw e (λ e. omega arith, (λ e. omega arith, (λ e. omega arith, tt)))
protocol_name-Lacks sep p h (inr e) =
    rw e (λ e. omega arith, (λ e. omega arith, (λ e. omega arith, tt)))

protocol-protocol_name : (p : ℕ) → IsTransport p → protocol (protocol_name p) ≡ some p
protocol-protocol_name p (inl e) = rw e refl
protocol-protocol_name p (inr e) = rw e refl

protocol_name_any :
    (p : ℕ) (t : Text) → IsTransport p → text_eq (protocol_name p ++ t) (codes "any") ≡ false
protocol_name_any p t (inl e) = rw e refl
protocol_name_any p t (inr e) = rw e refl

abbrev port_text : ℕ → Text
port_text n = if n == 0 then codes "any" else to_string n

port_text-IsToken : (n : ℕ) → IsToken (port_text n)
port_text-IsToken n = elim (Bool-cases (n == 0)) [
  | inl e ↦ rw e (literal-IsToken _ _ refl)
  | inr e ↦ rw e (to_string-IsToken n)
]

port_text-Lacks : (n : ℕ) → Lacks b',' (port_text n)
port_text-Lacks n = elim (Bool-cases (n == 0)) [
  | inl e ↦ rw e (λ e. omega arith, (λ e. omega arith, (λ e. omega arith, tt)))
  | inr e ↦ rw e (to_string-Lacks b',' n refl)
]

to_string_any : (n : ℕ) → text_eq (to_string n) (codes "any") ≡ false
to_string_any n = let (c, cs, e, d) = to_string_first n in rw e (ground arith)

service_port-port_text : (n : ℕ) → n < 2 ^ 16 → service_port (port_text n) ≡ some n
service_port-port_text n h = elim (Bool-cases (n == 0)) [
  | inl e ↦ rw e (ground arith)
  | inr e ↦ rw (e, to_string_any n, strtol_number n (omega arith)) (ground arith)
]

service_text-IsItem : (s : Service) → IsTransport s.proto → IsItem (service_text s)
service_text-IsItem s h = record {
  token =
      glue-IsToken (protocol_name s.proto) b'/' (port_text s.port) (protocol_name-IsToken s.proto h)
        refl (λ e. omega arith) (port_text-IsToken s.port);
  commaless =
      Lacks-append b',' (protocol_name s.proto) (b'/' ∷ port_text s.port)
        (protocol_name-Lacks b',' s.proto (omega arith) h)
        (λ e. omega arith, port_text-Lacks s.port);
}

parse_service-service_text :
    (s : Service) → IsTransport s.proto → s.port < 2 ^ 16 → parse_service (service_text s) ≡ some s
unfolding parse_service
parse_service-service_text s h k =
    rw
      (
        protocol_name_any s.proto (b'/' ∷ port_text s.port) h,
        split_at_first-append b'/' (protocol_name s.proto) (port_text s.port)
            (protocol_name-Lacks b'/' s.proto (omega arith) h),
        protocol-protocol_name s.proto h,
        service_port-port_text s.port k,
      )
      refl

pub Printables-IsItem : (ss : List Service) → Printables ss → All IsItem (map service_text ss)
Printables-IsItem [] v = tt
Printables-IsItem (s ∷ ss) (h, k, v) = (service_text-IsItem s h, Printables-IsItem ss v)

add_services-service_text :
    (ss : List Service) (r : Rule)
    → Printables ss
    → add_services (map service_text ss) r ≡ inr (record r { services = r.services ++ ss })
unfolding add_services
add_services-service_text [] r v =
    ap (λ xs. inr (record r { services = xs })) (sym (append-nil r.services))
add_services-service_text (s ∷ ss) r (h, k, v) = rw (parse_service-service_text s h k) (
    add_services-service_text ss (record r { services = r.services ++ s ∷ [] }) v
    ∙ ap (λ xs. inr (record r { services = xs })) (append_assoc r.services (s ∷ []) ss))

join_first : (sep : ℕ) (w : Text) (ws : List Text) → (t : Text) × (join sep (w ∷ ws) ≡ w ++ t)
join_first sep w [] = ([], sym (append-nil w))
join_first sep w (v ∷ ws) = (sep ∷ join sep (v ∷ ws), refl)

listed-service_text :
    (s : Service) (ss : List Service)
    → IsTransport s.proto
    → text_eq (listed (map service_text (s ∷ ss))) (codes "any") ≡ false
listed-service_text s ss h =
    let (t, e) = join_first b',' (service_text s) (map service_text ss) in
    rw (e, append_assoc (protocol_name s.proto) (b'/' ∷ port_text s.port) t)
      (protocol_name_any s.proto (b'/' ∷ port_text s.port ++ t) h)

service_clause :
    (ss : List Service) (r : Rule)
    → Printables ss
    → rule_clause r (codes "service") (listed (map service_text ss))
      ≡ inr (record r { services = r.services ++ ss })
unfolding rule_clause
service_clause [] r v = ap (λ xs. inr (record r { services = xs })) (sym (append-nil r.services))
service_clause (s ∷ ss) r (h, k, v) =
    rw
      (
        listed-service_text s ss h,
        split-join (map service_text (s ∷ ss)) (Printables-IsItem (s ∷ ss) (h, k, v)),
      )
      (add_services-service_text (s ∷ ss) r (h, k, v))

listed_any :
    (w : Text) (ws : List Text)
    → All IsItem (w ∷ ws)
    → w ∷ ws ≢ codes "any" ∷ []
    → text_eq (listed (w ∷ ws)) (codes "any") ≡ false
listed_any w ws v ne = elim (Bool-cases (text_eq (listed (w ∷ ws)) (codes "any"))) [
  | inl e ↦
      let same = eq_of_text_eq (listed (w ∷ ws)) (codes "any") e in
      let single : split (codes "any") b',' ≡ codes "any" ∷ [] = unfold split get_lines in refl in
      absurd (ne (sym (split-join (w ∷ ws) v) ∙ ap (λ t. split t b',') same ∙ single))
  | inr e ↦ e
]

application_clause :
    (ws : List Text) (r : Rule)
    → All IsItem ws
    → ws ≢ codes "any" ∷ []
    → rule_clause r (codes "application") (listed ws)
      ≡ inr (record r { applications = r.applications ++ ws })
unfolding rule_clause
application_clause [] r v ne =
    ap (λ xs. inr (record r { applications = xs })) (sym (append-nil r.applications))
application_clause (w ∷ ws) r v ne = rw (listed_any w ws v ne, split-join (w ∷ ws) v) refl

from_clause :
    (z : Zone) (r : Rule)
    → rule_clause r (codes "from") (zone_to_string z) ≡ inr (record r { source = z })
unfolding rule_clause
from_clause z r = rw ((zone_from_string_iff (zone_to_string z) z).1 refl) refl

to_clause :
    (z : Zone) (r : Rule)
    → rule_clause r (codes "to") (zone_to_string z) ≡ inr (record r { target = z })
unfolding rule_clause
to_clause z r = rw ((zone_from_string_iff (zone_to_string z) z).1 refl) refl

action_clause :
    (a : Verdict) (r : Rule)
    → rule_clause r (codes "action") (verdict_to_string a) ≡ inr (record r { action = a })
unfolding rule_clause
action_clause a r = rw ((verdict_from_string_iff (verdict_to_string a) a).1 refl) refl

pub rule_line-rule_words :
    (p : Policy) (r : Rule)
    → IsPrintable r
    → parse_tokens p (rule_words r) ≡ inr (record p { rules = p.rules ++ r ∷ [] })
unfolding parse_tokens rule_line rule_clauses
rule_line-rule_words p r v =
    rw
      (
        from_clause r.source (new_rule r.name),
        to_clause r.target (record (new_rule r.name) { source = r.source }),
        service_clause r.services
            (record (new_rule r.name) { source = r.source; target = r.target }) v.services,
        application_clause r.applications
            (record (new_rule r.name) {
              source = r.source;
              target = r.target;
              services = r.services;
            })
            v.applications v.not_any,
        action_clause r.action (record (new_rule r.name) {
          source = r.source;
          target = r.target;
          services = r.services;
          applications = r.applications;
        }),
      )
      refl

pub zone_line-zone_words :
    (p : Policy) (r : ZoneRoute)
    → r.network < 2 ^ 32
    → r.prefix ≤ 32
    → parse_tokens p (zone_words r) ≡ inr (record p { zones = p.zones ++ r ∷ [] })
unfolding parse_tokens zone_line
zone_line-zone_words p r h k =
    rw
      (
        (zone_from_string_iff (zone_to_string r.zone) r.zone).1 refl,
        parse_cidr-ipv4_to_string r.network r.prefix h k,
      )
      refl
