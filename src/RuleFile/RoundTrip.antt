-- ===== src/RuleFile/RoundTrip.antt =====
-- Policy::parse of src/policy.cpp on a policy that is written as a rule file.
use nano_ngfw.Prelude.{ℕ, ◌+◌, ◌≡◌, ◌∙◌, refl, sym, ap, List, [], ◌∷◌, ◌++◌, none, Text, arith}
use mathlib.Core.List.{map, append_assoc, append-nil}
use nano_ngfw.Strings.{to_string}
use nano_ngfw.Strings.Pieces.{Lacks}
use nano_ngfw.Addresses.{ipv4_to_string}
use nano_ngfw.Policy.{Rule, ZoneRoute, Policy}
use nano_ngfw.RuleFile.{parse_lines, parse, empty_policy}
use nano_ngfw.RuleFile.Printed.{
  join, service_text, listed, zone_words, rule_words, policy_lines, policy_text, IsToken, IsItem,
  All, IsPrintable, PrintableRules, PrintableZones,
}
use nano_ngfw.RuleFile.Tokens.{
  glue-IsToken, to_string-IsToken, ipv4_to_string-IsToken, literal-IsToken, zone_to_string-IsToken,
  verdict_to_string-IsToken, join-IsToken, join-one_line, parse_line-join, get_lines-unlines,
}
use nano_ngfw.RuleFile.Clauses.{rule_line-rule_words, zone_line-zone_words, Printables-IsItem}

All-append {ℓ} : (P : Text → Type ℓ) (s t : List Text) → All P s → All P t → All P (s ++ t)
All-append P [] t a b = b
All-append P (w ∷ s) t (h, a) b = (h, All-append P s t a b)

zone_words-IsToken : (r : ZoneRoute) → All IsToken (zone_words r)
zone_words-IsToken r =
    (literal-IsToken _ _ refl, (zone_to_string-IsToken r.zone, (address_word, tt)))
  where
    address_word : IsToken (ipv4_to_string r.network ++ b'/' ∷ to_string r.prefix)
    address_word =
        glue-IsToken (ipv4_to_string r.network) b'/' (to_string r.prefix)
          (ipv4_to_string-IsToken r.network) refl (λ e. omega arith) (to_string-IsToken r.prefix)

items-IsToken : (ws : List Text) → All IsItem ws → All IsToken ws
items-IsToken [] v = tt
items-IsToken (w ∷ ws) (v, vs) = (v.token, items-IsToken ws vs)

listed-IsToken : (ws : List Text) → All IsItem ws → IsToken (listed ws)
listed-IsToken [] v = literal-IsToken _ _ refl
listed-IsToken (w ∷ ws) v = join-IsToken w ws (items-IsToken (w ∷ ws) v)

rule_words-IsToken : (r : Rule) → IsPrintable r → All IsToken (rule_words r)
rule_words-IsToken r v = (
  literal-IsToken _ _ refl,
  (
    v.name,
    (
      literal-IsToken _ _ refl,
      (
        zone_to_string-IsToken r.source,
        (
          literal-IsToken _ _ refl,
          (
            zone_to_string-IsToken r.target,
            (
              literal-IsToken _ _ refl,
              (
                listed-IsToken (map service_text r.services)
                    (Printables-IsItem r.services v.services),
                (
                  literal-IsToken _ _ refl,
                  (
                    listed-IsToken r.applications v.applications,
                    (literal-IsToken _ _ refl, (verdict_to_string-IsToken r.action, tt)),
                  ),
                ),
              ),
            ),
          ),
        ),
      ),
    ),
  ),
)

abbrev zone_lines : List ZoneRoute → List Text
zone_lines rs = map (λ r. join b' ' (zone_words r)) rs

abbrev rule_lines : List Rule → List Text
rule_lines rs = map (λ r. join b' ' (rule_words r)) rs

zone_lines_whole : (rs : List ZoneRoute) → All (Lacks b'\n') (zone_lines rs)
zone_lines_whole [] = tt
zone_lines_whole (r ∷ rs) =
    (join-one_line (zone_words r) (zone_words-IsToken r), zone_lines_whole rs)

rule_lines_whole : (rs : List Rule) → PrintableRules rs → All (Lacks b'\n') (rule_lines rs)
rule_lines_whole [] v = tt
rule_lines_whole (r ∷ rs) (v, vs) =
    (join-one_line (rule_words r) (rule_words-IsToken r v), rule_lines_whole rs vs)

-- The zone lines add their zones, whatever comes behind them.
parse_lines-zones :
    (rs : List ZoneRoute) (rest : List Text) (n : ℕ) (p : Policy)
    → PrintableZones rs
    → (m : ℕ) × (parse_lines (zone_lines rs ++ rest) n p
        ≡ parse_lines rest m (record p { zones = p.zones ++ rs }))
unfolding parse_lines
parse_lines-zones [] rest n p v =
    (n, ap (λ xs. parse_lines rest n (record p { zones = xs })) (sym (append-nil p.zones)))
parse_lines-zones (r ∷ rs) rest n p (h, k, v) =
    let (m, e) = parse_lines-zones rs rest (n + 1) (record p { zones = p.zones ++ r ∷ [] }) v in
    (
      m,
      rw (parse_line-join p (zone_words r) (zone_words-IsToken r), zone_line-zone_words p r h k)
          (e
            ∙ ap (λ xs. parse_lines rest m (record p { zones = xs }))
                (append_assoc p.zones (r ∷ []) rs)),
    )

parse_lines-rules :
    (rs : List Rule) (n : ℕ) (p : Policy)
    → PrintableRules rs
    → parse_lines (rule_lines rs) n p ≡ (record p { rules = p.rules ++ rs }, none)
unfolding parse_lines
parse_lines-rules [] n p v = ap (λ xs. (record p { rules = xs }, none)) (sym (append-nil p.rules))
parse_lines-rules (r ∷ rs) n p (v, vs) =
    rw (parse_line-join p (rule_words r) (rule_words-IsToken r v), rule_line-rule_words p r v)
      (parse_lines-rules rs (n + 1) (record p { rules = p.rules ++ r ∷ [] }) vs
        ∙ ap (λ xs. (record p { rules = xs }, none)) (append_assoc p.rules (r ∷ []) rs))

-- Let the networks of a policy be 32-bit numbers and their prefixes at most 32, its services TCP or UDP
-- with a 16-bit port, and the names of its rules and applications words without white space, `#` or,
-- for an application, a comma, where no rule lists the application `any` alone. Written as a rule
-- file, the policy is read back by parse as it was, without an error.
pub parse-policy_text :
    (p : Policy)
    → PrintableZones p.zones
    → PrintableRules p.rules
    → parse (policy_text p) ≡ (p, none)
unfolding parse
parse-policy_text p zs rs =
    let lines = get_lines-unlines (policy_lines p) (
      All-append (Lacks b'\n') (zone_lines p.zones) (rule_lines p.rules) (zone_lines_whole p.zones)
        (rule_lines_whole p.rules rs)) in
    let (m, e) = parse_lines-zones p.zones (rule_lines p.rules) 0 empty_policy zs in
    ap (λ ls. parse_lines ls 0 empty_policy) lines
    ∙ e
    ∙ parse_lines-rules p.rules m (record empty_policy { zones = p.zones }) rs
