-- ===== src/RuleFile/Printed.antt =====
-- A policy as the text of a rule file, in the syntax that src/policy.cpp reads: one line for each zone
-- and each rule.
use nano_ngfw.Prelude.{
  ℕ, ◌≤◌, ◌<◌, ◌^◌, ◌≡◌, ◌≢◌, ◌⊎◌, List, [], ◌∷◌, ◌++◌, if◌then◌else◌, ◌==◌, Text, codes,
}
use mathlib.Core.List.{map}
use nano_ngfw.Strings.{to_string}
use nano_ngfw.Strings.Pieces.{Lacks, IsWord}
use nano_ngfw.Addresses.{ipv4_to_string}
use nano_ngfw.Policy.{Service, Rule, ZoneRoute, Policy}
use nano_ngfw.Policy.Names.{zone_to_string, verdict_to_string}
use nano_ngfw.RuleFile.{unlines}

-- The items with the separator between them.
abbrev pub join : ℕ → List Text → Text
join sep [] = []
join sep (w ∷ []) = w
join sep (w ∷ v ∷ ws) = w ++ sep ∷ join sep (v ∷ ws)

abbrev pub protocol_name : ℕ → Text
protocol_name proto = if proto == 6 then codes "tcp" else codes "udp"

abbrev pub service_text : Service → Text
service_text s =
    protocol_name s.proto ++ b'/' ∷ (if s.port == 0 then codes "any" else to_string s.port)

-- A clause that lists nothing says any.
abbrev pub listed : List Text → Text
listed [] = codes "any"
listed (w ∷ ws) = join b',' (w ∷ ws)

abbrev pub zone_words : ZoneRoute → List Text
zone_words r =
    codes "zone"
    ∷ zone_to_string r.zone
    ∷ (ipv4_to_string r.network ++ b'/' ∷ to_string r.prefix)
    ∷ []

abbrev pub rule_words : Rule → List Text
rule_words r =
    codes "rule"
    ∷ r.name
    ∷ codes "from"
    ∷ zone_to_string r.source
    ∷ codes "to"
    ∷ zone_to_string r.target
    ∷ codes "service"
    ∷ listed (map service_text r.services)
    ∷ codes "application"
    ∷ listed r.applications
    ∷ codes "action"
    ∷ verdict_to_string r.action
    ∷ []

abbrev pub policy_lines : Policy → List Text
policy_lines p =
    map (λ r. join b' ' (zone_words r)) p.zones ++ map (λ r. join b' ' (rule_words r)) p.rules

abbrev pub policy_text : Policy → Text
policy_text p = unlines (policy_lines p)

-- A word that a rule file can hold: not empty, no white space and no comment sign in it.
pub record IsToken (w : Text) : Type 0 where
  pub word : IsWord w
  pub uncommented : Lacks b'#' w

-- An application name that can be listed.
pub record IsItem (w : Text) : Type 0 where
  pub token : IsToken w
  pub commaless : Lacks b',' w

abbrev pub All {ℓ} : (Text → Type ℓ) → List Text → Type ℓ
All P [] = Unit
All P (w ∷ ws) = P w × All P ws

-- TCP or UDP, with a port of 16 bits or any.
abbrev pub Printables : List Service → Type 0
Printables [] = Unit {0}
Printables (s ∷ ss) = ((s.proto ≡ 6) ⊎ (s.proto ≡ 17)) × (s.port < 2 ^ 16) × Printables ss

pub record IsPrintable (r : Rule) : Type 0 where
  pub name : IsToken r.name
  pub services : Printables r.services
  pub applications : All IsItem r.applications
  pub not_any : r.applications ≢ codes "any" ∷ []

abbrev pub PrintableRules : List Rule → Type 0
PrintableRules [] = Unit {0}
PrintableRules (r ∷ rs) = IsPrintable r × PrintableRules rs

abbrev pub PrintableZones : List ZoneRoute → Type 0
PrintableZones [] = Unit {0}
PrintableZones (r ∷ rs) = (r.network < 2 ^ 32) × (r.prefix ≤ 32) × PrintableZones rs
