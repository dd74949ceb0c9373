-- ===== src/Policy/Names.antt =====
-- The names of zones and verdicts of src/policy.cpp, in rule files and in the output.
use nano_ngfw.Prelude.{
  ◌≡◌, ◌↔◌, refl, Option, none, some, arith, if◌then◌else◌, Text, codes, text_eq, eq_of_text_eq,
}
use nano_ngfw.Policy.{Zone, any, trust, untrust, dmz, Verdict, allow, deny, drop}

-- to_string(Zone) and to_string(Verdict).
unfoldable pub zone_to_string : Zone → Text
zone_to_string any = codes "any"
zone_to_string trust = codes "trust"
zone_to_string untrust = codes "untrust"
zone_to_string dmz = codes "dmz"

unfoldable pub verdict_to_string : Verdict → Text
verdict_to_string allow = codes "allow"
verdict_to_string deny = codes "deny"
verdict_to_string drop = codes "drop"

-- The out-parameter, unless the function returns false.
unfoldable pub zone_from_string : Text → Option Zone
zone_from_string s =
    if text_eq s (codes "trust")
    then some trust
    else if text_eq s (codes "untrust")
    then some untrust
    else if text_eq s (codes "dmz")
    then some dmz
    else if text_eq s (codes "any")
    then some any
    else none

unfoldable pub verdict_from_string : Text → Option Verdict
verdict_from_string s =
    if text_eq s (codes "allow")
    then some allow
    else if text_eq s (codes "deny")
    then some deny
    else if text_eq s (codes "drop")
    then some drop
    else none

zone_read : (z : Zone) → zone_from_string (zone_to_string z) ≡ some z
unfolding zone_from_string zone_to_string
zone_read any = refl
zone_read trust = refl
zone_read untrust = refl
zone_read dmz = refl

verdict_read : (v : Verdict) → verdict_from_string (verdict_to_string v) ≡ some v
unfolding verdict_from_string verdict_to_string
verdict_read allow = refl
verdict_read deny = refl
verdict_read drop = refl

zone_written : (s : Text) (z : Zone) → zone_from_string s ≡ some z → s ≡ zone_to_string z
unfolding zone_from_string zone_to_string
zone_written s z h = ground (
  arith,
  eq_of_text_eq s (codes "trust"),
  eq_of_text_eq s (codes "untrust"),
  eq_of_text_eq s (codes "dmz"),
  eq_of_text_eq s (codes "any"),
)

verdict_written :
    (s : Text) (v : Verdict) → verdict_from_string s ≡ some v → s ≡ verdict_to_string v
unfolding verdict_from_string verdict_to_string
verdict_written s v h = ground (
  arith,
  eq_of_text_eq s (codes "allow"),
  eq_of_text_eq s (codes "deny"),
  eq_of_text_eq s (codes "drop"),
)

-- A word is read as a zone exactly if it is what that zone is written as.
pub zone_from_string_iff :
    (s : Text) (z : Zone) → (zone_from_string s ≡ some z) ↔ (s ≡ zone_to_string z)
zone_from_string_iff s z = (zone_written s z, λ e. rw e (zone_read z))

-- A word is read as a verdict exactly if it is what that verdict is written as.
pub verdict_from_string_iff :
    (s : Text) (v : Verdict) → (verdict_from_string s ≡ some v) ↔ (s ≡ verdict_to_string v)
verdict_from_string_iff s v = (verdict_written s v, λ e. rw e (verdict_read v))
