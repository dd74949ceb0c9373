-- ===== src/Console.antt =====
-- src/cli.cpp: the text that it prints, as one text. The digits of a duration, `%.6f` of a double, are
-- an argument.
pub mod Table
use nano_ngfw.Prelude.{
  ℕ, zero, suc, ◌+◌, ◌-◌, ◌%◌, ◌^◌, Bool, List, [], ◌∷◌, ◌++◌, Option, none, some, length,
  get_elem?, ◌==◌, if◌then◌else◌, Text, codes, is_empty,
}
use mathlib.Core.List.{map}
use nano_ngfw.Strings.{to_string}
use nano_ngfw.Policy.{Rule, Policy}
use nano_ngfw.Policy.Names.{zone_to_string, verdict_to_string}
use nano_ngfw.Flow.{Session, FlowTable, app_display, active}
use nano_ngfw.Engine.{Counters, Engine, malformed}
use nano_ngfw.Output.{stream, endpoint, proto_name, state_to_string, rule_at}

abbrev pub spaces : ℕ → Text
spaces zero = []
spaces (suc n) = b' ' ∷ spaces n

-- `%-<width>s` and `%<width>llu`.
abbrev pub left : ℕ → Text → Text
left width t = t ++ spaces (width - length t)

abbrev pub right : ℕ → Text → Text
right width t = spaces (width - length t) ++ t

-- The columns of a line of print_sessions, one space apart.
unfoldable pub columns : Text → Text → Text → Text → Text → Text → Text → Text → Text
columns id app from' to' source destination state action = stream (
    left 4 id
    ∷ codes " "
    ∷ left 18 app
    ∷ codes " "
    ∷ left 8 from'
    ∷ codes " "
    ∷ left 8 to'
    ∷ codes " "
    ∷ left 22 source
    ∷ codes " "
    ∷ left 22 destination
    ∷ codes " "
    ∷ left 12 state
    ∷ codes " "
    ∷ left 6 action
    ∷ [])

abbrev pub session_columns : Session → Text
session_columns s =
    columns (to_string s.id) (app_display s) (zone_to_string s.from_zone) (zone_to_string s.to_zone)
      (endpoint s.init_ip s.init_port) (endpoint s.resp_ip s.resp_port) (state_to_string s.state)
      (verdict_to_string s.verdict)

abbrev pub heading : Text
heading =
    columns (codes "ID") (codes "APP") (codes "FROM") (codes "TO") (codes "SOURCE")
      (codes "DESTINATION") (codes "STATE") (codes "ACTION")

abbrev pub ended : Text → Text
ended line = line ++ b'\n' ∷ []

unfoldable pub print_sessions : List Session → Text
print_sessions ss = stream (ended heading ∷ map (λ s. ended (session_columns s)) ss)

-- What `%s` prints of a c_str(): the bytes before the first NUL.
unfoldable pub c_str : Text → Text
c_str [] = []
c_str (c ∷ cs) = let rest = c_str cs in if c == 0 then [] else c ∷ rest

abbrev pub detail_rule : Option Rule → Text
detail_rule none = codes "(implicit default deny)"
detail_rule (some rule) = c_str rule.name

abbrev pub print_if : Bool → List Text → Text
print_if b ws = if b then stream ws else []

-- print_session_detail of a session, where `seconds` writes microseconds as seconds.
unfoldable pub detail : (ℕ → Text) → Policy → Session → Text
detail seconds p s = stream (
    codes "Session "
    ∷ to_string s.id
    ∷ codes "\n"
    ∷ codes "  application  : "
    ∷ app_display s
    ∷ codes "\n"
    ∷ (if is_empty s.sni
        then []
        else stream (codes "  sni          : " ∷ c_str s.sni ∷ codes "\n" ∷ []))
    ∷ codes "  protocol     : "
    ∷ proto_name s.proto
    ∷ codes "\n"
    ∷ codes "  initiator    : "
    ∷ endpoint s.init_ip s.init_port
    ∷ codes " ("
    ∷ zone_to_string s.from_zone
    ∷ codes ")\n"
    ∷ codes "  responder    : "
    ∷ endpoint s.resp_ip s.resp_port
    ∷ codes " ("
    ∷ zone_to_string s.to_zone
    ∷ codes ")\n"
    ∷ codes "  state        : "
    ∷ state_to_string s.state
    ∷ codes "\n"
    ∷ codes "  rule         : "
    ∷ detail_rule (rule_at p s.matched_rule)
    ∷ codes "\n"
    ∷ codes "  action       : "
    ∷ verdict_to_string s.verdict
    ∷ codes "\n"
    ∷ print_if s.app_shifted (
        codes "  app-id shift : yes -- re-evaluated as "
        ∷ c_str s.app
        ∷ codes " after identification\n"
        ∷ [])
    ∷ print_if s.nat_applied (
        codes "  nat          : "
        ∷ endpoint s.init_ip s.init_port
        ∷ codes " -> "
        ∷ endpoint s.nat_ip s.nat_port
        ∷ codes " (source PAT)\n"
        ∷ [])
    ∷ codes "  c2s          : "
    ∷ to_string s.pkts_c2s
    ∷ codes " packets, "
    ∷ to_string s.bytes_c2s
    ∷ codes " bytes\n"
    ∷ codes "  s2c          : "
    ∷ to_string s.pkts_s2c
    ∷ codes " packets, "
    ∷ to_string s.bytes_s2c
    ∷ codes " bytes\n"
    ∷ codes "  duration     : "
    ∷ seconds ((s.last_seen_us + (2 ^ 64 - s.first_seen_us)) % 2 ^ 64)
    ∷ codes " s\n"
    ∷ [])

abbrev pub detail_of : (ℕ → Text) → Policy → ℕ → Option Session → Text
detail_of seconds p id none = stream (codes "no session " ∷ to_string id ∷ codes "\n" ∷ [])
detail_of seconds p id (some s) = detail seconds p s

unfoldable pub print_session_detail : (ℕ → Text) → Engine → ℕ → Text
print_session_detail seconds e id = detail_of seconds e.policy id (get_elem? e.flows.sessions id)

unfoldable pub line_if : Text → ℕ → Text
line_if label value =
    if value == 0
    then []
    else stream
        (codes "  " ∷ left 18 label ∷ codes " " ∷ right 10 (to_string value) ∷ codes "\n" ∷ [])

abbrev pub total : Text → ℕ → Text
total label value = label ++ right 10 (to_string value)

unfoldable pub print_stats : Engine → Text
print_stats e =
    let c = e.counters in
    stream (
      total (codes "packets            ") c.packets
      ∷ codes "\n"
      ∷ line_if (codes "ipv4") c.ipv4
      ∷ line_if (codes "arp") c.arp
      ∷ line_if (codes "ipv6") c.ipv6
      ∷ line_if (codes "vlan") c.vlan
      ∷ line_if (codes "other-l3") c.other_l3
      ∷ line_if (codes "other-l4") c.other_l4
      ∷ line_if (codes "fragments") c.fragments
      ∷ total (codes "malformed          ") (malformed c)
      ∷ codes "\n"
      ∷ line_if (codes "short-header") c.short_headers
      ∷ line_if (codes "bad-version") c.bad_versions
      ∷ line_if (codes "bad-ihl") c.bad_ihls
      ∷ line_if (codes "bad-length") c.bad_lengths
      ∷ line_if (codes "bad-checksum") c.bad_checksum
      ∷ total (codes "sessions           ") c.sessions_created
      ∷ codes "  (active "
      ∷ to_string (active e.flows)
      ∷ codes ", retired "
      ∷ to_string c.sessions_retired
      ∷ codes ")\n"
      ∷ line_if (codes "out-of-state") c.out_of_state
      ∷ codes "verdicts           allow "
      ∷ to_string c.allowed
      ∷ codes "  deny "
      ∷ to_string c.denied
      ∷ codes "  drop "
      ∷ to_string c.dropped
      ∷ codes "\n"
      ∷ line_if (codes "app-id shifts") c.app_shifts
      ∷ [])
