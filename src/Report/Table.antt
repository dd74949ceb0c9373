-- ===== src/Report/Table.antt =====
-- src/report.cpp up to write_table: escaping, the tiles and the table of sessions.
use nano_ngfw.Prelude.{
  ℕ, ◌+◌, ◌%◌, ◌^◌, Bool, not, List, [], ◌∷◌, ◌++◌, Option, none, some, ◌==◌, if◌then◌else◌, Text,
  codes,
}
use mathlib.Core.List.{map}
use nano_ngfw.Strings.{to_string}
use nano_ngfw.Policy.{Verdict, allow, deny, drop, Rule, Policy}
use nano_ngfw.Policy.Names.{zone_to_string, verdict_to_string}
use nano_ngfw.Flow.{Session, app_display}
use nano_ngfw.Engine.{Counters, malformed}
use nano_ngfw.Output.{stream, endpoint, state_to_string, rule_at}

abbrev pub escape_byte : ℕ → Text
escape_byte c =
    if c == b'&'
    then codes "&amp;"
    else if c == b'<'
    then codes "&lt;"
    else if c == b'>'
    then codes "&gt;"
    else if c == b'"'
    then codes "&quot;"
    else if c == b'\''
    then codes "&#39;"
    else c ∷ []

unfoldable pub escape : Text → Text
escape [] = []
escape (c ∷ cs) = escape_byte c ++ escape cs

abbrev pub is_placeholder : Session → Bool
is_placeholder s = not s.app_latched

abbrev pub verdict_class : Verdict → Text
verdict_class allow = codes "allow"
verdict_class deny = codes "deny"
verdict_class drop = codes "drop"

-- The lambda `tile` of write_tiles.
abbrev pub tile_parts : Text → ℕ → Text → List Text
tile_parts cls n label =
    codes "  <div class=\"tile "
    ∷ cls
    ∷ codes "\"><div class=\"n\">"
    ∷ to_string n
    ∷ codes "</div><div class=\"k\">"
    ∷ label
    ∷ codes "</div></div>\n"
    ∷ []

abbrev pub tile : Text → ℕ → Text → Text
tile cls n label = stream (tile_parts cls n label)

abbrev pub when_nonzero : Text → ℕ → Text
when_nonzero cls n = if n == 0 then [] else cls

-- `c.denied + c.dropped`
abbrev pub refused : Counters → ℕ
refused c = (c.denied + c.dropped) % 2 ^ 64

abbrev pub tiles_parts : Counters → List Text
tiles_parts c =
    codes "<div class=\"tiles\">\n"
    ∷ tile [] c.packets (codes "packets")
    ∷ tile [] c.sessions_created (codes "sessions")
    ∷ tile (when_nonzero (codes "ok") c.allowed) c.allowed (codes "allowed")
    ∷ tile (when_nonzero (codes "bad") (refused c)) (refused c) (codes "denied / dropped")
    ∷ tile (when_nonzero (codes "hot") c.app_shifts) c.app_shifts (codes "app-id shifts")
    ∷ tile (when_nonzero (codes "bad") c.out_of_state) c.out_of_state (codes "out of state")
    ∷ tile (when_nonzero (codes "bad") (malformed c)) (malformed c) (codes "malformed")
    ∷ codes "</div>\n"
    ∷ []

unfoldable pub write_tiles : Counters → Text
write_tiles c = stream (tiles_parts c)

-- `rule != nullptr ? escape(rule->name) : ...`
abbrev pub rule_name : Text → Option Rule → Text
rule_name otherwise none = otherwise
rule_name otherwise (some rule) = escape rule.name

abbrev pub when : Bool → Text → Text
when b t = if b then t else []

-- A round of the loop of write_table.
abbrev pub row_parts : Policy → Session → List Text
row_parts p s =
    codes "<tr"
    ∷ when s.app_shifted (codes " class=\"shifted\"")
    ∷ codes ">"
    ∷ codes "<td class=\"id\">"
    ∷ to_string s.id
    ∷ codes "</td>"
    ∷ codes "<td class=\"app"
    ∷ when (is_placeholder s) (codes " placeholder")
    ∷ codes "\">"
    ∷ escape (app_display s)
    ∷ codes "</td>"
    ∷ codes "<td class=\"zone\">"
    ∷ zone_to_string s.from_zone
    ∷ codes "</td>"
    ∷ codes "<td class=\"zone\">"
    ∷ zone_to_string s.to_zone
    ∷ codes "</td>"
    ∷ codes "<td>"
    ∷ escape (endpoint s.init_ip s.init_port)
    ∷ codes "</td>"
    ∷ codes "<td>"
    ∷ escape (endpoint s.resp_ip s.resp_port)
    ∷ codes "</td>"
    ∷ codes "<td class=\"zone\">"
    ∷ state_to_string s.state
    ∷ codes "</td>"
    ∷ codes "<td class=\"zone\">"
    ∷ rule_name (codes "default deny") (rule_at p s.matched_rule)
    ∷ codes "</td>"
    ∷ codes "<td><span class=\"badge "
    ∷ verdict_class s.verdict
    ∷ codes "\">"
    ∷ verdict_to_string s.verdict
    ∷ codes "</span></td>"
    ∷ codes "<td>"
    ∷ when s.app_shifted (codes "<span class=\"flag\">APP-ID SHIFT</span>")
    ∷ codes "</td>"
    ∷ codes "</tr>\n"
    ∷ []

unfoldable pub write_row : Policy → Session → Text
write_row p s = stream (row_parts p s)

abbrev pub table_parts : Policy → List Session → List Text
table_parts p ss =
    codes "<h2>Session browser</h2>\n<div class=\"scroll\"><table>\n"
    ∷ codes "<thead><tr>"
    ∷ codes "<th>ID</th><th>Application</th><th>From</th><th>To</th>"
    ∷ codes "<th>Source</th><th>Destination</th><th>State</th><th>Rule</th>"
    ∷ codes "<th>Action</th><th></th>"
    ∷ codes "</tr></thead>\n<tbody>\n"
    ∷ stream (map (write_row p) ss)
    ∷ codes "</tbody>\n</table></div>\n"
    ∷ []

unfoldable pub write_table : Policy → List Session → Text
write_table p ss = stream (table_parts p ss)
