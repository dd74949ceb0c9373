-- ===== src/Report.antt =====
-- src/report.cpp: the HTML report, as the text that is written to the file.
pub mod Head
pub mod Table
pub mod Escape
pub mod Cards
pub mod Markup
pub mod Plain
pub mod TableTags
pub mod CardTags
pub mod Document
pub mod Tests
use nano_ngfw.Prelude.{
  ℕ, ◌+◌, ◌%◌, ◌^◌, Bool, true, false, not, ◌&&◌, List, [], ◌∷◌, ◌++◌, Option, none, some, length,
  ◌==◌, if◌then◌else◌, Text, codes, is_empty,
}
use mathlib.Core.List.{map}
use nano_ngfw.Strings.{to_string}
use nano_ngfw.Policy.{Verdict, allow, deny, drop, Rule, Policy}
use nano_ngfw.Policy.Names.{zone_to_string, verdict_to_string}
use nano_ngfw.Flow.{Session, app_display}
use nano_ngfw.Engine.{Counters, Engine, malformed}
use nano_ngfw.Output.{stream, endpoint, proto_name, state_to_string, rule_at}
use nano_ngfw.Report.Head.{head_text}
use nano_ngfw.Report.Table.{
  escape, escape_byte, is_placeholder, refused, row_parts, rule_name, table_parts, tile, tile_parts,
  tiles_parts, verdict_class, when, when_nonzero, write_row, write_table, write_tiles,
}
use nano_ngfw.Report.Cards.{
  card_parts, cards_parts, cards_section, is_shown, nat_entry, nat_parts, shifted_parts, shown,
  sni_entry, sni_parts, why_text, write_card, write_cards,
}

abbrev pub header_parts : Policy → Text → Text → List Text
header_parts p capture policy =
    codes "<header>\n"
    ∷ codes "  <h1>nano&#8209;ngfw <span class=\"dim\">session report</span></h1>\n"
    ∷ codes "  <div class=\"meta\">"
    ∷ codes "<span>capture <b>"
    ∷ escape capture
    ∷ codes "</b></span>"
    ∷ codes "<span>policy <b>"
    ∷ escape (if is_empty policy then codes "built-in" else policy)
    ∷ codes "</b></span>"
    ∷ codes "<span>rules <b>"
    ∷ to_string (length p.rules)
    ∷ codes "</b></span>"
    ∷ codes "</div>\n</header>\n"
    ∷ []

unfoldable pub write_header : Policy → Text → Text → Text
write_header p capture policy = stream (header_parts p capture policy)

abbrev pub footer_parts : List Text
footer_parts =
    codes "<footer>\n"
    ∷ codes
        "Generated by <code>nano-ngfw --html</code>. Static: one rendering of one replay, with no server behind it and no script in the page.<br>\n"
    ∷ codes
        "Every timestamp derives from the capture rather than a wall clock, so re-running the same file reproduces this report byte for byte.\n"
    ∷ codes "</footer>\n"
    ∷ codes "</div>\n</body>\n</html>\n"
    ∷ []

unfoldable pub footer : Text
footer = stream (footer_parts)

-- write_html_report: what it writes to a file that opens.
abbrev pub html_text_parts : Engine → Text → Text → List Text
html_text_parts e capture policy =
    head_text
    ∷ write_header e.policy capture policy
    ∷ write_tiles e.counters
    ∷ write_table e.policy e.flows.sessions
    ∷ write_cards e.policy e.flows.sessions
    ∷ footer
    ∷ []

unfoldable pub html_text : Engine → Text → Text → Text
html_text e capture policy = stream (html_text_parts e capture policy)
