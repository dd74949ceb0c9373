-- ===== src/Report/Cards.antt =====
-- write_cards of src/report.cpp.
use nano_ngfw.Prelude.{
  ◌+◌, ◌%◌, ◌^◌, Bool, true, false, not, ◌&&◌, List, [], ◌∷◌, if◌then◌else◌, Text, codes, is_empty,
}
use mathlib.Core.List.{map}
use nano_ngfw.Strings.{to_string}
use nano_ngfw.Policy.{Policy}
use nano_ngfw.Policy.Names.{zone_to_string, verdict_to_string}
use nano_ngfw.Flow.{Session, app_display}
use nano_ngfw.Output.{stream, endpoint, proto_name, state_to_string, rule_at}
use nano_ngfw.Report.Table.{escape, rule_name, verdict_class, when}

abbrev pub shifted_parts : Text → List Text
shifted_parts app =
    codes
      "    <p class=\"why\">Admitted on its first packet, when the only thing known about it was a destination port. Once the payload arrived, App-ID identified it as <b>"
    ∷ escape app
    ∷ codes
        "</b>, policy was evaluated a second time against the application, and the session lost the rule that had admitted it.</p>\n"
    ∷ []

-- The paragraph of a card that says why it is shown.
abbrev pub why_text : Bool → Text → Text
why_text true app = stream (shifted_parts app)
why_text false app =
    codes
      "    <p class=\"why\">Identified by payload rather than port. The server name is readable because it travels in the clear in the TLS ClientHello, before encryption begins.</p>\n"

abbrev pub sni_parts : Text → List Text
sni_parts sni = codes "      <dt>sni</dt><dd>" ∷ escape sni ∷ codes "</dd>\n" ∷ []

abbrev pub sni_entry : Text → Text
sni_entry sni = if is_empty sni then [] else stream (sni_parts sni)

abbrev pub nat_parts : Session → List Text
nat_parts s =
    codes "      <dt>nat</dt><dd>"
    ∷ escape (endpoint s.nat_ip s.nat_port)
    ∷ codes " (source PAT)</dd>\n"
    ∷ []

abbrev pub nat_entry : Session → Text
nat_entry s = when s.nat_applied (stream (nat_parts s))

-- The card of a session, in a round of the loop of write_cards.
abbrev pub card_parts : Policy → Session → List Text
card_parts p s =
    codes "  <div class=\"card"
    ∷ when s.app_shifted (codes " hot")
    ∷ codes "\">\n"
    ∷ codes "    <h3>Session "
    ∷ to_string s.id
    ∷ codes " &middot; "
    ∷ escape (app_display s)
    ∷ codes "</h3>\n"
    ∷ why_text s.app_shifted s.app
    ∷ codes "    <dl class=\"kv\">\n"
    ∷ codes "      <dt>protocol</dt><dd>"
    ∷ proto_name s.proto
    ∷ codes "</dd>\n"
    ∷ codes "      <dt>initiator</dt><dd>"
    ∷ escape (endpoint s.init_ip s.init_port)
    ∷ codes " ("
    ∷ zone_to_string s.from_zone
    ∷ codes ")</dd>\n"
    ∷ codes "      <dt>responder</dt><dd>"
    ∷ escape (endpoint s.resp_ip s.resp_port)
    ∷ codes " ("
    ∷ zone_to_string s.to_zone
    ∷ codes ")</dd>\n"
    ∷ sni_entry s.sni
    ∷ nat_entry s
    ∷ codes "      <dt>state</dt><dd>"
    ∷ state_to_string s.state
    ∷ codes "</dd>\n"
    ∷ codes "      <dt>rule</dt><dd>"
    ∷ rule_name (codes "implicit default deny") (rule_at p s.matched_rule)
    ∷ codes "</dd>\n"
    ∷ codes "      <dt>action</dt><dd><span class=\"badge "
    ∷ verdict_class s.verdict
    ∷ codes "\">"
    ∷ verdict_to_string s.verdict
    ∷ codes "</span></dd>\n"
    ∷ codes "      <dt>traffic</dt><dd>"
    ∷ to_string s.pkts_c2s
    ∷ codes " &rarr; / "
    ∷ to_string s.pkts_s2c
    ∷ codes " &larr; packets, "
    ∷ to_string ((s.bytes_c2s + s.bytes_s2c) % 2 ^ 64)
    ∷ codes " bytes</dd>\n"
    ∷ codes "    </dl>\n  </div>\n"
    ∷ []

unfoldable pub write_card : Policy → Session → Text
write_card p s = stream (card_parts p s)

-- The sessions that the loop of write_cards does not pass over.
abbrev pub is_shown : Session → Bool
is_shown s = not (not s.app_shifted && is_empty s.sni)

abbrev pub shown : List Session → List Session
shown [] = []
shown (s ∷ ss) = if is_shown s then s ∷ shown ss else shown ss

abbrev pub cards_parts : Policy → List Session → List Text
cards_parts p ss =
    codes "<h2>Sessions worth a second look</h2>\n<div class=\"cards\">\n"
    ∷ stream (map (write_card p) ss)
    ∷ codes "</div>\n"
    ∷ []

-- The end of write_cards: nothing is written unless `any`.
abbrev pub cards_section : Policy → List Session → Text
cards_section p [] = []
cards_section p (s ∷ ss) = stream (cards_parts p (s ∷ ss))

unfoldable pub write_cards : Policy → List Session → Text
write_cards p ss = cards_section p (shown ss)
