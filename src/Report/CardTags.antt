-- ===== src/Report/CardTags.antt =====
-- The tags of the cards of src/report.cpp.
use nano_ngfw.Prelude.{
  ℕ, ◌+◌, ◌%◌, ◌^◌, ◌∙◌, refl, ap, Bool, true, false, not, List, [], ◌∷◌, if◌then◌else◌, Text,
  codes, is_empty, arith, Bool-cases, inl, inr,
}
use mathlib.Core.List.{map}
use nano_ngfw.Strings.Pieces.{Lacks}
use nano_ngfw.Addresses.Quads.{to_string-Lacks}
use nano_ngfw.Policy.{Verdict, Policy}
use nano_ngfw.Flow.{Session, app_display}
use nano_ngfw.Output.{stream, proto_name, rule_at}
use nano_ngfw.Report.Markup.{markup, after}
use nano_ngfw.Report.Table.{verdict_class, when}
use nano_ngfw.Report.Cards.{
  card_parts, cards_parts, cards_section, nat_entry, nat_parts, shifted_parts, sni_entry, sni_parts,
  why_text, write_card,
}
use nano_ngfw.Report.Plain.{
  escape-Lacks, zone_to_string-Lacks, endpoint-Lacks, state_to_string-Lacks,
  verdict_to_string-Lacks, rule_name-Lacks, HasTags, stream-HasTags, verdict_class-Lacks,
  stream-AllTags, HasTags-map,
}

abbrev pub why_tags : Bool → Text
why_tags shifted =
    if shifted then codes "<p class=\"why\"><b></b></p>" else codes "<p class=\"why\"></p>"

pub why_text-tags :
    (shifted : Bool) (app : Text) → HasTags (why_text shifted app) (why_tags shifted)
unfolding markup after
why_text-tags true app =
    stream-HasTags (codes "ftf") (shifted_parts app) (refl, escape-Lacks app, refl)
why_text-tags false app = (refl, refl)

-- The tags of an entry of a card that may be left out.
abbrev pub entry_tags : Bool → Text
entry_tags given = if given then codes "<dt></dt><dd></dd>" else []

pub sni_entry-tags : (sni : Text) → HasTags (sni_entry sni) (entry_tags (not (is_empty sni)))
unfolding markup after
sni_entry-tags [] = (refl, refl)
sni_entry-tags (c ∷ cs) =
    stream-HasTags (codes "ftf") (sni_parts (c ∷ cs)) (refl, escape-Lacks (c ∷ cs), refl)

pub nat_entry-tags : (s : Session) → HasTags (nat_entry s) (entry_tags s.nat_applied)
unfolding markup after
nat_entry-tags s = elim (Bool-cases s.nat_applied) [
  | inl e ↦
      rw e (
        stream-HasTags (codes "ftf") (nat_parts s) (refl, endpoint-Lacks s.nat_ip s.nat_port, refl))
  | inr e ↦ rw e (refl, refl)
]

pub hot-Lacks : (b : Bool) → Lacks b'>' (when b (codes " hot"))
hot-Lacks b = ground arith

pub proto_name-Lacks : (p : ℕ) → Lacks b'<' (proto_name p)
proto_name-Lacks p = ground arith

-- The tags of a card around those of its paragraph and of its entries.
abbrev pub card_frame : Bool → Verdict → Text → Text → Text → Text
card_frame shifted v why sni nat = stream (
    codes "<div class=\"card"
    ∷ when shifted (codes " hot")
    ∷ codes "\"><h3></h3>"
    ∷ why
    ∷ codes "<dl class=\"kv\"><dt></dt><dd></dd><dt></dt><dd></dd><dt></dt><dd></dd>"
    ∷ sni
    ∷ nat
    ∷ codes "<dt></dt><dd></dd><dt></dt><dd></dd><dt></dt><dd><span class=\"badge "
    ∷ verdict_class v
    ∷ codes "\"></span></dd><dt></dt><dd></dd></dl></div>"
    ∷ [])

-- The tags of a card.
abbrev pub card_tags : Session → Text
card_tags s =
    card_frame s.app_shifted s.verdict (why_tags s.app_shifted) (entry_tags (not (is_empty s.sni)))
      (entry_tags s.nat_applied)

pub write_card_frame :
    (p : Policy) (s : Session)
    → HasTags (write_card p s) (
        card_frame s.app_shifted s.verdict
          (markup false (why_text s.app_shifted s.app))
          (markup false (sni_entry s.sni))
          (markup false (nat_entry s)))
unfolding write_card markup after
write_card_frame p s =
    let why_end = (why_text-tags s.app_shifted s.app).1 in
    let sni_end = (sni_entry-tags s.sni).1 in
    let nat_end = (nat_entry-tags s).1 in
    stream-HasTags (codes "faf ftftf p f ftf ftftf ftftf p p ftf ftf faftf ftftftf f")
      (card_parts p s)
      (
        refl,
        hot-Lacks s.app_shifted,
        (
          refl,
          to_string-Lacks b'<' s.id refl,
          (
            refl,
            escape-Lacks (app_display s),
            (
              refl,
              why_end,
              (
                refl,
                proto_name-Lacks s.proto,
                (
                  refl,
                  endpoint-Lacks s.init_ip s.init_port,
                  (
                    refl,
                    zone_to_string-Lacks s.from_zone,
                    (
                      refl,
                      endpoint-Lacks s.resp_ip s.resp_port,
                      (
                        refl,
                        zone_to_string-Lacks s.to_zone,
                        (
                          refl,
                          sni_end,
                          (
                            refl,
                            nat_end,
                            (
                              refl,
                              state_to_string-Lacks s.state,
                              (
                                refl,
                                rule_name-Lacks (codes "implicit default deny") (ground arith)
                                    (rule_at p s.matched_rule),
                                (
                                  refl,
                                  verdict_class-Lacks s.verdict,
                                  (
                                    refl,
                                    verdict_to_string-Lacks s.verdict,
                                    (
                                      refl,
                                      to_string-Lacks b'<' s.pkts_c2s refl,
                                      (
                                        refl,
                                        to_string-Lacks b'<' s.pkts_s2c refl,
                                        (
                                          refl,
                                          to_string-Lacks b'<'
                                              ((s.bytes_c2s + s.bytes_s2c) % 2 ^ 64) refl,
                                          refl,
                                        ),
                                      ),
                                    ),
                                  ),
                                ),
                              ),
                            ),
                          ),
                        ),
                      ),
                    ),
                  ),
                ),
              ),
            ),
          ),
        ),
      )

pub write_card-tags : (p : Policy) (s : Session) → HasTags (write_card p s) (card_tags s)
write_card-tags p s =
    let (m, a) = write_card_frame p s in
    let frame = card_frame s.app_shifted s.verdict in
    let named = entry_tags (not (is_empty s.sni)) in
    (
      m
          ∙ ap (λ t. frame t (markup false (sni_entry s.sni)) (markup false (nat_entry s)))
              (why_text-tags s.app_shifted s.app).0
          ∙ ap (λ t. frame (why_tags s.app_shifted) t (markup false (nat_entry s)))
              (sni_entry-tags s.sni).0
          ∙ ap (λ t. frame (why_tags s.app_shifted) named t) (nat_entry-tags s).0,
      a,
    )

-- The tags of the cards, if a session has one.
abbrev pub cards_tag_parts : List Session → List Text
cards_tag_parts ss =
    codes "<h2></h2><div class=\"cards\">" ∷ stream (map card_tags ss) ∷ codes "</div>" ∷ []

abbrev pub cards_tags : List Session → Text
cards_tags [] = []
cards_tags (s ∷ ss) = stream (cards_tag_parts (s ∷ ss))

pub cards_section-tags :
    (p : Policy) (ss : List Session) → HasTags (cards_section p ss) (cards_tags ss)
unfolding markup after
cards_section-tags p [] = (refl, refl)
cards_section-tags p (s ∷ ss) =
    let cards = HasTags-map (write_card p) card_tags (s ∷ ss) (write_card-tags p) in
    stream-AllTags (cards_parts p (s ∷ ss)) (cards_tag_parts (s ∷ ss))
      ((refl, refl), (cards, ((refl, refl), tt)))
