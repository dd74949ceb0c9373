-- ===== src/Report/Document.antt =====
-- The tags of the whole report of src/report.cpp.
use nano_ngfw.Prelude.{
  ◌≡◌, refl, false, List, [], ◌∷◌, if◌then◌else◌, Text, codes, is_empty, length,
}
use nano_ngfw.Addresses.Quads.{to_string-Lacks}
use nano_ngfw.Policy.{Policy}
use nano_ngfw.Flow.{Session}
use nano_ngfw.Engine.{Counters, Engine}
use nano_ngfw.Output.{stream}
use nano_ngfw.Report.Markup.{markup, after}
use nano_ngfw.Report.Head.{head_text}
use nano_ngfw.Report.Cards.{shown, write_cards}
use nano_ngfw.Report.Plain.{escape-Lacks, HasTags, stream-HasTags, stream-AllTags}
use nano_ngfw.Report.TableTags.{tiles_tags, write_tiles-tags, table_tags, write_table-tags}
use nano_ngfw.Report.CardTags.{cards_tags, cards_section-tags}
use nano_ngfw.Report.{header_parts, write_header, footer, html_text_parts, html_text}

-- The tags of the page above the tiles, and of its end.
abbrev pub page_tags : Text
page_tags = stream (
    codes "<!doctype html>"
    ∷ codes "<html lang=\"en\">"
    ∷ codes "<head>"
    ∷ codes "<meta charset=\"utf-8\">"
    ∷ codes "<meta name=\"viewport\" content=\"width=device-width, initial-scale=1\">"
    ∷ codes "<title>"
    ∷ codes "</title>"
    ∷ codes "<style>"
    ∷ codes "</style>"
    ∷ codes "</head>"
    ∷ codes "<body>"
    ∷ codes "<div class=\"wrap\">"
    ∷ [])

abbrev pub header_tags : Text
header_tags =
    codes
      "<header><h1><span class=\"dim\"></span></h1><div class=\"meta\"><span><b></b></span><span><b></b></span><span><b></b></span></div></header>"

abbrev pub footer_tags : Text
footer_tags = codes "<footer><code></code><br></footer></div></body></html>"

head_text-tags : HasTags head_text page_tags
unfolding head_text markup after
head_text-tags = (refl, refl)

write_header-tags :
    (p : Policy) (capture policy : Text) → HasTags (write_header p capture policy) header_tags
unfolding write_header markup after
write_header-tags p capture policy =
    stream-HasTags (codes "fff ftf ftf ftf f") (header_parts p capture policy) (
      refl,
      escape-Lacks capture,
      (
        refl,
        escape-Lacks (if is_empty policy then codes "built-in" else policy),
        (refl, to_string-Lacks b'<' (length p.rules) refl, refl),
      ),
    )

footer-tags : HasTags footer footer_tags
unfolding footer markup after
footer-tags = (refl, refl)

-- The tags of the whole report.
abbrev pub report_tag_parts : Counters → List Session → List Text
report_tag_parts c ss =
    page_tags
    ∷ header_tags
    ∷ tiles_tags c
    ∷ table_tags ss
    ∷ cards_tags (shown ss)
    ∷ footer_tags
    ∷ []

-- Whatever the application names, server names, rule names and file names are: the tags of the report
-- are those of the page, of the tiles, of a row for each session and of a card for each one that
-- shifted or has a server name. Of the sessions they depend on
-- flags, on verdicts and on whether a server name is empty only, and on the counters through which of the coloured ones are zero; the report ends outside of a tag.
pub html_text-tags :
    (e : Engine) (capture policy : Text)
    → (markup false (html_text e capture policy)
        ≡ stream (report_tag_parts e.counters e.flows.sessions))
      × (after false (html_text e capture policy) ≡ false)
unfolding html_text write_cards
html_text-tags e capture policy =
    stream-AllTags (html_text_parts e capture policy) (report_tag_parts e.counters e.flows.sessions)
      (
        head_text-tags,
        (
          write_header-tags e.policy capture policy,
          (
            write_tiles-tags e.counters,
            (
              write_table-tags e.policy e.flows.sessions,
              (cards_section-tags e.policy (shown e.flows.sessions), (footer-tags, tt)),
            ),
          ),
        ),
      )
