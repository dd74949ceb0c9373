-- ===== src/Report/TableTags.antt =====
-- The tags of the tiles and of the table of src/report.cpp.
use nano_ngfw.Prelude.{
  ℕ, ◌≡◌, refl, Bool, true, false, not, List, [], ◌∷◌, ◌++◌, Text, codes, arith,
}
use mathlib.Core.List.{map}
use nano_ngfw.Strings.Pieces.{Lacks}
use nano_ngfw.Addresses.Quads.{to_string-Lacks}
use nano_ngfw.Policy.{Verdict, Policy}
use nano_ngfw.Flow.{Session, app_display}
use nano_ngfw.Engine.{Counters, malformed}
use nano_ngfw.Output.{stream, rule_at}
use nano_ngfw.Report.Markup.{markup, after}
use nano_ngfw.Report.Table.{
  is_placeholder, refused, row_parts, table_parts, tile, tile_parts, tiles_parts, verdict_class,
  when, when_nonzero, write_row, write_table, write_tiles,
}
use nano_ngfw.Report.Plain.{
  escape-Lacks, zone_to_string-Lacks, endpoint-Lacks, state_to_string-Lacks,
  verdict_to_string-Lacks, rule_name-Lacks, HasTags, stream-HasTags, verdict_class-Lacks,
  stream-AllTags, HasTags-map,
}

pub shifted-Lacks : (b : Bool) → Lacks b'>' (when b (codes " class=\"shifted\""))
shifted-Lacks b = ground arith

pub placeholder-Lacks : (b : Bool) → Lacks b'>' (when b (codes " placeholder"))
placeholder-Lacks b = ground arith

pub flag_after :
    (b : Bool) → after false (when b (codes "<span class=\"flag\">APP-ID SHIFT</span>")) ≡ false
unfolding after
flag_after true = refl
flag_after false = refl

-- The tags of a row of the table.
abbrev pub row_tags : Bool → Bool → Verdict → Text
row_tags shifted latched v = stream (
    codes "<tr"
    ∷ when shifted (codes " class=\"shifted\"")
    ∷ codes "><td class=\"id\"></td><td class=\"app"
    ∷ when (not latched) (codes " placeholder")
    ∷ codes
        "\"></td><td class=\"zone\"></td><td class=\"zone\"></td><td></td><td></td><td class=\"zone\"></td><td class=\"zone\"></td><td><span class=\"badge "
    ∷ verdict_class v
    ∷ codes "\"></span></td><td>"
    ∷ markup false (when shifted (codes "<span class=\"flag\">APP-ID SHIFT</span>"))
    ∷ codes "</td></tr>"
    ∷ [])

pub write_row-tags :
    (p : Policy) (s : Session)
    → HasTags (write_row p s) (row_tags s.app_shifted s.app_latched s.verdict)
unfolding write_row markup after
write_row-tags p s =
    stream-HasTags (codes "faff t ff a f t ff t ff t ff t ff t ff t ff t ff a f t ff p ff")
      (row_parts p s)
      (
        refl,
        shifted-Lacks s.app_shifted,
        (
          refl,
          to_string-Lacks b'<' s.id refl,
          (
            refl,
            placeholder-Lacks (is_placeholder s),
            (
              refl,
              escape-Lacks (app_display s),
              (
                refl,
                zone_to_string-Lacks s.from_zone,
                (
                  refl,
                  zone_to_string-Lacks s.to_zone,
                  (
                    refl,
                    endpoint-Lacks s.init_ip s.init_port,
                    (
                      refl,
                      endpoint-Lacks s.resp_ip s.resp_port,
                      (
                        refl,
                        state_to_string-Lacks s.state,
                        (
                          refl,
                          rule_name-Lacks (codes "default deny") (ground arith)
                              (rule_at p s.matched_rule),
                          (
                            refl,
                            verdict_class-Lacks s.verdict,
                            (
                              refl,
                              verdict_to_string-Lacks s.verdict,
                              (refl, flag_after s.app_shifted, refl),
                            ),
                          ),
                        ),
                      ),
                    ),
                  ),
                ),
              ),
            ),
          ),
        ),
      )

abbrev pub tile_tags : Text → Text
tile_tags cls =
    codes "<div class=\"tile "
    ++ (cls ++ codes "\"><div class=\"n\"></div><div class=\"k\"></div></div>")

pub tile-tags :
    (cls : Text) (n : ℕ) (label : Text)
    → Lacks b'>' cls
    → Lacks b'<' label
    → HasTags (tile cls n label) (tile_tags cls)
unfolding markup after
tile-tags cls n label h k =
    stream-HasTags (codes "faftftf") (tile_parts cls n label)
      (refl, h, (refl, to_string-Lacks b'<' n refl, (refl, k, refl)))

pub when_nonzero-Lacks : (cls : Text) (n : ℕ) → Lacks b'>' cls → Lacks b'>' (when_nonzero cls n)
when_nonzero-Lacks cls n h = ground arith

-- The tags of the tiles, which are coloured if there is something to count.
abbrev pub tiles_tag_parts : Counters → List Text
tiles_tag_parts c =
    codes "<div class=\"tiles\">"
    ∷ tile_tags []
    ∷ tile_tags []
    ∷ tile_tags (when_nonzero (codes "ok") c.allowed)
    ∷ tile_tags (when_nonzero (codes "bad") (refused c))
    ∷ tile_tags (when_nonzero (codes "hot") c.app_shifts)
    ∷ tile_tags (when_nonzero (codes "bad") c.out_of_state)
    ∷ tile_tags (when_nonzero (codes "bad") (malformed c))
    ∷ codes "</div>"
    ∷ []

abbrev pub tiles_tags : Counters → Text
tiles_tags c = stream (tiles_tag_parts c)

pub coloured-tags :
    (cls : Text) (n : ℕ) (label : Text)
    → Lacks b'>' cls
    → Lacks b'<' label
    → HasTags (tile (when_nonzero cls n) n label) (tile_tags (when_nonzero cls n))
coloured-tags cls n label h k =
    tile-tags (when_nonzero cls n) n label (when_nonzero-Lacks cls n h) k

pub write_tiles-tags : (c : Counters) → HasTags (write_tiles c) (tiles_tags c)
unfolding write_tiles markup after
write_tiles-tags c = stream-AllTags (tiles_parts c) (tiles_tag_parts c) (
  (refl, refl),
  (
    tile-tags [] c.packets (codes "packets") tt (ground arith),
    (
      tile-tags [] c.sessions_created (codes "sessions") tt (ground arith),
      (
        coloured-tags (codes "ok") c.allowed (codes "allowed") (ground arith) (ground arith),
        (
          coloured-tags (codes "bad") (refused c) (codes "denied / dropped") (ground arith)
              (ground arith),
          (
            coloured-tags (codes "hot") c.app_shifts (codes "app-id shifts") (ground arith)
                (ground arith),
            (
              coloured-tags (codes "bad") c.out_of_state (codes "out of state") (ground arith)
                  (ground arith),
              (
                coloured-tags (codes "bad") (malformed c) (codes "malformed") (ground arith)
                    (ground arith),
                ((refl, refl), tt),
              ),
            ),
          ),
        ),
      ),
    ),
  ),
)

-- The tags of the table: its head, a row for each session, and its end.
abbrev pub table_tag_parts : List Session → List Text
table_tag_parts ss =
    codes "<h2></h2><div class=\"scroll\"><table>"
    ∷ codes "<thead><tr>"
    ∷ codes "<th></th><th></th><th></th><th></th>"
    ∷ codes "<th></th><th></th><th></th><th></th>"
    ∷ codes "<th></th><th></th>"
    ∷ codes "</tr></thead><tbody>"
    ∷ stream (map (λ s. row_tags s.app_shifted s.app_latched s.verdict) ss)
    ∷ codes "</tbody></table></div>"
    ∷ []

abbrev pub table_tags : List Session → Text
table_tags ss = stream (table_tag_parts ss)

pub write_table-tags : (p : Policy) (ss : List Session) → HasTags (write_table p ss) (table_tags ss)
unfolding write_table markup after
write_table-tags p ss =
    let rows =
      HasTags-map (write_row p) (λ s. row_tags s.app_shifted s.app_latched s.verdict) ss
        (write_row-tags p) in
    stream-AllTags (table_parts p ss) (table_tag_parts ss) (
      (refl, refl),
      (
        (refl, refl),
        ((refl, refl), ((refl, refl), ((refl, refl), ((refl, refl), (rows, ((refl, refl), tt)))))),
      ),
    )
