-- ===== src/Report/Head.antt =====
-- The raw string of write_head in src/report.cpp, line by line.
use nano_ngfw.Prelude.{[], ◌∷◌, List, Text, codes}
use nano_ngfw.RuleFile.{unlines}

abbrev head_lines : List Text
head_lines =
    codes "<!doctype html>"
    ∷ codes "<html lang=\"en\">"
    ∷ codes "<head>"
    ∷ codes "<meta charset=\"utf-8\">"
    ∷ codes "<meta name=\"viewport\" content=\"width=device-width, initial-scale=1\">"
    ∷ codes "<title>nano-ngfw session report</title>"
    ∷ codes "<style>"
    ∷ codes "  :root {"
    ∷ codes "    --bg:        #0b1014;"
    ∷ codes "    --panel:     #121a20;"
    ∷ codes "    --panel-2:   #16212a;"
    ∷ codes "    --line:      #22323d;"
    ∷ codes "    --text:      #d6e4ec;"
    ∷ codes "    --muted:     #6f8899;"
    ∷ codes "    --accent:    #35d6c4;"
    ∷ codes "    --accent-dim:#1d7f76;"
    ∷ codes "    --allow:     #3fb950;"
    ∷ codes "    --deny:      #f85149;"
    ∷ codes "    --drop:      #d29922;"
    ∷ codes "    --shift:     #bc8cff;"
    ∷ codes "  }"
    ∷ codes "  * { box-sizing: border-box; }"
    ∷ codes "  body {"
    ∷ codes "    margin: 0;"
    ∷ codes "    background: var(--bg);"
    ∷ codes "    color: var(--text);"
    ∷ codes
        "    font: 14px/1.55 ui-monospace, SFMono-Regular, \"SF Mono\", Menlo, Consolas, monospace;"
    ∷ codes "    padding: 32px 20px 64px;"
    ∷ codes "  }"
    ∷ codes "  .wrap { max-width: 1180px; margin: 0 auto; }"
    ∷ []
    ∷ codes
        "  header { border-bottom: 1px solid var(--line); padding-bottom: 18px; margin-bottom: 26px; }"
    ∷ codes "  h1 { margin: 0; font-size: 19px; letter-spacing: .06em; font-weight: 600; }"
    ∷ codes "  h1 .dim { color: var(--accent); }"
    ∷ codes "  .meta { margin-top: 8px; color: var(--muted); font-size: 12.5px; }"
    ∷ codes "  .meta span { margin-right: 18px; white-space: nowrap; }"
    ∷ codes "  .meta b { color: var(--text); font-weight: 500; }"
    ∷ []
    ∷ codes "  .tiles { display: grid; grid-template-columns: repeat(auto-fit, minmax(132px, 1fr));"
    ∷ codes "           gap: 10px; margin-bottom: 30px; }"
    ∷ codes "  .tile { background: var(--panel); border: 1px solid var(--line); border-radius: 6px;"
    ∷ codes "          padding: 12px 14px; }"
    ∷ codes "  .tile .n { font-size: 23px; font-weight: 600; letter-spacing: -.01em; }"
    ∷ codes "  .tile .k { color: var(--muted); font-size: 11px; text-transform: uppercase;"
    ∷ codes "             letter-spacing: .09em; margin-top: 3px; }"
    ∷ codes "  .tile.ok  .n { color: var(--allow); }"
    ∷ codes "  .tile.bad .n { color: var(--deny); }"
    ∷ codes "  .tile.hot .n { color: var(--shift); }"
    ∷ []
    ∷ codes "  h2 { font-size: 12px; text-transform: uppercase; letter-spacing: .11em;"
    ∷ codes "       color: var(--muted); font-weight: 600; margin: 34px 0 12px; }"
    ∷ []
    ∷ codes "  .scroll { overflow-x: auto; border: 1px solid var(--line); border-radius: 6px; }"
    ∷ codes "  table { border-collapse: collapse; width: 100%; min-width: 900px; }"
    ∷ codes "  thead th { background: var(--panel-2); color: var(--muted); text-align: left;"
    ∷ codes "             font-weight: 600; font-size: 11px; text-transform: uppercase;"
    ∷ codes "             letter-spacing: .08em; padding: 9px 12px; white-space: nowrap;"
    ∷ codes "             border-bottom: 1px solid var(--line); }"
    ∷ codes "  tbody td { padding: 9px 12px; border-bottom: 1px solid rgba(34,50,61,.55);"
    ∷ codes "             white-space: nowrap; }"
    ∷ codes "  tbody tr:last-child td { border-bottom: 0; }"
    ∷ codes "  tbody tr:hover { background: rgba(53,214,196,.045); }"
    ∷ codes "  tr.shifted { background: rgba(188,140,255,.075); }"
    ∷ codes "  tr.shifted:hover { background: rgba(188,140,255,.11); }"
    ∷ []
    ∷ codes "  .id { color: var(--muted); }"
    ∷ codes "  .app { color: var(--accent); font-weight: 600; }"
    ∷ codes "  .app.placeholder { color: var(--muted); font-weight: 400; font-style: italic; }"
    ∷ codes "  .zone { color: var(--muted); font-size: 12.5px; }"
    ∷ []
    ∷ codes "  .badge { display: inline-block; padding: 1px 8px; border-radius: 10px;"
    ∷ codes "           font-size: 11px; font-weight: 600; letter-spacing: .05em;"
    ∷ codes "           text-transform: uppercase; }"
    ∷ codes "  .badge.allow { color: var(--allow); background: rgba(63,185,80,.13);"
    ∷ codes "                 border: 1px solid rgba(63,185,80,.32); }"
    ∷ codes "  .badge.deny  { color: var(--deny);  background: rgba(248,81,73,.13);"
    ∷ codes "                 border: 1px solid rgba(248,81,73,.32); }"
    ∷ codes "  .badge.drop  { color: var(--drop);  background: rgba(210,153,34,.13);"
    ∷ codes "                 border: 1px solid rgba(210,153,34,.32); }"
    ∷ codes "  .flag { color: var(--shift); font-size: 11px; font-weight: 600;"
    ∷ codes "          letter-spacing: .05em; }"
    ∷ []
    ∷ codes "  .cards { display: grid; grid-template-columns: repeat(auto-fit, minmax(330px, 1fr));"
    ∷ codes "           gap: 14px; }"
    ∷ codes "  .card { background: var(--panel); border: 1px solid var(--line);"
    ∷ codes "          border-radius: 6px; padding: 15px 17px; }"
    ∷ codes "  .card.hot { border-color: rgba(188,140,255,.42); }"
    ∷ codes "  .card h3 { margin: 0 0 4px; font-size: 13px; letter-spacing: .04em; }"
    ∷ codes "  .card .why { color: var(--muted); font-size: 12px; margin: 0 0 12px;"
    ∷ codes "               line-height: 1.5; white-space: normal; }"
    ∷ codes
        "  .kv { display: grid; grid-template-columns: 86px 1fr; gap: 3px 12px; font-size: 12.5px; }"
    ∷ codes "  .kv dt { color: var(--muted); }"
    ∷ codes "  .kv dd { margin: 0; overflow-wrap: anywhere; }"
    ∷ []
    ∷ codes "  footer { margin-top: 42px; padding-top: 16px; border-top: 1px solid var(--line);"
    ∷ codes "           color: var(--muted); font-size: 11.5px; line-height: 1.7; }"
    ∷ codes "  footer code { color: var(--accent-dim); }"
    ∷ codes "</style>"
    ∷ codes "</head>"
    ∷ codes "<body>"
    ∷ codes "<div class=\"wrap\">"
    ∷ []

unfoldable pub head_text : Text
head_text = unlines head_lines
