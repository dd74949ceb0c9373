-- ===== src/Program/Tests.antt =====
-- A run of src/main.cpp over a capture with a SYN, with address translation.
use nano_ngfw.Prelude.{
  ℕ, List, [], ◌∷◌, ◌++◌, Option, some, Text, codes, arith, Ensures, subst, length, ◌<◌, ◌^◌, ◌≡◌,
  ◌∙◌, refl, ap, Bool, true, false, inl, inr,
}
use mathlib.Core.List.{map}
use nano_ngfw.Strings.{get_lines, get_words, to_string}
use nano_ngfw.CommandLine.{Options, no_options, command, arguments}
use nano_ngfw.Pcap.{
  PcapReader, open_file, opened_with, read_exact, global_header, magic_flags, load32le,
}
use nano_ngfw.Capture.Tests.{capture_file}
use nano_ngfw.Engine.{Engine}
use nano_ngfw.Console.{print_stats}
use nano_ngfw.Console.Table.{heading_words, session_words}
use nano_ngfw.Program.{
  Outcome, usage, failed, html_report, session_detail, statistics, cut_warning, printed, run,
}
use nano_ngfw.Program.Ends.{Small, Ends, CommandEnds, run-Ends}
use nano_ngfw.Program.Shown.{printed-session_words}

-- Every path opens the same capture.
abbrev files : Text → Option (List ℕ)
files path = some capture_file

files-Small : Small files
files-Small path file e =
    let same : capture_file ≡ file = cc in
    subst (λ (f : List ℕ). length f < 2 ^ 36) same (omega arith)

abbrev words : List Text
words = codes "--nat" ∷ codes "198.51.100.1" ∷ codes "--session" ∷ codes "0" ∷ codes "a.pcap" ∷ []

run-Ends_example : Ensures (CommandEnds files (command words)) (run files words)
run-Ends_example = run-Ends files words files-Small

-- The same capture, with the session table.
abbrev plain : List Text
plain = codes "a.pcap" ∷ []

abbrev plain_options : Options
plain_options = record no_options { path = some (codes "a.pcap") }

asked : command plain ≡ some (codes "a.pcap", plain_options)
unfolding command arguments
asked = refl

opens : (r : PcapReader) × (open_file (codes "a.pcap") (some capture_file) ≡ inr r)
unfolding open_file opened_with read_exact global_header magic_flags load32le
opens = (_, refl)

abbrev Table : Outcome → Type 0
Table out = (e : Engine) × (cut : Bool) × (out ≡ statistics false e cut)

-- It opens, so it comes to its statistics.
table_of : (out : Outcome) → Ends files (codes "a.pcap") plain_options out → Table out
table_of usage h = elim h [ ]
table_of (failed why) (inl e) = cc (opens.1, e)
table_of (failed why) (inr e) = cc
table_of (html_report html e capture policy) (h, _, _, _) = cc
table_of (session_detail e id) (_, (n, h, _), _) = cc
table_of (statistics silent e cut) (_, _, q, _) = (e, cut, rw q refl)

abbrev plain_run : Ensures (CommandEnds files (command plain)) (run files plain)
plain_run = run-Ends files plain files-Small

abbrev plain_table : Table plain_run.0
plain_table = table_of plain_run.0 (subst (λ c. CommandEnds files c plain_run.0) asked plain_run.2)

plain_ran : run files plain ≡ some (statistics false plain_table.0 plain_table.1)
plain_ran = plain_run.1 ∙ ap some plain_table.2

printed-session_words_example :
    map get_words (
      get_lines b'\n' (
        printed
          (codes "0.1.0")
          to_string
          (λ path. true)
          (statistics false plain_table.0 plain_table.1)))
    ≡ heading_words
      ∷ (map session_words plain_table.0.flows.sessions
          ++ ([]
              ∷ map get_words
                  (get_lines b'\n' (print_stats plain_table.0 ++ cut_warning plain_table.1))))
printed-session_words_example =
    printed-session_words files plain (codes "0.1.0") to_string (λ path. true) plain_table.0
      plain_table.1 files-Small plain_ran
