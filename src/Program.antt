-- ===== src/Program.antt =====
-- main of src/main.cpp: from the arguments to what it shows. The files are a function from their paths
-- to their bytes, none for one that does not open.
pub mod Ends
pub mod Shown
pub mod Tests
use nano_ngfw.Prelude.{
  ℕ, ◌+◌, ◌%◌, ◌^◌, Bool, true, false, List, [], Option, none, some, ◌⊎◌, inl, inr, ◌==◌,
  if◌then◌else◌, ◌>>=◌, ◌∷◌, ◌++◌, codes, length, Text, ℤ, pos, negsuc,
}
use nano_ngfw.Policy.{Policy}
use nano_ngfw.RuleFile.{load_file, load_default}
use nano_ngfw.Flow.{default_timeouts}
use nano_ngfw.Nat.{NatPool, no_pool, pool}
use nano_ngfw.Engine.{Engine}
use nano_ngfw.Pcap.{PcapReader, open_file}
use nano_ngfw.Capture.{start, replay}
use nano_ngfw.Output.{stream}
use nano_ngfw.Report.{html_text}
use nano_ngfw.Console.{print_sessions, print_session_detail, print_stats}
use nano_ngfw.CommandLine.{Options, command}

-- How a run ends: the usage text, a message on stderr, or an engine that is printed or written.
pub data Outcome : Type 0 where
  usage : Outcome
  failed : Text → Outcome  -- behind "nano-ngfw: "
  html_report : Text → Engine → Text → Text → Outcome  -- write_html_report and its arguments
  session_detail : Engine → ℕ → Outcome  -- print_session_detail
  -- print_sessions unless it is switched off, print_stats, and the warning if the capture is cut
  statistics : Bool → Engine → Bool → Outcome

-- What main returns, where `written` is what write_html_report returns for a path.
abbrev pub exit_code : (Text → Bool) → Outcome → ℕ
exit_code written usage = 2
exit_code written (failed why) = 1
exit_code written (html_report html e capture policy) = if written html then 0 else 1
exit_code written (session_detail e id) = 0
exit_code written (statistics silent e cut) = 0

-- The engine's policy behind the `if (policy_path != nullptr)`.
abbrev pub chosen_policy : (Text → Option (List ℕ)) → Option Text → Text ⊎ Policy
chosen_policy files none = inr load_default
chosen_policy files (some path) = load_file path (files path)

-- `if (nat_ip != 0) engine.set_nat(NatPool(nat_ip))`.
abbrev pub chosen_pool : ℕ → NatPool
chosen_pool ip = if ip == 0 then no_pool else pool ip 40000 60000

abbrev pub or_empty : Option Text → Text
or_empty none = []
or_empty (some t) = t

-- The end of main, from `if (html_path != nullptr)`.
abbrev pub show_detail : Options → Engine → PcapReader → ℤ → Outcome
show_detail o e r (pos id) = session_detail e (id % 2 ^ 32)
show_detail o e r (negsuc n) = statistics o.stats_only e r.truncated

abbrev pub show_html : Text → Options → Engine → PcapReader → Option Text → Outcome
show_html capture o e r (some html) = html_report html e capture (or_empty o.policy_path)
show_html capture o e r none = show_detail o e r o.detail_id

unfoldable pub show : Text → Options → Engine × PcapReader → Outcome
show capture o (e, r) = show_html capture o e r o.html_path

-- The engine, once the reader is open and the policy is read.
abbrev pub run_engine : ℕ → Text → Options → PcapReader → Text ⊎ Policy → Option Outcome
run_engine fuel capture o r (inl why) = some (failed why)
run_engine fuel capture o r (inr p) =
    replay fuel r (start p (chosen_pool o.nat_ip) default_timeouts o.midstream) 0 >>= λ w.
    some (show capture o w)

abbrev pub run_reader :
    (Text → Option (List ℕ)) → ℕ → Text → Options → Text ⊎ PcapReader → Option Outcome
run_reader files fuel capture o (inl why) = some (failed why)
run_reader files fuel capture o (inr r) =
    run_engine fuel capture o r (chosen_policy files o.policy_path)

-- Fuel for the loop over the capture.
abbrev pub rounds : Option (List ℕ) → ℕ
rounds none = 0
rounds (some file) = length file + 1

abbrev pub run_command : (Text → Option (List ℕ)) → Option (Text × Options) → Option Outcome
run_command files none = some usage
run_command files (some (capture, o)) =
    run_reader files (rounds (files capture)) capture o (open_file capture (files capture))

unfoldable pub run : (Text → Option (List ℕ)) → List Text → Option Outcome
run files args = run_command files (command args)

-- usage(), where `version` is what nano::version gives.
abbrev pub usage_text : Text → Text
usage_text version = stream (
    codes "nano-ngfw "
    ∷ version
    ∷ codes "\n\n"
    ∷ codes "usage: nano-ngfw [options] <capture.pcap>\n\n"
    ∷ codes "  --policy <file>    load a rule base (default: built-in)\n"
    ∷ codes "  --nat <ip>         source-NAT allowed trust->untrust sessions\n"
    ∷ codes "  --midstream        adopt sessions from non-SYN packets\n"
    ∷ codes "  --session <id>     print one session in detail\n"
    ∷ codes "  --stats-only       suppress the session table\n"
    ∷ codes "  --html <file>      write a self-contained HTML session report\n"
    ∷ [])

abbrev pub cut_warning : Bool → Text
cut_warning cut = if cut then codes "\nwarning: capture ends mid-record\n" else []

-- What main prints on stdout.
unfoldable pub printed : Text → (ℕ → Text) → (Text → Bool) → Outcome → Text
printed version seconds written usage = usage_text version
printed version seconds written (failed why) = []
printed version seconds written (html_report html e capture policy) =
    if written html then codes "wrote " ++ (html ++ codes "\n") else []
printed version seconds written (session_detail e id) = print_session_detail seconds e id
printed version seconds written (statistics silent e cut) =
    (if silent then [] else print_sessions e.flows.sessions ++ codes "\n")
    ++ (print_stats e ++ cut_warning cut)

-- What main writes into the file of the report, if it opens.
unfoldable pub report_file : Outcome → Option (Text × Text)
report_file (html_report html e capture policy) = some (html, html_text e capture policy)
report_file _ = none
