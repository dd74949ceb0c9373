-- ===== src/Program/Ends.antt =====
-- How main of src/main.cpp ends.
use nano_ngfw.Prelude.{
  ℕ, ◌+◌, ◌%◌, ◌^◌, ◌<◌, ◌≡◌, refl, List, Option, none, some, ◌⊎◌, inl, inr, ◌==◌, length, Text, ℤ,
  pos, negsuc, arith, Ensures, Bool-cases, subst, sym, ap, ◌∙◌,
}
use nano_ngfw.Policy.{Policy}
use nano_ngfw.Flow.{default_timeouts}
use nano_ngfw.Nat.Ports.{IsPool, pool-IsPool}
use nano_ngfw.Engine.{Engine}
use nano_ngfw.Engine.Invariant.{IsEngine}
use nano_ngfw.Engine.Rules.Kept.{AllRuled}
use nano_ngfw.Engine.Accounting.{Accounted}
use nano_ngfw.Engine.Translation.{Translated}
use nano_ngfw.Pcap.{PcapReader, open_file}
use nano_ngfw.Capture.Whole.{Balanced}
use nano_ngfw.Capture.Replay.{replay-Balanced}
use nano_ngfw.CommandLine.{Options, command}
use nano_ngfw.Program.{
  Outcome, usage, failed, html_report, session_detail, statistics, chosen_policy, chosen_pool,
  or_empty, show_detail, show_html, show, run_engine, run_reader, rounds, run_command, run,
}

-- No file has 64 GiB.
abbrev pub Small : (Text → Option (List ℕ)) → Type 0
Small files = (path : Text) (file : List ℕ) → files path ≡ some file → length file < 2 ^ 36

-- The engine is sound, its counters balance, its rule base is the one chosen and every session is as
-- that says, each frame is accounted for, and no two sessions are translated to one port.
pub record IsClosed (chosen : Text ⊎ Policy) (e : Engine) : Type 0 where
  pub engine : IsEngine e
  pub balanced : Balanced e
  pub policy : chosen ≡ inr e.policy
  pub ruled : AllRuled e.policy e.flows.sessions
  pub accounted : Accounted e
  pub translated : Translated e

-- What the outcome says, where main goes on with the capture.
abbrev pub Ends : (Text → Option (List ℕ)) → Text → Options → Outcome → Type 0
Ends files capture o usage = ⊥
Ends files capture o (failed why) =
    (open_file capture (files capture) ≡ inl why) ⊎ (chosen_policy files o.policy_path ≡ inl why)
Ends files capture o (html_report html e capture' policy) =
    (o.html_path ≡ some html)
    × (capture' ≡ capture)
    × (policy ≡ or_empty o.policy_path)
    × IsClosed (chosen_policy files o.policy_path) e
Ends files capture o (session_detail e id) =
    (o.html_path ≡ none)
    × ((n : ℕ) × (o.detail_id ≡ pos n) × (id ≡ n % 2 ^ 32))
    × IsClosed (chosen_policy files o.policy_path) e
Ends files capture o (statistics silent e cut) =
    (o.html_path ≡ none)
    × ((n : ℕ) × (o.detail_id ≡ negsuc n))
    × (silent ≡ o.stats_only)
    × IsClosed (chosen_policy files o.policy_path) e

-- With no capture the usage text is shown, and only then.
abbrev pub CommandEnds : (Text → Option (List ℕ)) → Option (Text × Options) → Outcome → Type 0
CommandEnds files none out = out ≡ usage
CommandEnds files (some (capture, o)) out = Ends files capture o out

chosen_pool-IsPool : (ip : ℕ) → IsPool (chosen_pool ip)
chosen_pool-IsPool ip = elim (Bool-cases (ip == 0)) [
  | inl e ↦ rw e (ground arith)
  | inr e ↦ rw e (pool-IsPool ip 40000 60000 (omega arith) (omega arith))
]

chosen_pool-fresh : (ip : ℕ) → let p = chosen_pool ip in p.next_port ≡ p.first_port + p.in_use
chosen_pool-fresh ip = ground arith

show_detail-Ends :
    (files : Text → Option (List ℕ)) (capture : Text) (o : Options) (e : Engine) (r : PcapReader)
    (d : ℤ)
    → o.html_path ≡ none
    → o.detail_id ≡ d
    → IsClosed (chosen_policy files o.policy_path) e
    → Ends files capture o (show_detail o e r d)
show_detail-Ends files capture o e r (pos n) h k v = (h, (n, k, refl), v)
show_detail-Ends files capture o e r (negsuc n) h k v = (h, (n, k), refl, v)

show_html-Ends :
    (files : Text → Option (List ℕ)) (capture : Text) (o : Options) (e : Engine) (r : PcapReader)
    (h : Option Text)
    → o.html_path ≡ h
    → IsClosed (chosen_policy files o.policy_path) e
    → Ends files capture o (show_html capture o e r h)
show_html-Ends files capture o e r (some html) h v = (h, refl, refl, v)
show_html-Ends files capture o e r none h v =
    show_detail-Ends files capture o e r o.detail_id h refl v

run_engine-Ends :
    (files : Text → Option (List ℕ)) (capture : Text) (o : Options) (r : PcapReader) (file : List ℕ)
    (policy : Text ⊎ Policy)
    → Small files
    → files capture ≡ some file
    → open_file capture (some file) ≡ inr r
    → chosen_policy files o.policy_path ≡ policy
    → Ensures (Ends files capture o) (run_engine (length file + 1) capture o r policy)
unfolding show
run_engine-Ends files capture o r file (inl why) small found open' e = (failed why, refl, inr e)
run_engine-Ends files capture o r file (inr p) small found open' e =
    let (w, ran, (orderly, balanced)) =
      replay-Balanced capture file r p (chosen_pool o.nat_ip) default_timeouts o.midstream open'
        (small capture file found) (chosen_pool-IsPool o.nat_ip) (chosen_pool-fresh o.nat_ip) in
    let (kept, ruled) = orderly.rules in
    rw ran (
      _,
      refl,
      show_html-Ends files capture o w.0 w.1 o.html_path refl (record {
        engine = orderly.engine;
        balanced = balanced;
        policy = e ∙ ap inr (sym kept);
        ruled = subst (λ y. AllRuled y w.0.flows.sessions) (sym kept) ruled;
        accounted = orderly.accounted;
        translated = orderly.translated;
      }),
    )

run_reader-Ends :
    (files : Text → Option (List ℕ)) (capture : Text) (o : Options) (file : Option (List ℕ))
    (r : Text ⊎ PcapReader)
    → Small files
    → files capture ≡ file
    → open_file capture file ≡ r
    → Ensures (Ends files capture o) (run_reader files (rounds file) capture o r)
unfolding open_file
run_reader-Ends files capture o file (inl why) small found e = (failed why, refl, inl (rw found e))
run_reader-Ends files capture o none (inr r) small found e = cc
run_reader-Ends files capture o (some file) (inr r) small found e =
    run_engine-Ends files capture o r file (chosen_policy files o.policy_path) small found e refl

run_command-Ends :
    (files : Text → Option (List ℕ)) (c : Option (Text × Options))
    → Small files
    → Ensures (CommandEnds files c) (run_command files c)
run_command-Ends files none small = (usage, refl, refl)
run_command-Ends files (some (capture, o)) small =
    run_reader-Ends files capture o (files capture) _ small refl refl

-- Whatever the arguments and the files, none of which has 64 GiB: main ends. It shows the usage text
-- exactly if its argument loop comes to an option that it does not know or that lacks its value, or
-- finds no capture. It fails with the message of the capture reader or of the rule file. Else the run
-- that it shows, as the arguments say, is that of an engine that closed sound, with counters that
-- balance, with the rule base that the arguments chose and with every session as that says: its zones, rule and verdict are
-- the rule base's for its traffic with the application as far as it is known, it is closed if its
-- verdict turned away from allow, it is translated only from trust to untrust, and its application is
-- one of five and its server name printable and only beside ssl. Modulo 2^64, the number of frames is that of
-- the frames set aside under one reason plus the packets of the sessions; and no two sessions are
-- translated to one port.
pub run-Ends :
    (files : Text → Option (List ℕ)) (args : List Text)
    → Small files
    → Ensures (CommandEnds files (command args)) (run files args)
unfolding run
run-Ends files args small = run_command-Ends files (command args) small
