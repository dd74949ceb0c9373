-- ===== src/Program/Shown.antt =====
-- What main of src/main.cpp shows of the sessions of a run.
use nano_ngfw.Prelude.{
  ℕ, zero, suc, ◌≡◌, ◌∙◌, inl, inr, refl, ap, sym, subst, Bool, false, List, [], ◌∷◌, ◌++◌, Option,
  none, some, Text, codes, some-inj,
}
use mathlib.Core.List.{map, append_assoc}
use nano_ngfw.Strings.{get_lines, get_words}
use nano_ngfw.Strings.Pieces.{IsWord, get_lines-append}
use nano_ngfw.Policy.{Policy}
use nano_ngfw.RuleFile.Tokens.{literal-IsToken}
use nano_ngfw.Flow.{
  Session, SessionState, new, syn_seen, syn_ack_seen, established, fin_seen, closing, closed,
  app_display,
}
use nano_ngfw.Engine.{Engine}
use nano_ngfw.Engine.Rules.{Application, Identified}
use nano_ngfw.Engine.Rules.Kept.{AllRuled}
use nano_ngfw.Console.{print_sessions, print_stats}
use nano_ngfw.Console.Table.{OneWords, session_words, heading_words, print_sessions-session_words}
use nano_ngfw.CommandLine.{Options, command}
use nano_ngfw.Program.{statistics, cut_warning, printed, run}
use nano_ngfw.Program.Ends.{Small, CommandEnds, run-Ends}

Application-IsWord : (a : Text) → Application a → IsWord a
Application-IsWord a (inl e) = subst IsWord (sym e) (literal-IsToken _ _ refl).word
Application-IsWord a (inr (inl e)) = subst IsWord (sym e) (literal-IsToken _ _ refl).word
Application-IsWord a (inr (inr (inl e))) = subst IsWord (sym e) (literal-IsToken _ _ refl).word
Application-IsWord a (inr (inr (inr (inl e)))) =
    subst IsWord (sym e) (literal-IsToken _ _ refl).word
Application-IsWord a (inr (inr (inr (inr e)))) =
    subst IsWord (sym e) (literal-IsToken _ _ refl).word

-- What app_display shows of a session that is not identified.
abbrev waiting : SessionState → Text
waiting st = elim st [
  | new ↦ codes "incomplete"
  | syn_seen ↦ codes "incomplete"
  | syn_ack_seen ↦ codes "incomplete"
  | _ ↦ codes "insufficient-data"
]

waiting-IsWord : (st : SessionState) → IsWord (waiting st)
waiting-IsWord new = (literal-IsToken _ _ refl).word
waiting-IsWord syn_seen = (literal-IsToken _ _ refl).word
waiting-IsWord syn_ack_seen = (literal-IsToken _ _ refl).word
waiting-IsWord established = (literal-IsToken _ _ refl).word
waiting-IsWord fin_seen = (literal-IsToken _ _ refl).word
waiting-IsWord closing = (literal-IsToken _ _ refl).word
waiting-IsWord closed = (literal-IsToken _ _ refl).word

app_display-IsWord : (s : Session) → Identified s → IsWord (app_display s)
unfolding app_display
app_display-IsWord s (inl (u, _, _, _)) = rw u (waiting-IsWord s.state)
app_display-IsWord s (inr (u, a)) = rw u (Application-IsWord s.app a)

AllRuled-OneWords : (p : Policy) (ss : List Session) → AllRuled p ss → OneWords ss
AllRuled-OneWords p [] h = tt
AllRuled-OneWords p (s ∷ ss) h = (
  app_display-IsWord s (h zero s refl).identified,
  AllRuled-OneWords p ss (λ i r e. h (suc i) r e),
)

closed_run :
    (files : Text → Option (List ℕ)) (c : Option (Text × Options)) (silent cut : Bool) (e : Engine)
    → CommandEnds files c (statistics silent e cut)
    → OneWords e.flows.sessions
closed_run files none silent cut e h = cc
closed_run files (some (capture, o)) silent cut e (_, _, _, v) =
    AllRuled-OneWords e.policy e.flows.sessions v.ruled

-- Whatever the arguments and the files, none of which has 64 GiB: if a run comes to its closing statistics and the session table is not switched off, then
-- the lines that main prints, each taken apart at white space, are the heading, for each session in the order of the table its
-- id, application, zones, end points, state and verdict, an empty line, and those of the statistics.
pub printed-session_words :
    (files : Text → Option (List ℕ)) (args : List Text) (version : Text) (seconds : ℕ → Text)
    (written : Text → Bool) (e : Engine) (cut : Bool)
    → Small files
    → run files args ≡ some (statistics false e cut)
    → map get_words (get_lines b'\n' (printed version seconds written (statistics false e cut)))
      ≡ heading_words
        ∷ (map session_words e.flows.sessions
            ++ ([] ∷ map get_words (get_lines b'\n' (print_stats e ++ cut_warning cut))))
unfolding printed
printed-session_words files args version seconds written e cut small ran =
    let (out, ran', ends) = run-Ends files args small in
    let same : out ≡ statistics false e cut = some-inj (sym ran' ∙ ran) in
    let words =
      closed_run files (command args) false cut e
        (subst (CommandEnds files (command args)) same ends) in
    let rest = print_stats e ++ cut_warning cut in
    ap (λ t. map get_words (get_lines b'\n' t))
      (append_assoc (print_sessions e.flows.sessions) (b'\n' ∷ []) rest)
    ∙ print_sessions-session_words e.flows.sessions (b'\n' ∷ rest) words
    ∙ ap (λ ls. heading_words ∷ (map session_words e.flows.sessions ++ ls))
        (ap (map get_words) (get_lines-append b'\n' [] rest tt) ∙ unfold get_words in refl)
