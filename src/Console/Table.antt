-- ===== src/Console/Table.antt =====
-- The session table of src/cli.cpp: its lines and the words of a line.
use nano_ngfw.Prelude.{
  ℕ, zero, suc, ◌-◌, ◌≡◌, ◌∙◌, refl, ap, List, [], ◌∷◌, ◌++◌, length, Text, codes, arith,
}
use mathlib.Core.List.{map, append_assoc, append-nil}
use nano_ngfw.Strings.{to_string, get_lines, get_words}
use nano_ngfw.Strings.Pieces.{
  Lacks, Lacks-append, IsWord, get_lines-append, get_words-append, get_words_last,
}
use nano_ngfw.Addresses.{ipv4_to_string}
use nano_ngfw.Policy.Names.{zone_to_string, verdict_to_string}
use nano_ngfw.Flow.{
  Session, SessionState, new, syn_seen, syn_ack_seen, established, fin_seen, closing, closed,
  app_display,
}
use nano_ngfw.RuleFile.Tokens.{
  Spaceless-Lacks, glue-IsToken, to_string-IsToken, ipv4_to_string-IsToken, literal-IsToken,
  zone_to_string-IsToken, verdict_to_string-IsToken,
}
use nano_ngfw.Output.{stream, endpoint, state_to_string}
use nano_ngfw.Console.{spaces, left, columns, session_columns, heading, ended, print_sessions}

get_words-spaces : (n : ℕ) (rest : Text) → get_words (spaces n ++ rest) ≡ get_words rest
unfolding get_words
get_words-spaces zero rest = refl
get_words-spaces (suc n) rest = get_words-spaces n rest

-- A padded column with a space behind it is its word.
get_words-left :
    (width : ℕ) (w rest : Text)
    → IsWord w
    → get_words (left width w ++ b' ' ∷ rest) ≡ w ∷ get_words rest
get_words-left width w rest v =
    ap get_words (append_assoc w (spaces (width - length w)) (b' ' ∷ rest))
    ∙ padded (width - length w)
  where
    padded : (n : ℕ) → get_words (w ++ (spaces n ++ b' ' ∷ rest)) ≡ w ∷ get_words rest
    padded zero = get_words-append w b' ' rest v refl
    padded (suc n) =
        get_words-append w b' ' (spaces n ++ b' ' ∷ rest) v refl
        ∙ ap (λ ws. w ∷ ws) (get_words-spaces n (b' ' ∷ rest) ∙ unfold get_words in refl)

get_words-left_last : (width : ℕ) (w : Text) → IsWord w → get_words (left width w ++ []) ≡ w ∷ []
get_words-left_last width w v =
    ap get_words (append_assoc w (spaces (width - length w)) []) ∙ padded (width - length w)
  where
    padded : (n : ℕ) → get_words (w ++ (spaces n ++ [])) ≡ w ∷ []
    padded zero = ap get_words (append-nil w) ∙ get_words_last w v
    padded (suc n) =
        get_words-append w b' ' (spaces n ++ []) v refl
        ∙ ap (λ ws. w ∷ ws) (get_words-spaces n [] ∙ unfold get_words in refl)

spaces-Lacks : (n : ℕ) → Lacks b'\n' (spaces n)
spaces-Lacks zero = tt
spaces-Lacks (suc n) = ((λ e. omega arith), spaces-Lacks n)

left-Lacks : (width : ℕ) (w : Text) → IsWord w → Lacks b'\n' (left width w)
left-Lacks width w v =
    Lacks-append b'\n' w (spaces (width - length w)) (Spaceless-Lacks w v.spaceless)
      (spaces-Lacks (width - length w))

module _ (id app from' to' source destination state action : Text) (h1 : IsWord id)
    (h2 : IsWord app) (h3 : IsWord from') (h4 : IsWord to') (h5 : IsWord source)
    (h6 : IsWord destination) (h7 : IsWord state) (h8 : IsWord action) where
  -- Eight words in columns are told apart again.
  get_words-columns :
      get_words (columns id app from' to' source destination state action)
      ≡ id ∷ app ∷ from' ∷ to' ∷ source ∷ destination ∷ state ∷ action ∷ []
  unfolding columns
  get_words-columns =
      get_words-left 4 id _ h1
      ∙ ap (λ ws. id ∷ ws)
          (get_words-left 18 app _ h2
            ∙ ap (λ ws. app ∷ ws)
                (get_words-left 8 from' _ h3
                  ∙ ap (λ ws. from' ∷ ws)
                      (get_words-left 8 to' _ h4
                        ∙ ap (λ ws. to' ∷ ws)
                            (get_words-left 22 source _ h5
                              ∙ ap (λ ws. source ∷ ws)
                                  (get_words-left 22 destination _ h6
                                    ∙ ap (λ ws. destination ∷ ws)
                                        (get_words-left 12 state _ h7
                                          ∙ ap (λ ws. state ∷ ws)
                                              (get_words-left_last 6 action h8)))))))

  columns-one_line : Lacks b'\n' (columns id app from' to' source destination state action)
  unfolding columns
  columns-one_line = cell 4 id _ h1 (
      cell 18 app _ h2 (
        cell 8 from' _ h3 (
          cell 8 to' _ h4 (
            cell 22 source _ h5 (
              cell 22 destination _ h6 (
                cell 12 state _ h7
                  (Lacks-append b'\n' (left 6 action) [] (left-Lacks 6 action h8) tt)))))))
    where
      cell :
          (width : ℕ) (w rest : Text)
          → IsWord w
          → Lacks b'\n' rest
          → Lacks b'\n' (left width w ++ b' ' ∷ rest)
      cell width w rest v h =
          Lacks-append b'\n' (left width w) (b' ' ∷ rest) (left-Lacks width w v)
            ((λ e. omega arith), h)

  columns_lem :
      Lacks b'\n' (columns id app from' to' source destination state action)
      × (get_words (columns id app from' to' source destination state action)
          ≡ id ∷ app ∷ from' ∷ to' ∷ source ∷ destination ∷ state ∷ action ∷ [])
  columns_lem = (columns-one_line, get_words-columns)

endpoint-IsWord : (ip port : ℕ) → IsWord (endpoint ip port)
endpoint-IsWord ip port =
    (glue-IsToken (ipv4_to_string ip) b':' (to_string port) (ipv4_to_string-IsToken ip) refl
      (λ e. omega arith) (to_string-IsToken port)).word

state_to_string-IsWord : (s : SessionState) → IsWord (state_to_string s)
state_to_string-IsWord new = (literal-IsToken _ _ refl).word
state_to_string-IsWord syn_seen = (literal-IsToken _ _ refl).word
state_to_string-IsWord syn_ack_seen = (literal-IsToken _ _ refl).word
state_to_string-IsWord established = (literal-IsToken _ _ refl).word
state_to_string-IsWord fin_seen = (literal-IsToken _ _ refl).word
state_to_string-IsWord closing = (literal-IsToken _ _ refl).word
state_to_string-IsWord closed = (literal-IsToken _ _ refl).word

abbrev pub session_words : Session → List Text
session_words s =
    to_string s.id
    ∷ app_display s
    ∷ zone_to_string s.from_zone
    ∷ zone_to_string s.to_zone
    ∷ endpoint s.init_ip s.init_port
    ∷ endpoint s.resp_ip s.resp_port
    ∷ state_to_string s.state
    ∷ verdict_to_string s.verdict
    ∷ []

abbrev pub heading_words : List Text
heading_words =
    codes "ID"
    ∷ codes "APP"
    ∷ codes "FROM"
    ∷ codes "TO"
    ∷ codes "SOURCE"
    ∷ codes "DESTINATION"
    ∷ codes "STATE"
    ∷ codes "ACTION"
    ∷ []

-- The application of each session is shown as one word.
abbrev pub OneWords : List Session → Type 0
OneWords [] = Unit {0}
OneWords (s ∷ ss) = IsWord (app_display s) × OneWords ss

lines-ended :
    (line rest : Text) (ws : List Text)
    → Lacks b'\n' line × (get_words line ≡ ws)
    → map get_words (get_lines b'\n' (ended line ++ rest))
      ≡ ws ∷ map get_words (get_lines b'\n' rest)
lines-ended line rest ws (h, e) =
    ap (λ t. map get_words (get_lines b'\n' t)) (append_assoc line (b'\n' ∷ []) rest)
    ∙ ap (map get_words) (get_lines-append b'\n' line rest h)
    ∙ ap (λ w. w ∷ map get_words (get_lines b'\n' rest)) e

session_columns_lem :
    (s : Session)
    → IsWord (app_display s)
    → Lacks b'\n' (session_columns s) × (get_words (session_columns s) ≡ session_words s)
session_columns_lem s h =
    columns_lem _ _ _ _ _ _ _ _ (to_string-IsToken s.id).word h
      (zone_to_string-IsToken s.from_zone).word (zone_to_string-IsToken s.to_zone).word
      (endpoint-IsWord s.init_ip s.init_port) (endpoint-IsWord s.resp_ip s.resp_port)
      (state_to_string-IsWord s.state) (verdict_to_string-IsToken s.verdict).word

heading_lem : Lacks b'\n' heading × (get_words heading ≡ heading_words)
heading_lem =
    columns_lem _ _ _ _ _ _ _ _ (literal-IsToken _ _ refl).word (literal-IsToken _ _ refl).word
      (literal-IsToken _ _ refl).word (literal-IsToken _ _ refl).word
      (literal-IsToken _ _ refl).word (literal-IsToken _ _ refl).word
      (literal-IsToken _ _ refl).word (literal-IsToken _ _ refl).word

abbrev session_lines : List Session → Text
session_lines ss = stream (map (λ s. ended (session_columns s)) ss)

lines-words :
    (ss : List Session) (rest : Text)
    → OneWords ss
    → map get_words (get_lines b'\n' (session_lines ss ++ rest))
      ≡ map session_words ss ++ map get_words (get_lines b'\n' rest)
lines-words [] rest v = refl
lines-words (s ∷ ss) rest (h, v) =
    ap (λ t. map get_words (get_lines b'\n' t))
      (append_assoc (ended (session_columns s)) (session_lines ss) rest)
    ∙ lines-ended (session_columns s) (session_lines ss ++ rest) (session_words s)
        (session_columns_lem s h)
    ∙ ap (λ ls. session_words s ∷ ls) (lines-words ss rest v)

-- If the application of each session is shown as one word: the lines that print_sessions writes, each
-- taken apart at white space, are the heading and, in the order of the table, for each session its
-- id, application, zones, end points, state and verdict. Whatever is written behind them starts a line.
pub print_sessions-session_words :
    (ss : List Session) (rest : Text)
    → OneWords ss
    → map get_words (get_lines b'\n' (print_sessions ss ++ rest))
      ≡ heading_words ∷ (map session_words ss ++ map get_words (get_lines b'\n' rest))
unfolding print_sessions
print_sessions-session_words ss rest v =
    ap (λ t. map get_words (get_lines b'\n' t))
      (append_assoc (ended heading) (session_lines ss) rest)
    ∙ lines-ended heading (session_lines ss ++ rest) heading_words heading_lem
    ∙ ap (λ ls. heading_words ∷ ls) (lines-words ss rest v)
