-- ===== src/RuleFile/Errors.antt =====
-- The errors of Policy::parse in src/policy.cpp: which line is refused, and what is kept.
use nano_ngfw.Prelude.{
  ℕ, ◌+◌, ◌<◌, ◌^◌, pos, to_int, to_int_small, ◌≡◌, ◌∙◌, refl, sym, ap, List, [], ◌∷◌, ◌++◌, none,
  some, ◌⊎◌, inl, inr, arith, length, Text,
}
use nano_ngfw.Strings.{get_lines}
use nano_ngfw.Policy.{Policy}
use nano_ngfw.RuleFile.{parse_line, parse_lines, parse, message, empty_policy}

-- The lines split where one is refused, `n` lines into the file: those before it are accepted and make
-- the policy that is left, and the message holds the refused line's number and why.
pub record Refused (n : ℕ) (start : Policy) (lines : List Text) (left : Policy) (error : Text)
    : Type 0 where
  pub accepted : List Text
  pub line : Text
  pub unread : List Text
  pub why : Text
  pub splits : lines ≡ accepted ++ line ∷ unread
  pub accepts : parse_lines accepted n start ≡ (left, none)
  pub refuses : parse_line left line ≡ inl why
  pub says : error ≡ message (pos (n + length accepted + 1)) why

parse_on-cases : (o : Text ⊎ Policy) → ((why : Text) × (o ≡ inl why)) ⊎ ((p : Policy) × (o ≡ inr p))
parse_on-cases (inl why) = inl (why, refl)
parse_on-cases (inr p) = inr (p, refl)

parse_lines-Refused :
    (lines : List Text) (n : ℕ) (p left : Policy) (error : Text)
    → n + length lines < 2 ^ 31
    → parse_lines lines n p ≡ (left, some error)
    → Refused n p lines left error
unfolding parse_lines
parse_lines-Refused [] n p left error b e = cc
parse_lines-Refused (l ∷ ls) n p left error b e = elim (parse_on-cases (parse_line p l)) [
  | inl (why, refused) ↦
      let e' = rw refused at e in
      let same : p ≡ left = cc in
      let said : error ≡ message (to_int (n + 1)) why = cc in
      record {
        accepted = [];
        line = l;
        unread = ls;
        why = why;
        splits = refl;
        accepts = unfold parse_lines in ap (λ q. (q, none)) same;
        refuses = ap (λ q. parse_line q l) (sym same) ∙ refused;
        says =
            said
            ∙ ap (λ k. message k why) (to_int_small (n + 1) (omega arith) ∙ ap pos (omega arith));
      }
  | inr (p', fine) ↦
      let f = parse_lines-Refused ls (n + 1) p' left error (omega arith) (rw fine at e) in
      record {
        accepted = l ∷ f.accepted;
        line = f.line;
        unread = f.unread;
        why = f.why;
        splits = ap (λ t. l ∷ t) f.splits;
        accepts = rw fine f.accepts;
        refuses = f.refuses;
        says = f.says ∙ ap (λ k. message (pos k) f.why) (omega arith);
      }
]

-- If parse fails on a text of fewer than 2^31 lines, so that its line counter does not overflow, there is a first line that is refused: the lines before it are accepted and make the
-- policy that is left, and the error names that line by its number from 1, with the reason for which it
-- is refused. Nothing behind it is read.
pub parse-Refused :
    (text : Text) (left : Policy) (error : Text)
    → length (get_lines b'\n' text) < 2 ^ 31
    → parse text ≡ (left, some error)
    → Refused 0 empty_policy (get_lines b'\n' text) left error
unfolding parse
parse-Refused text left error b e =
    parse_lines-Refused (get_lines b'\n' text) 0 empty_policy left error (omega (arith, b)) e
