-- ===== src/RuleFile/Tokens.antt =====
-- The words of a rule file for src/policy.cpp, and joining them by a separator.
use nano_ngfw.Prelude.{
  ℕ, ◌^◌, ◌%◌, ◌/◌, ◌≡◌, ◌≢◌, ◌∙◌, refl, ap, Bool, true, false, List, [], ◌∷◌, ◌++◌, ◌==◌, not,
  ◌&&◌, Text, arith,
}
use nano_ngfw.Strings.{is_space, to_string, get_lines, get_words}
use nano_ngfw.Strings.Numbers.{AllDigits, to_string-AllDigits}
use nano_ngfw.Strings.Pieces.{
  Lacks, Lacks-append, Spaceless, split_at_first-none, get_lines-append, get_lines_last,
  get_words-append, get_words_last,
}
use nano_ngfw.Addresses.{ipv4_to_string, split, drop_empty}
use nano_ngfw.Addresses.Quads.{to_string-ne-nil, to_string-Lacks}
use nano_ngfw.Policy.{Zone, any, trust, untrust, dmz, Verdict, allow, deny, drop, Policy}
use nano_ngfw.Policy.Names.{zone_to_string, verdict_to_string}
use nano_ngfw.RuleFile.{parse_tokens, parse_line, unlines}
use nano_ngfw.RuleFile.Printed.{join, IsToken, IsItem, All}

pub Spaceless-append : (s t : Text) → Spaceless s → Spaceless t → Spaceless (s ++ t)
Spaceless-append [] t a b = b
Spaceless-append (c ∷ s) t (h, a) b = (h, Spaceless-append s t a b)

-- A text without white space has no newline.
pub Spaceless-Lacks : (w : Text) → Spaceless w → Lacks b'\n' w
Spaceless-Lacks [] h = tt
Spaceless-Lacks (c ∷ w) (h, k) = (λ e. cc (h, ap is_space e), Spaceless-Lacks w k)

AllDigits-Spaceless : (w : Text) → AllDigits w → Spaceless w
AllDigits-Spaceless [] h = tt
AllDigits-Spaceless (c ∷ w) (h, k) = (ground arith, AllDigits-Spaceless w k)

append-ne-nil {ℓ} : {A : Type ℓ} (s t : List A) → s ≢ [] → s ++ t ≢ []
append-ne-nil [] t h e = h refl
append-ne-nil (c ∷ s) t h e = cc

-- Two tokens with a byte of no special meaning between them are one token.
pub glue-IsToken :
    (s : Text) (c : ℕ) (t : Text)
    → IsToken s
    → is_space c ≡ false
    → c ≢ b'#'
    → IsToken t
    → IsToken (s ++ c ∷ t)
glue-IsToken s c t v h ne w = record {
  word = record {
    some_byte = append-ne-nil s (c ∷ t) v.word.some_byte;
    spaceless = Spaceless-append s (c ∷ t) v.word.spaceless (h, w.word.spaceless);
  };
  uncommented = Lacks-append b'#' s (c ∷ t) v.uncommented (ne, w.uncommented);
}

pub to_string-IsToken : (n : ℕ) → IsToken (to_string n)
to_string-IsToken n = record {
  word = record {
    some_byte = to_string-ne-nil n;
    spaceless = AllDigits-Spaceless (to_string n) (to_string-AllDigits n);
  };
  uncommented = to_string-Lacks b'#' n refl;
}

pub ipv4_to_string-IsToken : (addr : ℕ) → IsToken (ipv4_to_string addr)
unfolding ipv4_to_string
ipv4_to_string-IsToken addr =
    glue-IsToken _ b'.' _ (to_string-IsToken (addr / 2 ^ 24 % 2 ^ 8)) refl (λ e. omega arith)
      (glue-IsToken _ b'.' _ (to_string-IsToken (addr / 2 ^ 16 % 2 ^ 8)) refl (λ e. omega arith)
        (glue-IsToken _ b'.' _ (to_string-IsToken (addr / 2 ^ 8 % 2 ^ 8)) refl (λ e. omega arith)
          (to_string-IsToken (addr % 2 ^ 8))))

-- A word that is written out, by evaluation.
abbrev pub spaceless : Text → Bool
spaceless [] = true
spaceless (c ∷ w) = not (is_space c) && not (c == b'#') && spaceless w

spaceless_sound : (w : Text) → spaceless w ≡ true → Spaceless w × Lacks b'#' w
spaceless_sound [] h = (tt, tt)
spaceless_sound (c ∷ w) h =
    let (a, b) = spaceless_sound w (ground arith) in ((ground arith, a), (λ e. ground arith, b))

pub literal-IsToken : (c : ℕ) (w : Text) → spaceless (c ∷ w) ≡ true → IsToken (c ∷ w)
literal-IsToken c w h =
    let (a, b) = spaceless_sound (c ∷ w) h in
    record { word = record { some_byte = λ e. cc; spaceless = a }; uncommented = b }

pub zone_to_string-IsToken : (z : Zone) → IsToken (zone_to_string z)
unfolding zone_to_string
zone_to_string-IsToken any = literal-IsToken _ _ refl
zone_to_string-IsToken trust = literal-IsToken _ _ refl
zone_to_string-IsToken untrust = literal-IsToken _ _ refl
zone_to_string-IsToken dmz = literal-IsToken _ _ refl

pub verdict_to_string-IsToken : (v : Verdict) → IsToken (verdict_to_string v)
unfolding verdict_to_string
verdict_to_string-IsToken allow = literal-IsToken _ _ refl
verdict_to_string-IsToken deny = literal-IsToken _ _ refl
verdict_to_string-IsToken drop = literal-IsToken _ _ refl

-- Items with commas between them are one token.
pub join-IsToken : (w : Text) (ws : List Text) → All IsToken (w ∷ ws) → IsToken (join b',' (w ∷ ws))
join-IsToken w [] (v, _) = v
join-IsToken w (x ∷ ws) (v, vs) =
    glue-IsToken w b',' (join b',' (x ∷ ws)) v refl (λ e. omega arith) (join-IsToken x ws vs)

get_words-join : (ws : List Text) → All IsToken ws → get_words (join b' ' ws) ≡ ws
get_words-join [] v = unfold get_words in refl
get_words-join (w ∷ []) (v, _) = get_words_last w v.word
get_words-join (w ∷ x ∷ ws) (v, vs) =
    get_words-append w b' ' (join b' ' (x ∷ ws)) v.word refl
    ∙ ap (λ t. w ∷ t) (get_words-join (x ∷ ws) vs)

join-uncommented : (ws : List Text) → All IsToken ws → Lacks b'#' (join b' ' ws)
join-uncommented [] v = tt
join-uncommented (w ∷ []) (v, _) = v.uncommented
join-uncommented (w ∷ x ∷ ws) (v, vs) =
    Lacks-append b'#' w (b' ' ∷ join b' ' (x ∷ ws)) v.uncommented
      (λ e. omega arith, join-uncommented (x ∷ ws) vs)

pub join-one_line : (ws : List Text) → All IsToken ws → Lacks b'\n' (join b' ' ws)
join-one_line [] v = tt
join-one_line (w ∷ []) (v, _) = Spaceless-Lacks w v.word.spaceless
join-one_line (w ∷ x ∷ ws) (v, vs) =
    Lacks-append b'\n' w (b' ' ∷ join b' ' (x ∷ ws)) (Spaceless-Lacks w v.word.spaceless)
      (λ e. omega arith, join-one_line (x ∷ ws) vs)

-- A line is read as the tokens that it is written from.
pub parse_line-join :
    (p : Policy) (ws : List Text) → All IsToken ws → parse_line p (join b' ' ws) ≡ parse_tokens p ws
unfolding parse_line
parse_line-join p ws v =
    rw (split_at_first-none b'#' (join b' ' ws) (join-uncommented ws v), get_words-join ws v)

pub get_lines-unlines : (ls : List Text) → All (Lacks b'\n') ls → get_lines b'\n' (unlines ls) ≡ ls
get_lines-unlines [] v = unfold get_lines in refl
get_lines-unlines (l ∷ ls) (v, vs) =
    get_lines-append b'\n' l (unlines ls) v ∙ ap (λ t. l ∷ t) (get_lines-unlines ls vs)

get_lines-join : (ws : List Text) → All IsItem ws → get_lines b',' (join b',' ws) ≡ ws
get_lines-join [] v = unfold get_lines in refl
get_lines-join (w ∷ []) (v, _) = get_lines_last b',' w v.commaless v.token.word.some_byte
get_lines-join (w ∷ x ∷ ws) (v, vs) =
    get_lines-append b',' w (join b',' (x ∷ ws)) v.commaless
    ∙ ap (λ t. w ∷ t) (get_lines-join (x ∷ ws) vs)

drop_empty-All : (ws : List Text) → All IsItem ws → drop_empty ws ≡ ws
drop_empty-All [] v = refl
drop_empty-All ([] ∷ ws) (v, vs) = absurd (v.token.word.some_byte refl)
drop_empty-All ((c ∷ w) ∷ ws) (v, vs) = ap (λ t. (c ∷ w) ∷ t) (drop_empty-All ws vs)

-- A list of items is read as it was written.
pub split-join : (ws : List Text) → All IsItem ws → split (join b',' ws) b',' ≡ ws
unfolding split
split-join ws v = ap drop_empty (get_lines-join ws v) ∙ drop_empty-All ws v
