-- ===== src/Strings/Pieces.antt =====
-- Taking texts apart by find, getline and `>>`, against joining pieces by a separator.
use nano_ngfw.Prelude.{
  ℕ, ◌≡◌, ◌≢◌, refl, ap, ◌∙◌, true, false, [], ◌∷◌, ◌++◌, none, some, arith, Text,
}
use nano_ngfw.Strings.{is_space, split_at_first, cons_first, get_lines, get_words}

-- No byte of the text is the separator.
abbrev pub Lacks : ℕ → Text → Type 0
Lacks sep [] = Unit {0}
Lacks sep (c ∷ cs) = (c ≢ sep) × Lacks sep cs

pub Lacks-append : (sep : ℕ) (s t : Text) → Lacks sep s → Lacks sep t → Lacks sep (s ++ t)
Lacks-append sep [] t a b = b
Lacks-append sep (c ∷ s) t (h, a) b = (h, Lacks-append sep s t a b)

pub split_at_first-append :
    (sep : ℕ) (s t : Text) → Lacks sep s → split_at_first sep (s ++ sep ∷ t) ≡ some (s, t)
unfolding split_at_first
split_at_first-append sep [] t h = ground arith
split_at_first-append sep (c ∷ s) t (h, k) = ground (arith, split_at_first-append sep s t k)

pub split_at_first-none : (sep : ℕ) (s : Text) → Lacks sep s → split_at_first sep s ≡ none
unfolding split_at_first
split_at_first-none sep [] h = refl
split_at_first-none sep (c ∷ s) (h, k) = ground (arith, split_at_first-none sep s k)

pub get_lines-append :
    (sep : ℕ) (l t : Text) → Lacks sep l → get_lines sep (l ++ sep ∷ t) ≡ l ∷ get_lines sep t
unfolding get_lines
get_lines-append sep [] t h = ground arith
get_lines-append sep (c ∷ l) t (h, k) = ground (arith, get_lines-append sep l t k)

pub get_lines_last : (sep : ℕ) (l : Text) → Lacks sep l → l ≢ [] → get_lines sep l ≡ l ∷ []
unfolding get_lines
get_lines_last sep [] h ne = absurd (ne refl)
get_lines_last sep (c ∷ []) (h, k) ne = ground arith
get_lines_last sep (c ∷ d ∷ l) (h, k) ne = ground (arith, get_lines_last sep (d ∷ l) k (λ e. cc))

-- A word: not empty, and no white space in it.
abbrev pub Spaceless : Text → Type 0
Spaceless [] = Unit {0}
Spaceless (c ∷ cs) = (is_space c ≡ false) × Spaceless cs

pub record IsWord (w : Text) : Type 0 where
  pub some_byte : w ≢ []
  pub spaceless : Spaceless w

get_words_step :
    (c d : ℕ) (t : Text)
    → is_space c ≡ false
    → is_space d ≡ false
    → get_words (c ∷ d ∷ t) ≡ cons_first c (get_words (d ∷ t))
unfolding get_words
get_words_step c d t h g = rw (h, g) refl

words-append :
    (w : Text) (sp : ℕ) (t : Text)
    → w ≢ []
    → Spaceless w
    → is_space sp ≡ true
    → get_words (w ++ sp ∷ t) ≡ w ∷ get_words t
unfolding get_words
words-append [] sp t ne h k = absurd (ne refl)
words-append (c ∷ []) sp t ne (h, _) k = rw (h, k) refl
words-append (c ∷ d ∷ w) sp t ne (h, (g, m)) k =
    get_words_step c d (w ++ sp ∷ t) h g
    ∙ ap (cons_first c) (words-append (d ∷ w) sp t (λ e. cc) (g, m) k)

words_last : (w : Text) → w ≢ [] → Spaceless w → get_words w ≡ w ∷ []
unfolding get_words
words_last [] ne h = absurd (ne refl)
words_last (c ∷ []) ne (h, _) = rw h refl
words_last (c ∷ d ∷ w) ne (h, (g, m)) =
    get_words_step c d w h g ∙ ap (cons_first c) (words_last (d ∷ w) (λ e. cc) (g, m))

pub get_words-append :
    (w : Text) (sp : ℕ) (t : Text)
    → IsWord w
    → is_space sp ≡ true
    → get_words (w ++ sp ∷ t) ≡ w ∷ get_words t
get_words-append w sp t v k = words-append w sp t v.some_byte v.spaceless k

pub get_words_last : (w : Text) → IsWord w → get_words w ≡ w ∷ []
get_words_last w v = words_last w v.some_byte v.spaceless
