-- ===== src/Report/Markup.antt =====
-- What the tags of a text are, and those of the pieces that src/report.cpp writes one after the other.
use nano_ngfw.Prelude.{
  ◌≡◌, ◌∙◌, refl, ap, Bool, true, false, not, List, [], ◌∷◌, ◌++◌, ◌==◌, if◌then◌else◌, Text, arith,
}
use nano_ngfw.Strings.Pieces.{Lacks}
use nano_ngfw.Output.{stream}

-- What stands in a document between `<` and `>`, these included; the flag says whether the text begins
-- inside of a tag.
unfoldable pub markup : Bool → Text → Text
markup b [] = []
markup true (c ∷ cs) = c ∷ markup (not (c == b'>')) cs
markup false (c ∷ cs) = let rest = markup (c == b'<') cs in if c == b'<' then c ∷ rest else rest

-- Does the text end inside of a tag?
unfoldable pub after : Bool → Text → Bool
after b [] = b
after true (c ∷ cs) = after (not (c == b'>')) cs
after false (c ∷ cs) = after (c == b'<') cs

pub markup-append :
    (b : Bool) (w rest : Text) → markup b (w ++ rest) ≡ markup b w ++ markup (after b w) rest
unfolding markup after
markup-append b [] rest = refl
markup-append true (c ∷ w) rest = ap (λ t. c ∷ t) (markup-append (not (c == b'>')) w rest)
markup-append false (c ∷ w) rest = ground (arith, markup-append (c == b'<') w rest)

pub after-append : (b : Bool) (w rest : Text) → after b (w ++ rest) ≡ after (after b w) rest
unfolding after
after-append b [] rest = refl
after-append true (c ∷ w) rest = after-append (not (c == b'>')) w rest
after-append false (c ∷ w) rest = after-append (c == b'<') w rest

-- A text without `<` outside of a tag adds none, and one without `>` inside of a tag stays in it.
pub plain : (w : Text) → Lacks b'<' w → (markup false w ≡ []) × (after false w ≡ false)
unfolding markup after
plain [] h = (refl, refl)
plain (c ∷ w) (h, k) = let (p, q) = plain w k in (ground arith, ground arith)

inside : (w : Text) → Lacks b'>' w → (markup true w ≡ w) × (after true w ≡ true)
unfolding markup after
inside [] h = (refl, refl)
inside (c ∷ w) (h, k) = let (p, q) = inside w k in (ground arith, ground arith)

-- What a piece of the document is: written as it stands, text between tags, the value of an attribute,
-- or a part that is closed in itself.
pub data Kind : Type 0 where
  fixed text attribute part : Kind

-- The tags of the pieces, and whether they end inside of one.
abbrev pub tags : Bool → List Kind → List Text → Text
tags b (fixed ∷ ks) (w ∷ ws) = markup b w ++ tags (after b w) ks ws
tags b (text ∷ ks) (w ∷ ws) = tags b ks ws
tags b (attribute ∷ ks) (w ∷ ws) = w ++ tags b ks ws
tags b (part ∷ ks) (w ∷ ws) = markup b w ++ tags b ks ws
tags b _ _ = []

abbrev pub Pieces : Bool → List Kind → List Text → Type 0
Pieces b [] [] = b ≡ false
Pieces b (fixed ∷ ks) (w ∷ ws) = Pieces (after b w) ks ws
Pieces b (text ∷ ks) (w ∷ ws) = (b ≡ false) × Lacks b'<' w × Pieces b ks ws
Pieces b (attribute ∷ ks) (w ∷ ws) = (b ≡ true) × Lacks b'>' w × Pieces b ks ws
Pieces b (part ∷ ks) (w ∷ ws) = (b ≡ false) × (after b w ≡ false) × Pieces b ks ws
Pieces b _ _ = ⊥

-- A document has the tags of its pieces, and ends outside of one.
pub stream-tags :
    (b : Bool) (ks : List Kind) (ws : List Text)
    → Pieces b ks ws
    → (markup b (stream ws) ≡ tags b ks ws) × (after b (stream ws) ≡ false)
stream-tags b [] [] v = unfold markup after in (refl, v)
stream-tags b [] (w ∷ ws) v = elim v [ ]
stream-tags b (fixed ∷ ks) [] v = elim v [ ]
stream-tags b (text ∷ ks) [] v = elim v [ ]
stream-tags b (attribute ∷ ks) [] v = elim v [ ]
stream-tags b (part ∷ ks) [] v = elim v [ ]
stream-tags b (fixed ∷ ks) (w ∷ ws) v =
    let (p, q) = stream-tags (after b w) ks ws v in
    (markup-append b w (stream ws) ∙ ap (λ t. markup b w ++ t) p, after-append b w (stream ws) ∙ q)
stream-tags b (text ∷ ks) (w ∷ ws) (e, h, v) =
    let (p, q) = stream-tags b ks ws v in
    let (m, a) = plain w h in
    rw (markup-append b w (stream ws), after-append b w (stream ws), e, m, a) (rw e at p, rw e at q)
stream-tags b (attribute ∷ ks) (w ∷ ws) (e, h, v) =
    let (p, q) = stream-tags b ks ws v in
    let (m, a) = inside w h in
    rw (markup-append b w (stream ws), after-append b w (stream ws), e, m, a)
      (ap (λ t. w ++ t) (rw e at p), rw e at q)
stream-tags b (part ∷ ks) (w ∷ ws) (e, h, v) =
    let (p, q) = stream-tags b ks ws v in
    rw (markup-append b w (stream ws), after-append b w (stream ws), h, e)
      (ap (λ t. markup false w ++ t) (rw e at p), rw e at q)

-- The kinds of pieces by their first letters.
abbrev pub kinds : Text → List Kind
kinds [] = []
kinds (c ∷ cs) =
    if c == b'f'
    then fixed ∷ kinds cs
    else if c == b't'
    then text ∷ kinds cs
    else if c == b'a'
    then attribute ∷ kinds cs
    else if c == b'p'
    then part ∷ kinds cs
    else kinds cs
