-- ===== src/Report/Plain.antt =====
-- Texts of src/report.cpp that add no tag, and how the tags of parts make those of a whole.
use nano_ngfw.Prelude.{
  ℕ, ◌≡◌, refl, ap, false, List, [], ◌∷◌, ◌++◌, Option, none, some, Text, arith,
}
use mathlib.Core.List.{map}
use nano_ngfw.Strings.Pieces.{Lacks, Lacks-append}
use nano_ngfw.Policy.{Zone, Verdict, Rule}
use nano_ngfw.Policy.Names.{zone_to_string, verdict_to_string}
use nano_ngfw.Flow.{Session, SessionState}
use nano_ngfw.Output.{stream, endpoint, state_to_string}
use nano_ngfw.Report.Markup.{
  markup, after, markup-append, after-append, Pieces, tags, kinds, stream-tags,
}
use nano_ngfw.Report.Table.{escape, escape_byte, rule_name, verdict_class}

pub escape_byte-Lacks : (c : ℕ) → Lacks b'<' (escape_byte c)
escape_byte-Lacks c = ground arith

-- What is escaped has no `<`.
pub escape-Lacks : (t : Text) → Lacks b'<' (escape t)
unfolding escape
escape-Lacks [] = tt
escape-Lacks (c ∷ t) =
    Lacks-append b'<' (escape_byte c) (escape t) (escape_byte-Lacks c) (escape-Lacks t)

pub zone_to_string-Lacks : (z : Zone) → Lacks b'<' (zone_to_string z)
unfolding zone_to_string
zone_to_string-Lacks z = ground arith

pub endpoint-Lacks : (ip port : ℕ) → Lacks b'<' (escape (endpoint ip port))
endpoint-Lacks ip port = escape-Lacks (endpoint ip port)

pub state_to_string-Lacks : (s : SessionState) → Lacks b'<' (state_to_string s)
state_to_string-Lacks s = ground arith

pub verdict_to_string-Lacks : (v : Verdict) → Lacks b'<' (verdict_to_string v)
unfolding verdict_to_string
verdict_to_string-Lacks v = ground arith

pub rule_name-Lacks : (t : Text) → Lacks b'<' t → (r : Option Rule) → Lacks b'<' (rule_name t r)
rule_name-Lacks t h none = h
rule_name-Lacks t h (some r) = escape-Lacks r.name

-- No part begins or ends inside of a tag, and its tags are these.
abbrev pub HasTags : Text → Text → Type 0
HasTags w m = (markup false w ≡ m) × (after false w ≡ false)

pub stream-HasTags :
    (letters : Text) (ws : List Text)
    → Pieces false (kinds letters) ws
    → HasTags (stream ws) (tags false (kinds letters) ws)
stream-HasTags letters ws v = stream-tags false (kinds letters) ws v

pub verdict_class-Lacks : (v : Verdict) → Lacks b'>' (verdict_class v)
verdict_class-Lacks v = ground arith

-- Parts one after the other.
pub HasTags-append : (w v m n : Text) → HasTags w m → HasTags v n → HasTags (w ++ v) (m ++ n)
HasTags-append w v m n (p, q) (p', q') =
    rw (markup-append false w v, after-append false w v, p, q) (ap (λ t. m ++ t) p', q')

pub HasTags-nil : HasTags [] []
unfolding markup after
HasTags-nil = (refl, refl)

abbrev pub AllTags : List Text → List Text → Type 0
AllTags [] [] = Unit {0}
AllTags (w ∷ ws) (m ∷ ms) = HasTags w m × AllTags ws ms
AllTags _ _ = ⊥

pub stream-AllTags : (ws ms : List Text) → AllTags ws ms → HasTags (stream ws) (stream ms)
stream-AllTags [] [] v = HasTags-nil
stream-AllTags [] (m ∷ ms) v = elim v [ ]
stream-AllTags (w ∷ ws) [] v = elim v [ ]
stream-AllTags (w ∷ ws) (m ∷ ms) (h, v) =
    HasTags-append w (stream ws) m (stream ms) h (stream-AllTags ws ms v)

pub HasTags-map :
    (f g : Session → Text) (ss : List Session)
    → ((s : Session) → HasTags (f s) (g s))
    → HasTags (stream (map f ss)) (stream (map g ss))
HasTags-map f g [] h = HasTags-nil
HasTags-map f g (s ∷ ss) h =
    HasTags-append (f s) (stream (map f ss)) (g s) (stream (map g ss)) (h s) (HasTags-map f g ss h)
