-- ===== src/AppId/Content.antt =====
-- App-ID of src/appid.cpp judges the content: the port does not decide what it can recognise, and
-- what a cut host name leaves behind.
use nano_ngfw.Prelude.{
  ℕ, zero, suc, ◌+◌, ◌≤◌, ◌<◌, ◌≡◌, ◌≢◌, ◌⊎◌, refl, false, List, [], ◌∷◌, ◌++◌, some, arith, Text,
  codes, ap, subst, ◌∙◌,
}
use mathlib.Core.List.{append_assoc, append-nil}
use nano_ngfw.ByteView.{ByteView, byte}
use nano_ngfw.ByteView.Access.{u8_eq}
use nano_ngfw.AppId.{
  AppIdResult, starts_with_any, looks_like_http, dns_or_gave_up, classify_tcp, classify, dns, ssh,
  methods, found,
}
use nano_ngfw.AppId.Sni.{copy_name}
use nano_ngfw.AppId.Total.{Spells, starts_with-Tests}
use nano_ngfw.AppId.Sni.Walk.{Printable}

-- An application other than dns that classify names at one destination port, it names at every port.
pub classify_any_port :
    (v : ByteView) (proto p q : ℕ) {r : AppIdResult}
    → classify v proto p ≡ some r
    → r.application ≢ []
    → r.application ≢ dns
    → classify v proto q ≡ some r
unfolding classify classify_tcp dns_or_gave_up
classify_any_port v proto p q h n d = ground arith

-- Each of the literals begins with another byte than c.
abbrev Misses : ℕ → List Text → Type 0
Misses c [] = Unit {0}
Misses c ([] ∷ ms) = ⊥
Misses c ((x ∷ xs) ∷ ms) = (x ≢ c) × Misses c ms

starts_with_any_miss :
    (v : ByteView) (c : ℕ) (ms : List Text)
    → byte v 0 ≡ c
    → Misses c ms
    → starts_with_any v ms ≡ some false
unfolding starts_with_any
starts_with_any_miss v c [] h m = refl
starts_with_any_miss v c ([] ∷ ms) h m = absurd m
starts_with_any_miss v c ((x ∷ xs) ∷ ms) h (ne, m) =
    let (b, e, t) = starts_with-Tests v (x ∷ xs) in
    let miss : b ≡ false = ground arith in rw (e, miss) (starts_with_any_miss v c ms h m)

-- A payload that begins with "SSH-" is ssh on every port and over every protocol but UDP.
pub classify-ssh :
    (v : ByteView) (proto dst_port : ℕ)
    → 4 ≤ v.len
    → Spells v 0 (codes "SSH-")
    → proto ≢ 17
    → classify v proto dst_port ≡ some (found ssh [])
unfolding classify classify_tcp looks_like_http
classify-ssh v proto dst_port h s ne =
    let (b, e, t) = starts_with-Tests v (codes "SSH-") in
    let miss = starts_with_any_miss v b'S' methods s.0 (omega arith) in ground (arith, miss)

abbrev pub bytes_at : ByteView → ℕ → ℕ → Text
bytes_at v p zero = []
bytes_at v p (suc k) = byte v p ∷ bytes_at v (p + 1) k

abbrev pub Unprintable : ByteView → ℕ → Type 0
Unprintable v i = (byte v i < 0x20) ⊎ (0x7e < byte v i)

copy_cut :
    (k n : ℕ) (v : ByteView) (p : ℕ) (sni : Text)
    → k < n
    → p + n ≤ v.len
    → Printable (bytes_at v p k)
    → Unprintable v (p + k)
    → copy_name n v p sni ≡ some (false, sni ++ bytes_at v p k)
unfolding copy_name
copy_cut k zero v p sni h r q bad = absurd (omega arith)
copy_cut zero (suc n) v p sni h r q bad =
    rw (u8_eq v p (omega arith), append-nil) (ground (arith, here))
  where
    here : (byte v p < 0x20) ⊎ (0x7e < byte v p)
    here = subst (Unprintable v) (omega arith) bad
copy_cut (suc k) (suc n) v p sni h r (lo, hi, q) bad = rw (u8_eq v p (omega arith)) (
    ground (arith, copy_cut k n v (p + 1) (sni ++ byte v p ∷ []) (omega arith) (omega arith) q next)
    ∙ ap (λ t. some (false, t)) (append_assoc sni (byte v p ∷ []) (bytes_at v (p + 1) k)))
  where
    next : Unprintable v (p + 1 + k)
    next = subst (Unprintable v) (omega arith) bad

-- Where a host name is refused for a byte that is not printable, the answer is no, and the name's
-- bytes before it stay in the out-parameter.
pub copy_name_cut :
    (k n : ℕ) (v : ByteView) (p : ℕ)
    → k < n
    → p + n ≤ v.len
    → Printable (bytes_at v p k)
    → Unprintable v (p + k)
    → copy_name n v p [] ≡ some (false, bytes_at v p k)
copy_name_cut k n v p h r q bad = copy_cut k n v p [] h r q bad
