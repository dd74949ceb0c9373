-- ===== src/AppId.antt =====
-- src/appid.h and src/appid.cpp but for the ClientHello walk, which is AppId/Sni.antt: the payload
-- classifier. `none` is an aborted NANO_ASSERT.
pub mod Sni
pub mod Total
pub mod Content
pub mod Tests
use nano_ngfw.Prelude.{
  ℕ, zero, suc, ◌+◌, ◌/◌, ◌%◌, Bool, true, false, not, ◌&&◌, ◌||◌, List, [], ◌∷◌, Option, none,
  some, ltb, ◌==◌, if◌then◌else◌, ◌>>=◌, length, Text, codes,
}
use nano_ngfw.ByteView.{ByteView, empty, has, u8, u16}
use Sni.{extract_sni}

abbrev pub web_browsing : Text
web_browsing = codes "web-browsing"

abbrev pub ssl : Text
ssl = codes "ssl"

abbrev pub dns : Text
dns = codes "dns"

abbrev pub ssh : Text
ssh = codes "ssh"

abbrev pub unknown : Text
unknown = codes "unknown"

pub record AppIdResult : Type 0 where
  pub application : Text
  pub sni : Text
  pub exhausted : Bool

abbrev pub no_result : AppIdResult
no_result = record { application = []; sni = []; exhausted = false }

-- The comparison loop of starts_with, from byte `i` on.
unfoldable pub match_from : ByteView → ℕ → Text → Option Bool
match_from v i [] = some true
match_from v i (c ∷ cs) =
    let rest = match_from v (i + 1) cs in
    (u8 v i) >>= λ b. (if not (b == c) then some false else rest)

unfoldable pub starts_with : ByteView → Text → Option Bool
starts_with v literal =
    if not (has v 0 (length literal)) then some false else match_from v 0 literal

abbrev pub methods : List Text
methods =
    codes "GET "
    ∷ codes "POST "
    ∷ codes "HEAD "
    ∷ codes "PUT "
    ∷ codes "DELETE "
    ∷ codes "OPTIONS "
    ∷ codes "PATCH "
    ∷ codes "CONNECT "
    ∷ []

unfoldable pub starts_with_any : ByteView → List Text → Option Bool
starts_with_any v [] = some false
starts_with_any v (m ∷ ms) =
    let rest = starts_with_any v ms in (starts_with v m) >>= λ b. (if b then some true else rest)

unfoldable pub looks_like_http : ByteView → Option Bool
looks_like_http v = starts_with_any v methods

-- The loop over the labels of the question's name, with the rounds that are left of its 128.
unfoldable pub dns_labels : ℕ → ByteView → ℕ → Option Bool
dns_labels zero v offset = some false
dns_labels (suc n) v offset =
    if not (has v offset 1)
    then some false
    else ((u8 v offset) >>= λ len.
        let next = dns_labels n v (offset + (len + 1)) in
        if len == 0 then some (has v (offset + 1) 4) else if ltb 63 len then some false else next)

unfoldable pub looks_like_dns : ByteView → Option Bool
looks_like_dns v = if not (has v 0 12) then some false else do
  flags ← u16 v 2
  questions ← u16 v 4
  if not (questions == 1)
      then some false
      else if ltb 5 (flags / 2048 % 16)
      then some false
      else dns_labels 128 v 12

abbrev pub found : Text → Text → AppIdResult
found application sni = record { application = application; sni = sni; exhausted = false }

abbrev pub gave_up : AppIdResult
gave_up = record { application = []; sni = []; exhausted = true }

-- `if (looks_like_dns(payload))` with the fall through to `exhausted`.
unfoldable pub dns_or_gave_up : ByteView → Option AppIdResult
dns_or_gave_up payload =
    (looks_like_dns payload) >>= λ b. some (if b then found dns [] else gave_up)

-- The part of classify behind "--- TCP ---".
unfoldable pub classify_tcp : ByteView → ℕ → Option AppIdResult
classify_tcp payload dst_port = do
  is_http ← looks_like_http payload
  if is_http then some (found web_browsing []) else (do
    is_ssh ← starts_with payload (codes "SSH-")
    if is_ssh then some (found ssh []) else (do
      first ← u8 payload 0
      if first == 0x16
          then ((extract_sni payload []) >>= λ r. some (found ssl r.1))
          else if dst_port == 53
          then dns_or_gave_up payload
          else some gave_up))

unfoldable pub classify : ByteView → ℕ → ℕ → Option AppIdResult
classify payload proto dst_port =
    if empty payload
    then some no_result
    else if proto == 17
    then (if dst_port == 53 || dst_port == 5353 then dns_or_gave_up payload else some gave_up)
    else classify_tcp payload dst_port
