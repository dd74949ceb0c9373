-- ===== src/AppId/Sni.antt =====
-- extract_sni of src/appid.cpp: the walk through a TLS ClientHello to the host name.
-- The out-parameter `sni` is taken and returned beside the answer. `none` is an aborted NANO_ASSERT
-- or a loop that used up its fuel. The offsets are sums of a few lengths read off the wire with an
-- offset inside the view, so they do not reach SIZE_MAX and are left unbounded.
pub mod Walk
use nano_ngfw.Prelude.{
  ℕ, zero, suc, ◌+◌, ◌-◌, Bool, true, false, not, ◌||◌, List, [], ◌∷◌, ◌++◌, Option, none, some,
  ltb, leb, ◌==◌, if◌then◌else◌, ◌>>=◌, Text, is_empty,
}
use nano_ngfw.ByteView.{ByteView, has, u8, u16}

abbrev pub Answer : Type 0
Answer = Bool × Text

-- The loop that copies the host name, `n` bytes from `p` on.
unfoldable pub copy_name : ℕ → ByteView → ℕ → Text → Option Answer
copy_name zero v p sni = some (not (is_empty sni), sni)
copy_name (suc n) v p sni = (u8 v p) >>= λ c.
    let rest = copy_name n v (p + 1) (sni ++ c ∷ []) in
    if ltb c 0x20 || ltb 0x7e c then some (false, sni) else rest

-- The loop over the entries of the server name list.
unfoldable pub name_list : ℕ → ByteView → ℕ → ℕ → Text → Option Answer
name_list zero v p list_end sni = none
name_list (suc fuel) v p list_end sni = if ltb list_end (p + 3) then some (false, sni) else do
  name_type ← u8 v p
  name_len ← u16 v (p + 1)
  let next = name_list fuel v (p + 3 + name_len) list_end sni
  if ltb list_end (p + 3 + name_len)
      then some (false, sni)
      else if name_type == 0
      then copy_name name_len v (p + 3) []
      else next

-- The loop over the extensions.
unfoldable pub extensions : ℕ → ByteView → ℕ → ℕ → Text → Option Answer
extensions zero v off extensions_end sni = none
extensions (suc fuel) v off extensions_end sni =
    if ltb extensions_end (off + 4) then some (false, sni) else do
      ext_type ← u16 v off
      ext_len ← u16 v (off + 2)
      let next = extensions fuel v (off + 4 + ext_len) extensions_end sni
      if ltb extensions_end (off + 4 + ext_len)
          then some (false, sni)
          else if ext_type == 0
          then (if ltb ext_len 5
              then some (false, sni)
              else name_list (ext_len + 1) v (off + 4 + 2) (off + 4 + ext_len) sni)
          else next

-- Steps over a vector whose length stands in the byte at `off`; the inner `none` is `return false`.
unfoldable pub skip_vector8 : ByteView → ℕ → ℕ → Option (Option ℕ)
skip_vector8 v limit off =
    if ltb limit (off + 1) then some none else (u8 v off) >>= λ n. some (some (off + (1 + n)))

-- The same with a length of two bytes.
unfoldable pub skip_vector16 : ByteView → ℕ → ℕ → Option (Option ℕ)
skip_vector16 v limit off =
    if ltb limit (off + 2) then some none else (u16 v off) >>= λ n. some (some (off + (2 + n)))

-- The extensions block, whose length stands at `off`.
unfoldable pub extensions_block : ByteView → ℕ → ℕ → Text → Option Answer
extensions_block v limit off sni =
    if ltb limit (off + 2)
    then some (false, sni)
    else (u16 v off) >>= λ n.
        extensions (limit + 1) v (off + 2) (if ltb (off + 2 + n) limit then off + 2 + n else limit)
          sni

-- A step that returns false unless it gives an offset.
abbrev pub proceed : Option (Option ℕ) → Text → (ℕ → Option Answer) → Option Answer
proceed none sni next = none
proceed (some none) sni next = some (false, sni)
proceed (some (some off)) sni next = next off

-- Session id, cipher suites, compression methods, then the extensions.
unfoldable pub hello_body : ByteView → ℕ → ℕ → Text → Option Answer
hello_body v limit off sni = proceed (skip_vector8 v limit off) sni λ off.
    proceed (skip_vector16 v limit off) sni
      λ off. proceed (skip_vector8 v limit off) sni λ off. extensions_block v limit off sni

-- The handshake header behind the record header, and the fixed part of the ClientHello.
unfoldable pub client_hello : ByteView → ℕ → Text → Option Answer
client_hello payload limit sni =
    if ltb limit (5 + 4)
    then some (false, sni)
    else (u8 payload 5) >>= λ handshake.
        (if not (handshake == 0x01)
          then some (false, sni)
          else if ltb limit (9 + 34)
          then some (false, sni)
          else hello_body payload limit 43 sni)

unfoldable pub extract_sni : ByteView → Text → Option Answer
extract_sni payload sni =
    if not (has payload 0 5)
    then some (false, sni)
    else (u8 payload 0) >>= λ content_type.
        (if not (content_type == 0x16)
          then some (false, sni)
          else (u16 payload 3) >>= λ record_len.
              client_hello payload
                (5 + (if ltb record_len (payload.len - 5) then record_len else payload.len - 5))
                sni)
