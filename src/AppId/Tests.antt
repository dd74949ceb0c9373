-- ===== src/AppId/Tests.antt =====
-- Concrete payloads for src/appid.cpp.
use nano_ngfw.Prelude.{◌≡◌, inl, refl, false, [], ◌∷◌, ◌++◌, some, codes, Ensures, arith}
use nano_ngfw.ByteView.{ByteView, of_bytes, has, u8, u16}
use nano_ngfw.AppId.{
  starts_with, starts_with_any, match_from, classify, classify_tcp, looks_like_http, found,
  web_browsing, ssl,
}
use nano_ngfw.AppId.Sni.{
  copy_name, extract_sni, client_hello, hello_body, skip_vector8, skip_vector16, extensions_block,
  extensions, name_list,
}
use nano_ngfw.AppId.Sni.Walk.{IsClean, extract_sni-IsClean}
use nano_ngfw.AppId.Total.{IsResult, classify-IsResult}
use nano_ngfw.AppId.Content.{copy_name_cut}

abbrev request : ByteView
request = of_bytes (codes "GET / HTTP/1.1")

abbrev banner : ByteView
banner = of_bytes (codes "SSH-2.0-x")

-- A ClientHello whose server name is "ab", a line feed and "c".
abbrev hello : ByteView
hello = of_bytes (
    0x16 ∷ 3 ∷ 1 ∷ 0 ∷ 60 ∷ 1 ∷ 0 ∷ 0 ∷ 56 ∷ 3 ∷ 3 ∷ []
    ++ codes "0123456789abcdef0123456789abcdef"
    ++ 0 ∷ 0 ∷ 2 ∷ 0x13 ∷ 1 ∷ 1 ∷ 0 ∷ 0 ∷ 13 ∷ 0 ∷ 0 ∷ 0 ∷ 9 ∷ 0 ∷ 7 ∷ 0 ∷ 0 ∷ 4 ∷ 0x61 ∷ 0x62
      ∷ 0x0a ∷ 0x63 ∷ [])

request_classified : classify request 6 80 ≡ some (found web_browsing [])
unfolding classify classify_tcp looks_like_http starts_with_any starts_with has match_from u8
request_classified = refl

-- The name is refused, and its head is published all the same.
head_published : classify hello 6 443 ≡ some (found ssl (codes "ab"))
unfolding classify classify_tcp looks_like_http starts_with_any starts_with has match_from u8 u16
    extract_sni client_hello hello_body skip_vector8 skip_vector16 extensions_block extensions
    name_list copy_name
head_published = refl

extract_sni-IsClean_example : Ensures IsClean (extract_sni hello [])
extract_sni-IsClean_example = extract_sni-IsClean hello [] tt

classify-IsResult_example : Ensures (IsResult hello) (classify hello 6 443)
classify-IsResult_example = classify-IsResult hello 6 443

copy_name_cut_example : copy_name 4 hello 61 [] ≡ some (false, codes "ab")
copy_name_cut_example =
    copy_name_cut 2 4 hello 61 (omega arith) (omega arith)
      (omega arith, omega arith, (omega arith, omega arith, tt)) (inl (omega arith))
