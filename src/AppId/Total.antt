-- ===== src/AppId/Total.antt =====
-- classify of src/appid.cpp reads only inside the payload and returns.
use nano_ngfw.Prelude.{
  ℕ, zero, suc, ◌+◌, ◌/◌, ◌%◌, ◌≤◌, ◌<◌, ◌≡◌, ◌⊎◌, inl, inr, refl, Bool, true, false, ◌||◌, List,
  [], ◌∷◌, some, arith, ltb, ◌==◌, length, Text, codes, Ensures, Bool-cases, ◌>>=◌, if◌then◌else◌,
}
use nano_ngfw.ByteView.{ByteView, byte, word, has, empty}
use nano_ngfw.ByteView.Access.{u8_eq, u16_eq, le_of_has, has_iff, lt_of_not_has}
use nano_ngfw.AppId.{
  AppIdResult, match_from, starts_with, starts_with_any, looks_like_http, dns_labels,
  looks_like_dns, dns_or_gave_up, classify_tcp, classify, web_browsing, ssl, dns, ssh, methods,
  found, gave_up,
}
use nano_ngfw.AppId.Sni.{extract_sni}
use nano_ngfw.AppId.Sni.Walk.{Printable, extract_sni-IsClean}

-- The bytes from `i` on spell the literal.
abbrev pub Spells : ByteView → ℕ → Text → Type 0
Spells v i [] = Unit {0}
Spells v i (c ∷ cs) = (byte v i ≡ c) × Spells v (i + 1) cs

-- A test whose answer is yes exactly under the condition.
abbrev pub Tests : Type 0 → Bool → Type 0
Tests P b = (b ≡ true) × P ⊎ (b ≡ false) × (¬ P)

match_from_ok :
    (v : ByteView) (i : ℕ) (cs : Text)
    → i + length cs ≤ v.len
    → Ensures (Tests (Spells v i cs)) (match_from v i cs)
unfolding match_from
match_from_ok v i [] h = (true, refl, inl (refl, tt))
match_from_ok v i (c ∷ cs) h = rw (u8_eq v i (omega arith)) (elim (Bool-cases (byte v i == c)) [
  | inr other ↦ rw other (false, refl, inr (refl, λ q. ground arith))
  | inl same ↦
      let (b, e, t) = match_from_ok v (i + 1) cs (omega arith) in
      rw same (
        b,
        e,
        elim t [ inl (y, s) ↦ inl (y, (ground arith, s)) | inr (n, s) ↦ inr (n, λ q. s q.1) ],
      )
])

-- starts_with returns on every payload without reading outside of it, and tells exactly whether the
-- payload is long enough and begins with the literal.
pub starts_with-Tests :
    (v : ByteView) (literal : Text)
    → Ensures (Tests ((length literal ≤ v.len) × Spells v 0 literal)) (starts_with v literal)
unfolding starts_with
starts_with-Tests v literal = elim (Bool-cases (has v 0 (length literal))) [
  | inr short ↦
      rw short
        (false, refl, inr (refl, λ q. omega (arith, lt_of_not_has v 0 (length literal) short, q.0)))
  | inl fits ↦
      let h = le_of_has v (length literal) fits in
      let (b, e, t) = match_from_ok v 0 literal (omega arith) in
      rw fits (b, e, elim t [ inl (y, s) ↦ inl (y, (h, s)) | inr (n, s) ↦ inr (n, λ q. s q.1) ])
]

starts_with_any_total :
    (v : ByteView) (ms : List Text) → Ensures (λ b. Unit {0}) (starts_with_any v ms)
unfolding starts_with_any
starts_with_any_total v [] = (false, refl, tt)
starts_with_any_total v (m ∷ ms) =
    let (b, e, t) = starts_with-Tests v m in
    rw e (elim (Bool-cases b) [
      | inl hit ↦ rw hit (true, refl, tt)
      | inr miss ↦ rw miss (starts_with_any_total v ms)
    ])

dns_labels_total : (n : ℕ) (v : ByteView) (off : ℕ) → Ensures (λ b. Unit {0}) (dns_labels n v off)
unfolding dns_labels
dns_labels_total zero v off = (false, refl, tt)
dns_labels_total (suc n) v off = elim (Bool-cases (has v off 1)) [
  | inr short ↦ rw short (false, refl, tt)
  | inl fits ↦
      rw (fits, u8_eq v off ((has_iff v off 1).0 fits))
        (elim (Bool-cases (byte v off == 0)) [
          | inl last ↦ rw last (_, refl, tt)
          | inr more ↦ rw more (elim (Bool-cases (ltb 63 (byte v off))) [
            | inl junk ↦ rw junk (false, refl, tt)
            | inr label ↦ rw label (dns_labels_total n v (off + (byte v off + 1)))
          ])
        ])
]

looks_like_dns_total : (v : ByteView) → Ensures (λ b. Unit {0}) (looks_like_dns v)
unfolding looks_like_dns
looks_like_dns_total v = elim (Bool-cases (has v 0 12)) [
  | inr short ↦ rw short (false, refl, tt)
  | inl fits ↦
      let h = le_of_has v 12 fits in
      rw (fits, u16_eq v 2 (omega arith), u16_eq v 4 (omega arith))
        (elim (Bool-cases (word v 4 == 1)) [
          | inr other ↦ rw other (false, refl, tt)
          | inl one ↦ rw one (elim (Bool-cases (ltb 5 (word v 2 / 2048 % 16))) [
            | inl bad ↦ rw bad (false, refl, tt)
            | inr good ↦ rw good (dns_labels_total 128 v 12)
          ])
        ])
]

-- A result of classify: a printable server name, and that only beside `ssl`; one of the four
-- applications, or none, and then with the word whether more bytes may help.
abbrev pub IsResult : ByteView → AppIdResult → Type 0
IsResult v r =
    Printable r.sni
    × ((r.application ≡ ssl) ⊎ (r.sni ≡ []))
    × ((r.application ≡ []) × ((r.exhausted ≡ true) ⊎ (v.len ≡ 0))
        ⊎ ((r.application ≡ web_browsing)
            ⊎ (r.application ≡ ssl)
            ⊎ (r.application ≡ dns)
            ⊎ (r.application ≡ ssh))
          × (r.exhausted ≡ false))

module _ (v : ByteView) where
  undecided : Ensures (IsResult v) (some gave_up)
  undecided = (_, refl, (tt, inr refl, inl (refl, inl refl)))

  dns_or_gave_up_ok : Ensures (IsResult v) (dns_or_gave_up v)
  unfolding dns_or_gave_up
  dns_or_gave_up_ok =
      let (b, e, t) = looks_like_dns_total v in
      rw e (elim (Bool-cases b) [
        | inl hit ↦ rw hit (_, refl, (tt, inr refl, inr (inr (inr (inl refl)), refl)))
        | inr miss ↦ rw miss undecided
      ])

  ssl_ok : Ensures (IsResult v) (extract_sni v [] >>= λ r. some (found ssl r.1))
  ssl_ok =
      let (r, e, c) = extract_sni-IsClean v [] tt in
      rw e (_, refl, (c.0, inl refl, inr (inr (inl refl), refl)))

  by_port :
      (dst_port : ℕ)
      → Ensures (IsResult v) (if dst_port == 53 then dns_or_gave_up v else some gave_up)
  by_port dst_port = elim (Bool-cases (dst_port == 53)) [
    | inl dns_port ↦ rw dns_port dns_or_gave_up_ok
    | inr other ↦ rw other undecided
  ]

  classify_tcp_ok : (dst_port : ℕ) → 0 < v.len → Ensures (IsResult v) (classify_tcp v dst_port)
  unfolding classify_tcp looks_like_http
  classify_tcp_ok dst_port h =
      let (http, e, _) = starts_with_any_total v methods in
      let (ssh', e', _) = starts_with-Tests v (codes "SSH-") in
      rw e (elim (Bool-cases http) [
        | inl hit ↦ rw hit (_, refl, (tt, inr refl, inr (inl refl, refl)))
        | inr miss ↦
            rw (miss, e')
              (elim (Bool-cases ssh') [
                | inl hit' ↦ rw hit' (_, refl, (tt, inr refl, inr (inr (inr (inr refl)), refl)))
                | inr miss' ↦
                    rw (miss', u8_eq v 0 (omega arith))
                      (elim (Bool-cases (byte v 0 == 0x16)) [
                        | inl tls ↦ rw tls ssl_ok
                        | inr other ↦ rw other (by_port dst_port)
                      ])
              ])
      ])

-- classify returns on every payload without reading outside of it. It names one of its four
-- applications and is then not exhausted, or none and is then exhausted unless the payload is empty;
-- the server name is printable ASCII, and is empty unless the application is ssl.
pub classify-IsResult :
    (v : ByteView) (proto dst_port : ℕ) → Ensures (IsResult v) (classify v proto dst_port)
unfolding classify
classify-IsResult v proto dst_port = elim (Bool-cases (empty v)) [
  | inl none' ↦ rw none' (_, refl, (tt, inr refl, inl (refl, inr (ground arith))))
  | inr more ↦ rw more (elim (Bool-cases (proto == 17)) [
    | inr tcp ↦ rw tcp (classify_tcp_ok v dst_port (ground arith))
    | inl udp ↦ rw udp (elim (Bool-cases (dst_port == 53 || dst_port == 5353)) [
      | inl dns_port ↦ rw dns_port (dns_or_gave_up_ok v)
      | inr other ↦ rw other (undecided v)
    ])
  ])
]
