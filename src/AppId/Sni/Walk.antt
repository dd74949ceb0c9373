-- ===== src/AppId/Sni/Walk.antt =====
-- The ClientHello walk of src/appid.cpp reads only inside the payload, ends, and never takes a byte
-- that is not printable into the host name.
use nano_ngfw.Prelude.{
  ℕ, zero, suc, ◌+◌, ◌-◌, ◌≤◌, ◌<◌, ◌≡◌, ◌≢◌, ◌⊎◌, inl, inr, refl, false, ◌||◌, [], ◌∷◌, ◌++◌,
  Option, some, arith, ltb, ◌==◌, if◌then◌else◌, Text, is_empty, Ensures, Bool-cases, not,
}
use nano_ngfw.ByteView.{ByteView, byte, word, has}
use nano_ngfw.ByteView.Access.{u8_eq, u16_eq, le_of_has}
use nano_ngfw.AppId.Sni.{
  Answer, copy_name, name_list, extensions, skip_vector8, skip_vector16, extensions_block, proceed,
  hello_body, client_hello, extract_sni,
}

abbrev pub Printable : Text → Type 0
Printable [] = Unit {0}
Printable (c ∷ cs) = (0x20 ≤ c) × (c ≤ 0x7e) × Printable cs

-- The name holds printable ASCII only, and is not empty if the answer is yes.
abbrev pub IsClean : Answer → Type 0
IsClean r = Printable r.1 × ((r.0 ≡ false) ⊎ (r.1 ≢ []))

Printable-append : (s : Text) (c : ℕ) → Printable s → 0x20 ≤ c → c ≤ 0x7e → Printable (s ++ c ∷ [])
Printable-append [] c p lo hi = (lo, hi, tt)
Printable-append (x ∷ s) c (a, b, p) lo hi = (a, b, Printable-append s c p lo hi)

stop : (sni : Text) → Printable sni → Ensures IsClean (some (false, sni))
stop sni p = (_, refl, (p, inl refl))

nonempty : (s : Text) → (not (is_empty s) ≡ false) ⊎ (s ≢ [])
nonempty [] = inl refl
nonempty (c ∷ s) = inr (λ e. cc)

copy_name_ok :
    (n : ℕ) (v : ByteView) (p : ℕ) (sni : Text)
    → p + n ≤ v.len
    → Printable sni
    → Ensures IsClean (copy_name n v p sni)
unfolding copy_name
copy_name_ok zero v p sni h q = (_, refl, (q, nonempty sni))
copy_name_ok (suc n) v p sni h q =
    rw (u8_eq v p (omega arith)) (elim (Bool-cases (ltb (byte v p) 0x20 || ltb 0x7e (byte v p))) [
      | inl bad ↦ rw bad (stop sni q)
      | inr good ↦ rw good (
          copy_name_ok n v (p + 1) (sni ++ byte v p ∷ []) (omega arith)
            (Printable-append sni (byte v p) q (ground arith) (ground arith)))
    ])

name_list_ok :
    (fuel : ℕ) (v : ByteView) (p list_end : ℕ) (sni : Text)
    → list_end ≤ v.len
    → p ≤ list_end
    → list_end < p + fuel
    → Printable sni
    → Ensures IsClean (name_list fuel v p list_end sni)
unfolding name_list
name_list_ok zero v p list_end sni h k f q = absurd (omega arith)
name_list_ok (suc fuel) v p list_end sni h k f q = elim (Bool-cases (ltb list_end (p + 3))) [
  | inl short ↦ rw short (stop sni q)
  | inr more ↦
      let m : p + 3 ≤ list_end = ground arith in
      rw (more, u8_eq v p (omega arith), u16_eq v (p + 1) (omega arith))
        (elim (Bool-cases (ltb list_end (p + 3 + word v (p + 1)))) [
          | inl long ↦ rw long (stop sni q)
          | inr fits ↦
              let n : p + 3 + word v (p + 1) ≤ list_end = ground arith in
              rw fits (elim (Bool-cases (byte v p == 0)) [
                | inl host ↦ rw host (copy_name_ok (word v (p + 1)) v (p + 3) [] (omega arith) tt)
                | inr other ↦
                    rw other (
                      name_list_ok fuel v (p + 3 + word v (p + 1)) list_end sni h n (omega arith) q)
              ])
        ])
]

extensions_ok :
    (fuel : ℕ) (v : ByteView) (off end : ℕ) (sni : Text)
    → end ≤ v.len
    → off ≤ end
    → end < off + fuel
    → Printable sni
    → Ensures IsClean (extensions fuel v off end sni)
unfolding extensions
extensions_ok zero v off end sni h k f q = absurd (omega arith)
extensions_ok (suc fuel) v off end sni h k f q = elim (Bool-cases (ltb end (off + 4))) [
  | inl short ↦ rw short (stop sni q)
  | inr more ↦
      let m : off + 4 ≤ end = ground arith in
      rw (more, u16_eq v off (omega arith), u16_eq v (off + 2) (omega arith))
        (elim (Bool-cases (ltb end (off + 4 + word v (off + 2)))) [
          | inl long ↦ rw long (stop sni q)
          | inr fits ↦
              let n : off + 4 + word v (off + 2) ≤ end = ground arith in
              rw fits (elim (Bool-cases (word v off == 0)) [
                | inl server_name ↦ rw server_name (elim (Bool-cases (ltb (word v (off + 2)) 5)) [
                  | inl tiny ↦ rw tiny (stop sni q)
                  | inr room ↦ rw room (
                      name_list_ok (word v (off + 2) + 1) v (off + 4 + 2)
                        (off + 4 + word v (off + 2)) sni (omega arith) (ground arith) (omega arith)
                        q)
                ])
                | inr other ↦
                    rw other (
                      extensions_ok fuel v (off + 4 + word v (off + 2)) end sni h n (omega arith) q)
              ])
        ])
]

module _ (v : ByteView) (limit : ℕ) (inside : limit ≤ v.len) (sni : Text)
    (clean : Printable sni) where
  extensions_block_ok : (off : ℕ) → Ensures IsClean (extensions_block v limit off sni)
  unfolding extensions_block
  extensions_block_ok off = elim (Bool-cases (ltb limit (off + 2))) [
    | inl short ↦ rw short (stop sni clean)
    | inr more ↦
        let m : off + 2 ≤ limit = ground arith in
        rw (more, u16_eq v off (omega arith))
          (extensions_ok (limit + 1) v (off + 2)
            (if ltb (off + 2 + word v off) limit then off + 2 + word v off else limit) sni
            (ground arith) (ground arith) (ground arith) clean)
  ]

  proceed8 :
      (off : ℕ) (next : ℕ → Option Answer)
      → ((off : ℕ) → Ensures IsClean (next off))
      → Ensures IsClean (proceed (skip_vector8 v limit off) sni next)
  unfolding skip_vector8
  proceed8 off next ok = elim (Bool-cases (ltb limit (off + 1))) [
    | inl short ↦ rw short (stop sni clean)
    | inr more ↦ rw (more, u8_eq v off (ground arith)) (ok (off + (1 + byte v off)))
  ]

  proceed16 :
      (off : ℕ) (next : ℕ → Option Answer)
      → ((off : ℕ) → Ensures IsClean (next off))
      → Ensures IsClean (proceed (skip_vector16 v limit off) sni next)
  unfolding skip_vector16
  proceed16 off next ok = elim (Bool-cases (ltb limit (off + 2))) [
    | inl short ↦ rw short (stop sni clean)
    | inr more ↦ rw (more, u16_eq v off (ground arith)) (ok (off + (2 + word v off)))
  ]

  hello_body_ok : (off : ℕ) → Ensures IsClean (hello_body v limit off sni)
  unfolding hello_body
  hello_body_ok off = proceed8 off _ λ a. proceed16 a _ λ b. proceed8 b _ λ c. extensions_block_ok c

  client_hello_ok : Ensures IsClean (client_hello v limit sni)
  unfolding client_hello
  client_hello_ok = elim (Bool-cases (ltb limit (5 + 4))) [
    | inl short ↦ rw short (stop sni clean)
    | inr more ↦
        rw (more, u8_eq v 5 (ground arith))
          (elim (Bool-cases (byte v 5 == 0x01)) [
            | inr other ↦ rw other (stop sni clean)
            | inl hello ↦ rw hello (elim (Bool-cases (ltb limit (9 + 34))) [
              | inl cut ↦ rw cut (stop sni clean)
              | inr room ↦ rw room (hello_body_ok 43)
            ])
          ])
  ]

-- extract_sni returns on every payload without reading outside of it; it leaves a host name of
-- printable ASCII if it was given one, and it answers yes only with a name that is not empty.
pub extract_sni-IsClean :
    (v : ByteView) (sni : Text) → Printable sni → Ensures IsClean (extract_sni v sni)
unfolding extract_sni
extract_sni-IsClean v sni q = elim (Bool-cases (has v 0 5)) [
  | inr short ↦ rw short (stop sni q)
  | inl fixed ↦
      let h : 5 ≤ v.len = le_of_has v 5 fixed in
      rw (fixed, u8_eq v 0 (omega arith))
        (elim (Bool-cases (byte v 0 == 0x16)) [
          | inr other ↦ rw other (stop sni q)
          | inl tls ↦
              rw (tls, u16_eq v 3 (omega arith))
                (client_hello_ok v
                  (5 + (if ltb (word v 3) (v.len - 5) then word v 3 else v.len - 5)) (ground arith)
                  sni q)
        ])
]
