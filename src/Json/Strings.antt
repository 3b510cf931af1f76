-- ===== src/Json/Strings.antt =====
-- src/util/json.cpp: parse_string() reads back what escape_to() writes.
use xrune.Base.{
  ℕ, ◌<◌, ◌%◌, ◌^◌, ◌≡◌, ◌∙◌, refl, ap, Bool, true, false, some, none, Option, [], ◌∷◌, ◌++◌, ◌==◌,
  ltb, if◌then◌else◌, length, arith, Bool-cases, inl, inr, append_assoc, All, ==_iff,
}
use xrune.Json.{Text}
use xrune.Json.Numbers.{CNumbers, NumberLaws}
use xrune.Json.Writer.{quote, backslash, escape_byte, escape_bytes, escape}
use xrune.Json.Reader.{
  Result, ok, failed, parse_unicode, unescape, encode, prefixed, at, expect, parse_chars,
  parse_string,
}

-- A text is a list of bytes.
abbrev pub IsBytes : Text → Type 0
IsBytes = All (λ b. b < 256)

module _ {D : Type 0} (c : CNumbers D) {nz : D → Bool} (laws : NumberLaws c nz) where
  -- Reading the escape \u of a byte of four digits.
  chars_unicode :
      (digits ts : Text) (b : ℕ)
      → length digits ≡ 4
      → c.strtoul16 digits ≡ b
      → b < 128
      → parse_chars c (backslash ∷ b'u' ∷ (digits ++ ts)) ≡ prefixed (b ∷ []) (parse_chars c ts)
  unfolding parse_chars unescape encode
  chars_unicode [] ts b l e h = absurd (omega arith)
  chars_unicode (x ∷ []) ts b l e h = absurd (omega arith)
  chars_unicode (x ∷ y ∷ []) ts b l e h = absurd (omega arith)
  chars_unicode (x ∷ y ∷ z ∷ []) ts b l e h = absurd (omega arith)
  chars_unicode (x ∷ y ∷ z ∷ w ∷ []) ts b l e h =
      let small : b % 2 ^ 32 ≡ b = omega arith in rw (e, small) (ground arith)
  chars_unicode (x ∷ y ∷ z ∷ w ∷ v ∷ ds) ts b l e h = absurd (omega arith)

  chars_plain :
      (b : ℕ) (ts : Text)
      → (b == b'"') ≡ false
      → (b == b'\\') ≡ false
      → parse_chars c (b ∷ ts) ≡ prefixed (b ∷ []) (parse_chars c ts)
  unfolding parse_chars
  chars_plain b ts h k = rw (h, k) refl

  -- What parse_escape() does once it has looked at the letter.
  abbrev letter : Option ℕ → ℕ → Text → Result (Text × Text)
  letter o e ts = elim o [
    | some b ↦ prefixed (b ∷ []) (parse_chars c ts)
    | none ↦ if e == b'u' then parse_unicode c ts else failed "invalid escape" ts
  ]

  -- The escape of one letter, where the byte is the one that it stands for.
  chars_letter :
      (b x e : ℕ) (ts : Text)
      → (b == x) ≡ true
      → unescape e ≡ some x
      → parse_chars c (backslash ∷ e ∷ ts) ≡ prefixed (b ∷ []) (parse_chars c ts)
  unfolding parse_chars
  chars_letter b x e ts same h = rw ((==_iff b x).0 same) (ap (λ (o : Option ℕ). letter o e ts) h)

  chars-escape_byte :
      (b : ℕ) (ts : Text)
      → b < 256
      → parse_chars c (escape_byte c b ++ ts) ≡ prefixed (b ∷ []) (parse_chars c ts)
  unfolding escape_byte unescape
  chars-escape_byte b ts h = elim (Bool-cases (b == b'"')) [
    | inl is0 ↦ rw (is0) (chars_letter b b'"' quote ts is0 refl)
    | inr not0 ↦ elim (Bool-cases (b == b'\\')) [
      | inl is1 ↦ rw (not0, is1) (chars_letter b b'\\' backslash ts is1 refl)
      | inr not1 ↦ elim (Bool-cases (b == b'\n')) [
        | inl is2 ↦ rw (not0, not1, is2) (chars_letter b b'\n' b'n' ts is2 refl)
        | inr not2 ↦ elim (Bool-cases (b == b'\r')) [
          | inl is3 ↦ rw (not0, not1, not2, is3) (chars_letter b b'\r' b'r' ts is3 refl)
          | inr not3 ↦ elim (Bool-cases (b == b'\t')) [
            | inl is4 ↦ rw (not0, not1, not2, not3, is4) (chars_letter b b'\t' b't' ts is4 refl)
            | inr not4 ↦ elim (Bool-cases (ltb b 0x20)) [
              | inl low ↦
                  rw (not0, not1, not2, not3, not4, low)
                    (chars_unicode (c.print_04x b) ts b (laws.hex_length b h) (laws.hex_reads b h)
                      (ground arith))
              | inr high ↦ rw (not0, not1, not2, not3, not4, high) (chars_plain b ts not0 not1)
            ]
          ]
        ]
      ]
    ]
  ]

  pub chars-escape_bytes :
      (s rest : Text)
      → IsBytes s
      → parse_chars c (escape_bytes c s ++ (quote ∷ rest)) ≡ ok (s, rest)
  unfolding escape_bytes
  chars-escape_bytes [] rest h = unfold parse_chars in refl
  chars-escape_bytes (b ∷ bs) rest h = rw append_assoc (
      chars-escape_byte b (escape_bytes c bs ++ (quote ∷ rest)) h.0
      ∙ ap (prefixed (b ∷ [])) (chars-escape_bytes bs rest h.1))

  -- A string that dump() writes is read back whole, whatever follows.
  pub parse_string-escape :
      (s rest : Text) → IsBytes s → parse_string c (escape c s ++ rest) ≡ ok (s, rest)
  unfolding escape parse_string expect at
  parse_string-escape s rest h = rw append_assoc (chars-escape_bytes s rest h)
