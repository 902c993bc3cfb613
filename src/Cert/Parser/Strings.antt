-- ===== src/Cert/Parser/Strings.antt =====
-- The strings and numbers that the writer writes, read back.
use license_service.Prelude.{
  ℕ, ◌<◌, ◌≡◌, refl, Bool, true, false, Text, [], ◌∷◌, ◌++◌, some, arith, Bool-cases, inl, inr,
  ◌==◌, append_assoc, append-nil, ltb, ◌/◌, ◌%◌, hex_digit, all, not,
}
use license_service.Cert.Payload.{Formats, is_number_byte}
use license_service.Cert.Canonical.{escape_byte}
use license_service.Cert.Canonical.Shape.{escaped, quoted}
use license_service.Cert.Parser.{
  done, skip_ws, is_ws, short_escape, number_bytes, string_loop, parse_string,
}

-- The three shapes of a written byte.
data Written (c : ℕ) : Type 0 where
  short :
      (b : ℕ)
      → (b == b'u') ≡ false
      → short_escape b ≡ some c
      → escape_byte c ≡ b'\\' ∷ b ∷ []
      → Written c
  long :
      c < 0x20
      → escape_byte c ≡ b'\\' ∷ b'u' ∷ b'0' ∷ b'0' ∷ hex_digit (c / 16) ∷ hex_digit (c % 16) ∷ []
      → Written c
  itself : (c == b'"') ≡ false → (c == b'\\') ≡ false → escape_byte c ≡ c ∷ [] → Written c

Written-at : (c : ℕ) → Written c
unfolding escape_byte short_escape
Written-at c = elim (Bool-cases (c == b'"')) [
  | inl e ↦ short b'"' refl (ground arith) (rw (e) refl)
  | inr e0 ↦ elim (Bool-cases (c == b'\\')) [
    | inl e ↦ short b'\\' refl (ground arith) (rw (e0, e) refl)
    | inr e1 ↦ elim (Bool-cases (c == 8)) [
      | inl e ↦ short b'b' refl (ground arith) (rw (e0, e1, e) refl)
      | inr e2 ↦ elim (Bool-cases (c == 12)) [
        | inl e ↦ short b'f' refl (ground arith) (rw (e0, e1, e2, e) refl)
        | inr e3 ↦ elim (Bool-cases (c == 10)) [
          | inl e ↦ short b'n' refl (ground arith) (rw (e0, e1, e2, e3, e) refl)
          | inr e4 ↦ elim (Bool-cases (c == 13)) [
            | inl e ↦ short b'r' refl (ground arith) (rw (e0, e1, e2, e3, e4, e) refl)
            | inr e5 ↦ elim (Bool-cases (c == 9)) [
              | inl e ↦ short b't' refl (ground arith) (rw (e0, e1, e2, e3, e4, e5, e) refl)
              | inr e6 ↦ elim (Bool-cases (ltb c 0x20)) [
                | inl g ↦ long (ground arith) (rw (e0, e1, e2, e3, e4, e5, e6, g) refl)
                | inr g ↦ itself e0 e1 (rw (e0, e1, e2, e3, e4, e5, e6, g) refl)
              ]
            ]
          ]
        ]
      ]
    ]
  ]
]

module _ (fmt : Formats) where
  string_loop-escape_byte :
      (c : ℕ) (t sb : Text)
      → string_loop fmt (escape_byte c ++ t) sb ≡ string_loop fmt t (sb ++ c ∷ [])
  unfolding string_loop short_escape
  string_loop-escape_byte c t sb = elim (Written-at c) [
    | short b n e w ↦ rw w (rw (e, string_loop) refl)
    | long h w ↦
        rw w (
          rw (fmt.scan-hex_digits c h, string_loop)
            (rw (fmt.write_rune-ascii c (omega arith)) refl))
    | itself e f w ↦ rw w (rw (e, f, string_loop) refl)
  ]

  string_loop-escaped :
      (s rest sb : Text) → string_loop fmt (escaped s ++ b'"' ∷ rest) sb ≡ done (sb ++ s, rest)
  unfolding string_loop
  string_loop-escaped [] rest sb = rw append-nil refl
  string_loop-escaped (c ∷ s) rest sb =
      rw
        (
          append_assoc,
          string_loop-escape_byte c,
          string_loop-escaped s rest (sb ++ c ∷ []),
          append_assoc,
        )
        refl

  -- A written string is read back, whatever stands behind it.
  pub parse_string-quoted : (s rest : Text) → parse_string fmt (quoted s ++ rest) ≡ done (s, rest)
  unfolding parse_string skip_ws is_ws
  parse_string-quoted s rest = rw append_assoc (string_loop-escaped s rest [])

-- A text that no number goes on with.
abbrev pub ends_number : Text → Bool
ends_number [] = true
ends_number (c ∷ _) = not (is_number_byte c)

pub number_bytes-append :
    (s rest : Text)
    → all is_number_byte s ≡ true
    → ends_number rest ≡ true
    → number_bytes (s ++ rest) ≡ (s, rest)
unfolding number_bytes
number_bytes-append [] [] h k = refl
number_bytes-append [] (c ∷ rest) h k = ground (arith, k)
number_bytes-append (c ∷ s) rest h k = ground (arith, h, number_bytes-append s rest)
