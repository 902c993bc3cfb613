-- ===== src/Cert/Canonical.antt =====
-- The writer of internal/service/cert/canonical.go. A `buf` is the bytes written so far.
pub mod Shape
pub mod Order
use license_service.Prelude.{
  ℕ, ◌/◌, ◌%◌, ◌&&◌, Bool, true, false, Text, codes, hex_digit, str_eq, List, [], ◌∷◌, ◌++◌, map,
  Option, none, some, if◌then◌else◌, ltb, ◌==◌, leb, ◌||◌,
}
use license_service.Cert.Payload.{Entitlement, Payload, Formats, format_time}

abbrev pub Write : Type 0
Write = Text → Text

-- One write after another.
infixl 20 ◌▸◌
abbrev pub ◌▸◌ : Write → Write → Write
◌▸◌ f g w = g (f w)

-- What the loop of `str` appends for one byte.
unfoldable pub escape_byte : ℕ → Text
escape_byte c =
    if c == b'"'
    then b'\\' ∷ b'"' ∷ []
    else if c == b'\\'
    then b'\\' ∷ b'\\' ∷ []
    else if c == 8
    then b'\\' ∷ b'b' ∷ []
    else if c == 12
    then b'\\' ∷ b'f' ∷ []
    else if c == 10
    then b'\\' ∷ b'n' ∷ []
    else if c == 13
    then b'\\' ∷ b'r' ∷ []
    else if c == 9
    then b'\\' ∷ b't' ∷ []
    else if ltb c 0x20
    then b'\\' ∷ b'u' ∷ b'0' ∷ b'0' ∷ hex_digit (c / 16) ∷ hex_digit (c % 16) ∷ []
    else c ∷ []

unfoldable pub str_loop : Text → Write
str_loop [] w = w
str_loop (c ∷ s) w = str_loop s (w ++ escape_byte c)

unfoldable pub str : Text → Write
str s w = str_loop s (w ++ b'"' ∷ []) ++ b'"' ∷ []

unfoldable pub raw : Text → Write
raw s w = w ++ s

-- `sort.Strings`, bytewise.
unfoldable pub str_le : Text → Text → Bool
str_le [] ys = true
str_le (x ∷ xs) [] = false
str_le (x ∷ xs) (y ∷ ys) = ltb x y || (x == y && str_le xs ys)

unfoldable pub insert_sorted : Text → List Text → List Text
insert_sorted x [] = x ∷ []
insert_sorted x (y ∷ ys) =
    let rest = insert_sorted x ys in if str_le x y then x ∷ y ∷ ys else y ∷ rest

unfoldable pub sort_strings : List Text → List Text
sort_strings [] = []
sort_strings (x ∷ xs) = insert_sorted x (sort_strings xs)

-- `m[key]` of a Go map; the zero value where the key is missing.
unfoldable pub entitlement_at : Text → List (Text × Entitlement) → Entitlement
entitlement_at m [] = record { kind = []; expires_at = none }
entitlement_at m ((k, e) ∷ ents) = if str_eq k m then e else entitlement_at m ents

module _ (fmt : Formats) where
  unfoldable pub write_expiry : Option ℕ → Write
  write_expiry none = raw (codes "null")
  write_expiry (some t) = str (format_time fmt t)

  unfoldable pub canonical_entitlement : Entitlement → Write
  canonical_entitlement e =
      raw (codes "{")
      ▸ str (codes "expiresAt")
      ▸ raw (codes ":")
      ▸ write_expiry e.expires_at
      ▸ raw (codes ",")
      ▸ str (codes "kind")
      ▸ raw (codes ":")
      ▸ str e.kind
      ▸ raw (codes "}")

  -- The loop over the sorted module names; the flag is `i > 0`.
  unfoldable pub write_entitlements : List (Text × Entitlement) → Bool → List Text → Write
  write_entitlements ents later [] w = w
  write_entitlements ents later (m ∷ ms) w = write_entitlements ents true ms (
      (str m ▸ raw (codes ":") ▸ canonical_entitlement (entitlement_at m ents))
        (if later then raw (codes ",") w else w))

  unfoldable pub write_license_id : Option Text → Write
  write_license_id none = raw (codes "null")
  write_license_id (some id) = str id

  unfoldable pub marshal_canonical : Payload → Text
  marshal_canonical p =
      (raw (codes "{")
          ▸ str (codes "certId")
          ▸ raw (codes ":")
          ▸ str p.cert_id
          ▸ raw (codes ",")
          ▸ str (codes "deviceToken")
          ▸ raw (codes ":")
          ▸ str p.device_token
          ▸ raw (codes ",")
          ▸ str (codes "entitlements")
          ▸ raw (codes ":{")
          ▸ write_entitlements p.entitlements false (sort_strings (map (λ m. m.0) p.entitlements))
          ▸ raw (codes "}")
          ▸ raw (codes ",")
          ▸ str (codes "fingerprintId")
          ▸ raw (codes ":")
          ▸ str p.fingerprint_id
          ▸ raw (codes ",")
          ▸ str (codes "issuedAt")
          ▸ raw (codes ":")
          ▸ str (format_time fmt p.issued_at)
          ▸ raw (codes ",")
          ▸ str (codes "licenseId")
          ▸ raw (codes ":")
          ▸ write_license_id p.license_id
          ▸ raw (codes ",")
          ▸ str (codes "signingKeyId")
          ▸ raw (codes ":")
          ▸ str p.signing_key_id
          ▸ raw (codes ",")
          ▸ str (codes "v")
          ▸ raw (codes ":")
          ▸ raw (fmt.print_int p.v)
          ▸ raw (codes "}"))
        []
