-- ===== src/Cert/Payload.antt =====
-- internal/service/cert/cert.go: the payload, and what the package takes from outside: the texts of
-- times and numbers (packages time and fmt), Ed25519 and base64.
use license_service.Prelude.{
  ℕ, ◌*◌, ◌-◌, ◌/◌, ◌%◌, ◌^◌, ◌<◌, ◌≡◌, Bool, true, ◌||◌, Text, codes, hex_digit, List, [], ◌∷◌,
  Option, some, ℤ, pos, pos_part, neg_part, all, ◌==◌, leb, ◌&&◌, length,
}
use license_service.Store.Models.{Time}

pub record Entitlement : Type 0 where
  -- "perpetual", "subscription" or "trial".
  pub kind : Text
  pub expires_at : Option Time

pub record Payload : Type 0 where
  pub v : ℤ
  pub cert_id : Text
  -- `none` in a keyless trial cert.
  pub license_id : Option Text
  pub device_token : Text
  pub fingerprint_id : Text
  pub issued_at : Time
  pub signing_key_id : Text
  -- The Go map, in some order of its keys.
  pub entitlements : List (Text × Entitlement)

abbrev pub kind_perpetual : Text
kind_perpetual = codes "perpetual"

abbrev pub kind_subscription : Text
kind_subscription = codes "subscription"

abbrev pub kind_trial : Text
kind_trial = codes "trial"

abbrev pub nanoseconds : ℕ
nanoseconds = 1_000_000_000

-- 10000-01-01T00:00:00Z, in nanoseconds since Go's zero time: RFC 3339 writes the years below.
abbrev pub end_of_years : ℕ
end_of_years = 315_537_897_600 * nanoseconds

-- A byte that the number case of `parseValue` reads on.
unfoldable pub is_number_byte : ℕ → Bool
is_number_byte c =
    c == b'-' || c == b'+' || c == b'.' || c == b'e' || c == b'E' || (leb b'0' c && leb c b'9')

-- Packages time and fmt.
pub record Formats : Type 1 where
  pub Float : Type 0
  -- `t.Format(time.RFC3339)` in UTC, and `time.Parse(time.RFC3339, s)`.
  pub format : Time → Text
  pub parse : Text → Option Time
  -- `fmt.Sprintf("%d", v)`, `fmt.Sscanf(s, "%g", &f)` and `int(f)`.
  pub print_int : ℤ → Text
  pub scan_float : Text → Option Float
  pub to_int : Float → ℤ
  -- `fmt.Sscanf(s, "%04x", &r)` on four bytes, and `WriteRune` of a strings.Builder.
  pub scan_hex : Text → Option ℤ
  pub write_rune : ℤ → Text
  -- `strings.TrimSpace`
  pub trim_space : Text → Text
  pub parse-format : (t : Time) → t % nanoseconds ≡ 0 → t < end_of_years → parse (format t) ≡ some t
  pub scan-print_int :
      (v : ℤ)
      → pos_part v < 2 ^ 53
      → neg_part v < 2 ^ 53
      → (f : Float) × (scan_float (print_int v) ≡ some f) × (to_int f ≡ v)
  pub print_int-bytes : (v : ℤ) → all is_number_byte (print_int v) ≡ true
  pub print_int-pos : (v : ℤ) → 0 < length (print_int v)
  -- "00" and two lower-case digits.
  pub scan-hex_digits :
      (c : ℕ)
      → c < 0x20
      → scan_hex (b'0' ∷ b'0' ∷ hex_digit (c / 16) ∷ hex_digit (c % 16) ∷ []) ≡ some (pos c)
  -- UTF-8 writes an ASCII character as one byte.
  pub write_rune-ascii : (c : ℕ) → c < 0x80 → write_rune (pos c) ≡ c ∷ []
  pub trim_space-nil : trim_space [] ≡ []

-- Packages crypto/ed25519 and encoding/base64.
pub record Crypto : Type 1 where
  pub PrivateKey : Type 0
  pub PublicKey : Type 0
  -- `seedFromHex`: hex.DecodeString, the length check and ed25519.NewKeyFromSeed.
  pub seed_bytes : Text → Option Text
  pub new_key_from_seed : Text → PrivateKey
  pub public : PrivateKey → PublicKey
  pub public_text : PublicKey → Text
  pub sign : PrivateKey → Text → Text
  pub verify : PublicKey → Text → Text → Bool
  pub encode : Text → Text
  pub decode : Text → Option Text
  pub verify-sign :
      (k : PrivateKey) (message : Text) → verify (public k) message (sign k message) ≡ true
  pub decode-encode : (bytes : Text) → decode (encode bytes) ≡ some bytes

-- `formatTime`
unfoldable pub format_time : Formats → Time → Text
format_time f t = f.format (t - t % nanoseconds)
