-- ===== src/Activation/Keys.antt =====
-- internal/service/activation/key.go. A raw key is the sequence of its runes; a byte sequence that
-- is not UTF-8 decodes to U+FFFD, which no step keeps.
pub mod Normalize
pub mod Generate
use license_service.Prelude.{
  ℕ, zero, suc, ◌+◌, ◌-◌, ◌/◌, ◌%◌, Bool, true, false, ◌&&◌, ◌||◌, Text, codes, str_eq, has_prefix,
  hex_digit, List, [], ◌∷◌, ◌++◌, map, Option, none, some, if◌then◌else◌, leb, ◌==◌, ℤ, pos, negsuc,
  length, take, all,
}
use license_service.Store.Rows.{keep}
use license_service.Xcodes.{Result, ok, err, plain, Code, bad_key_format}
use mathlib.Core.List.{reverse}

abbrev pub within : ℕ → ℕ → ℕ → Bool
within lo hi c = leb lo c && leb c hi

-- `unicode.IsSpace`
unfoldable pub is_space : ℕ → Bool
is_space c =
    within 9 13 c
    || c == 32
    || c == 0x85
    || c == 0xa0
    || c == 0x1680
    || within 0x2000 0x200a c
    || c == 0x2028
    || c == 0x2029
    || c == 0x202f
    || c == 0x205f
    || c == 0x3000

-- `unicode.ToUpper`, but that a rune outside ASCII whose upper case is outside ASCII stays as it
-- is: the next step drops both. The two others are the dotless i and the long s.
unfoldable pub to_upper : ℕ → ℕ
to_upper c =
    if within b'a' b'z' c
    then c - 32
    else if c == 0x131
    then b'I'
    else if c == 0x17f
    then b'S'
    else c

unfoldable pub drop_spaces : List ℕ → List ℕ
drop_spaces [] = []
drop_spaces (c ∷ cs) = let rest = drop_spaces cs in if is_space c then rest else c ∷ cs

-- `strings.TrimSpace`
unfoldable pub trim_space : List ℕ → List ℕ
trim_space s = reverse (drop_spaces (reverse (drop_spaces s)))

-- The runes that the loop writes, also the class `[0-9A-Z]`.
unfoldable pub is_alnum : ℕ → Bool
is_alnum c = within b'A' b'Z' c || within b'0' b'9' c

abbrev pub key_mark : Text
key_mark = codes "AV1D"

-- `normalizedKeyRe`: ^AV1D[0-9A-Z]{20}$
unfoldable pub has_key_shape : Text → Bool
has_key_shape s = has_prefix s key_mark && (length s == 24 && all is_alnum s)

unfoldable pub normalize_key : List ℕ → Result Text
normalize_key raw =
    let norm = keep is_alnum (map to_upper (trim_space raw)) in
    if has_key_shape norm then ok norm else err (plain bad_key_format)

-- `hex.EncodeToString`
unfoldable pub hex_encode : Text → Text
hex_encode [] = []
hex_encode (b ∷ bs) = hex_digit (b / 16) ∷ hex_digit (b % 16) ∷ hex_encode bs

-- `KeyHash`, over `sha256.Sum256`.
unfoldable pub key_hash : (Text → Text) → Text → Text
key_hash sum256 norm = hex_encode (sum256 norm)

-- `LicenseID`; a key hash has 64 digits, so the slice is in range.
unfoldable pub license_id : Text → Text
license_id h = codes "lk_" ++ take 32 h

-- The display alphabet, at `b & 31`.
abbrev pub crockford : Text
crockford = codes "0123456789ABCDEFGHJKMNPQRSTVWXYZ"

abbrev pub byte_at : Text → ℕ → ℕ
byte_at [] i = 0
byte_at (c ∷ cs) zero = c
byte_at (c ∷ cs) (suc i) = byte_at cs i

unfoldable pub symbol : ℕ → ℕ
symbol n = byte_at crockford n

-- The loop over the random bytes, from index `i`.
unfoldable pub key_groups : ℕ → List ℕ → Text
key_groups i [] = []
key_groups i (g ∷ gs) =
    let rest = symbol (g % 32) ∷ key_groups (i + 1) gs in if i % 5 == 0 then b'-' ∷ rest else rest

-- `GenerateKey` on what `rand.Read` filled its 20 bytes with.
unfoldable pub generate_key : List ℕ → Text
generate_key groups = key_mark ++ key_groups 0 groups

-- `licensev1.Module`: 1 is DOWNLOADS, 2 is TOOLS. "" is never signed.
unfoldable pub module_wire_name : ℤ → Text
module_wire_name (pos n) =
    if n == 1 then codes "downloads" else if n == 2 then codes "tools" else []
module_wire_name (negsuc n) = []

unfoldable pub module_from_wire : Text → Result ℤ
module_from_wire name =
    if str_eq name (codes "downloads")
    then ok (pos 1)
    else if str_eq name (codes "tools")
    then ok (pos 2)
    else err (plain bad_key_format)

-- `licensev1.EntitlementKind`: 1 is PERPETUAL, 2 is SUBSCRIPTION, 3 is TRIAL.
unfoldable pub kind_from_int32 : ℤ → Option Text
kind_from_int32 (pos n) =
    if n == 1
    then some (codes "perpetual")
    else if n == 2
    then some (codes "subscription")
    else if n == 3
    then some (codes "trial")
    else none
kind_from_int32 (negsuc n) = none
