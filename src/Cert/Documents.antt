-- ===== src/Cert/Documents.antt =====
-- Compact JSON documents, as `MarshalCanonical` writes them, and what the parser makes of them.
pub mod Reading
use license_service.Prelude.{
  ℕ, zero, suc, ◌+◌, ◌≤◌, ◌<◌, ◌^◌, ◌≡◌, refl, sym, Bool, true, false, Text, [], ◌∷◌, ◌++◌, Option,
  none, some, ℤ, pos_part, neg_part, codes, arith, length, length-append, Bool-cases, ◌⊎◌, inl, inr,
  ◌==◌, append_assoc, append-nil, all, has_prefix, if◌then◌else◌, ◌&&◌, ◌∙◌, ap, not,
}
use license_service.Cert.Payload.{Formats, is_number_byte}
use license_service.Cert.Canonical.Shape.{quoted}
use license_service.Cert.Parser.{
  Outcome, done, Parsed, Json, Members, null, str, num, object, no_members, member, skip_ws, is_ws,
  starts, rest_of, number_bytes, put, or_malformed, ◌>>=◌, parse_string, parse_number, parse_scalar,
  parse_null, parse_key, parse_value, parse_members, after_member,
}
use license_service.Cert.Parser.Strings.{parse_string-quoted, ends_number, number_bytes-append}

-- An integer that a float64 holds exactly.
abbrev pub Exact : Type 0
Exact = (v : ℤ) × (pos_part v < 2 ^ 53) × (neg_part v < 2 ^ 53)

abbrev pub Document : Type 0
Document = Json Exact

module _ (fmt : Formats) where
  open fmt use {Float}

  unfoldable mutual
    pub emit : Document → Text
    emit null = codes "null"
    emit (str s) = quoted s
    emit (num v) = fmt.print_int v.0
    emit (object no_members) = b'{' ∷ b'}' ∷ []
    emit (object (member k v ms)) =
        b'{' ∷ (quoted k ++ b':' ∷ (emit v ++ (emit_later ms ++ b'}' ∷ [])))

    pub emit_later : Members Exact → Text
    emit_later no_members = []
    emit_later (member k v ms) = b',' ∷ (quoted k ++ b':' ∷ (emit v ++ emit_later ms))

  -- What the loop makes of the members, starting from the map so far.
  unfoldable mutual
    pub parsed_as : Document → Json Float
    parsed_as null = null
    parsed_as (str s) = str s
    parsed_as (num (v, h, k)) = num (fmt.scan-print_int v h k).0
    parsed_as (object ms) = object (collect ms no_members)

    pub collect : Members Exact → Members Float → Members Float
    collect no_members obj = obj
    collect (member k v ms) obj = collect ms (put k (parsed_as v) obj)
