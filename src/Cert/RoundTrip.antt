-- ===== src/Cert/RoundTrip.antt =====
-- A certificate payload, written and read back.
pub mod Written
pub mod Decoded
pub mod Stable
use license_service.Prelude.{
  ℕ, suc, ◌+◌, ◌-◌, ◌%◌, ◌<◌, ◌^◌, ◌≡◌, refl, sym, ◌∙◌, ap, Bool, true, false, Text, codes, str_eq,
  List, [], ◌∷◌, ◌++◌, map, Option, none, some, ℤ, pos_part, neg_part, arith, append_assoc,
  append-nil, All, length,
}
use mathlib.Core.Option
use license_service.Store.Models.{Time}
use license_service.Cert.Payload.{
  Entitlement, Payload, Formats, nanoseconds, end_of_years, format_time,
}
use license_service.Cert.Canonical.{entitlement_at, sort_strings, marshal_canonical}
use license_service.Cert.Canonical.Shape.{quoted, str-quoted}
use license_service.Cert.Parser.{null, str, num, object, Members, no_members, member}
use license_service.Cert.Names.{distinct}
use license_service.Cert.Documents.{Exact, Document, emit}

module _ (fmt : Formats) where
  abbrev pub expiry_document : Option Time → Document
  expiry_document none = null
  expiry_document (some t) = str (format_time fmt t)

  abbrev pub entitlement_document : Entitlement → Document
  entitlement_document e = object (
      member (codes "expiresAt") (expiry_document e.expires_at)
        (member (codes "kind") (str e.kind) no_members))

  abbrev pub entitlement_members : List (Text × Entitlement) → List Text → Members Exact
  entitlement_members ents [] = no_members
  entitlement_members ents (m ∷ ms) =
      member m (entitlement_document (entitlement_at m ents)) (entitlement_members ents ms)

  abbrev pub license_id_document : Option Text → Document
  license_id_document none = null
  license_id_document (some id) = str id

  abbrev pub payload_members :
      (p : Payload) → pos_part p.v < 2 ^ 53 → neg_part p.v < 2 ^ 53 → Members Exact
  payload_members p h k = member (codes "certId") (str p.cert_id) (
      member (codes "deviceToken") (str p.device_token) (
        member (codes "entitlements")
          (object
            (entitlement_members p.entitlements (sort_strings (map (λ m. m.0) p.entitlements))))
          (member (codes "fingerprintId") (str p.fingerprint_id) (
            member (codes "issuedAt") (str (format_time fmt p.issued_at)) (
              member (codes "licenseId") (license_id_document p.license_id) (
                member (codes "signingKeyId") (str p.signing_key_id)
                  (member (codes "v") (num (p.v, h, k)) no_members)))))))

-- The time to the second, as it is written.
abbrev pub whole : Time → Time
whole t = t - t % nanoseconds

abbrev pub whole_entitlement : Entitlement → Entitlement
whole_entitlement e = record { kind = e.kind; expires_at = Option.map whole e.expires_at }

abbrev pub names : List (Text × Entitlement) → List Text
names ents = map (λ m. m.0) ents

-- The entries at some names, to the second.
abbrev pub whole_entries : List (Text × Entitlement) → List Text → List (Text × Entitlement)
whole_entries ents ms = map (λ m. (m, whole_entitlement (entitlement_at m ents))) ms

-- The payload that a reader of its bytes has: times to the second, and the entries by name.
abbrev pub to_seconds : Payload → Payload
to_seconds p = record p {
  issued_at = whole p.issued_at;
  entitlements = whole_entries p.entitlements (sort_strings (names p.entitlements));
}

-- A time that RFC 3339 can write.
abbrev pub Datable : Option Time → Type 0
Datable none = Unit
Datable (some t) = t < end_of_years

-- What the writer is sure to write so that it can be read.
pub record Readable (p : Payload) : Type 0 where
  pub exact_pos : pos_part p.v < 2 ^ 53
  pub exact_neg : neg_part p.v < 2 ^ 53
  pub issued : p.issued_at < end_of_years
  pub expiries : All (λ e. Datable e.1.expires_at) p.entitlements
  pub apart : distinct (names p.entitlements) ≡ true
