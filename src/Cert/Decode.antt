-- ===== src/Cert/Decode.antt =====
-- `UnmarshalCanonical` of internal/service/cert/canonical.go, and `parseTime` of cert.go. The loop
-- over a map visits the members in the order of their list: their keys are distinct and each
-- sets a part of its own, so another order gives the same payload, or an error as well.
pub mod Terminates
use license_service.Prelude.{
  ℕ, suc, Bool, true, false, Text, codes, str_eq, List, [], ◌∷◌, Option, none, some, pos,
  if◌then◌else◌, length,
}
use license_service.Store.Models.{Time}
use license_service.Cert.Payload.{Entitlement, Payload, Formats}
use license_service.Cert.Parser.{
  Outcome, done, malformed, ◌>>=◌, or_malformed, Json, null, str, num, object, Members, no_members,
  member, get, parse_value,
}

-- `&Payload{}`
abbrev pub zero_payload : Payload
zero_payload = record {
  v = pos 0;
  cert_id = [];
  license_id = none;
  device_token = [];
  fingerprint_id = [];
  issued_at = 0;
  signing_key_id = [];
  entitlements = [];
}

-- `p.Entitlements[m] = e`
unfoldable pub put_entitlement :
    Text → Entitlement → List (Text × Entitlement) → List (Text × Entitlement)
put_entitlement m e [] = (m, e) ∷ []
put_entitlement m e ((k, f) ∷ ents) =
    let rest = put_entitlement m e ents in if str_eq k m then (m, e) ∷ ents else (k, f) ∷ rest

module _ (fmt : Formats) where
  open fmt use {Float}

  unfoldable pub as_number : Json Float → Outcome Float
  as_number (num f) = done f
  as_number _ = malformed

  unfoldable pub as_string : Json Float → Outcome Text
  as_string (str s) = done s
  as_string _ = malformed

  unfoldable pub as_object : Json Float → Outcome (Members Float)
  as_object (object ms) = done ms
  as_object _ = malformed

  unfoldable pub parse_time : Text → Outcome Time
  parse_time s = or_malformed (fmt.parse s)

  unfoldable pub as_time : Json Float → Outcome Time
  as_time j = do s ← as_string j; parse_time s

  unfoldable pub as_license_id : Json Float → Outcome (Option Text)
  as_license_id null = done none
  as_license_id j = do s ← as_string j; done (some s)

  -- `expiresAt` of an entitlement: absent, null or a time.
  unfoldable pub read_expiry : Option (Json Float) → Outcome (Option Time)
  read_expiry none = done none
  read_expiry (some null) = done none
  read_expiry (some j) = do t ← as_time j; done (some t)

  unfoldable pub read_kind : Option (Json Float) → Outcome Text
  read_kind none = malformed
  read_kind (some j) = as_string j

  unfoldable pub read_entitlement : Json Float → Outcome Entitlement
  read_entitlement j = do
    eo ← as_object j
    kind ← read_kind (get (codes "kind") eo)
    expires_at ← read_expiry (get (codes "expiresAt") eo)
    done (record { kind = kind; expires_at = expires_at })

  -- The inner loop, with the map so far.
  unfoldable pub read_entitlements :
      Members Float → List (Text × Entitlement) → Outcome (List (Text × Entitlement))
  read_entitlements no_members ents = done ents
  read_entitlements (member m ev ms) ents = do
    e ← read_entitlement ev
    read_entitlements ms (put_entitlement m e ents)

  -- The `switch`; an unknown member is ignored.
  unfoldable pub read_member : Text → Json Float → Payload → Outcome Payload
  read_member k j p =
      if str_eq k (codes "v")
      then (do f ← as_number j; done (record p { v = fmt.to_int f }))
      else if str_eq k (codes "certId")
      then (do s ← as_string j; done (record p { cert_id = s }))
      else if str_eq k (codes "deviceToken")
      then (do s ← as_string j; done (record p { device_token = s }))
      else if str_eq k (codes "fingerprintId")
      then (do s ← as_string j; done (record p { fingerprint_id = s }))
      else if str_eq k (codes "issuedAt")
      then (do t ← as_time j; done (record p { issued_at = t }))
      else if str_eq k (codes "licenseId")
      then (do id ← as_license_id j; done (record p { license_id = id }))
      else if str_eq k (codes "signingKeyId")
      then (do s ← as_string j; done (record p { signing_key_id = s }))
      else if str_eq k (codes "entitlements")
      then (do
        ms ← as_object j
        ents ← read_entitlements ms []
        done (record p { entitlements = ents }))
      else done p

  unfoldable pub read_members : Members Float → Payload → Outcome Payload
  read_members no_members p = done p
  read_members (member k j ms) p = do p' ← read_member k j p; read_members ms p'

  -- The fuel is above the length of the data.
  unfoldable pub unmarshal_canonical : Text → Outcome Payload
  unmarshal_canonical data_bytes = do
    (val, rest) ← parse_value fmt (suc (length data_bytes)) data_bytes
    trailing ← if str_eq (fmt.trim_space rest) [] then done rest else malformed
    obj ← as_object val
    read_members obj zero_payload
