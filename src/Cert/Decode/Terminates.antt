-- ===== src/Cert/Decode/Terminates.antt =====
-- `UnmarshalCanonical` ends on every text.
use license_service.Prelude.{
  suc, ◌≢◌, refl, arith, Bool, true, false, Text, codes, str_eq, List, [], Option, none, some,
  if◌then◌else◌, length,
}
use license_service.Cert.Payload.{Entitlement, Payload, Formats}
use license_service.Cert.Parser.{
  Outcome, done, malformed, stuck, ◌>>=◌, or_malformed, Json, null, str, num, object, Members,
  no_members, member, get, parse_value,
}
use license_service.Cert.Parser.Terminates.{Leaves-not_stuck, parse_value-Leaves}
use license_service.Cert.Decode.{
  put_entitlement, as_number, as_string, as_object, parse_time, as_time, as_license_id, read_expiry,
  read_kind, read_entitlement, read_entitlements, read_member, read_members, zero_payload,
  unmarshal_canonical,
}

-- A run with fuel left.
abbrev Ends : {A : Type 0} → Outcome A → Type 0
Ends (done a) = Unit
Ends malformed = Unit
Ends stuck = ⊥

module _ {A : Type 0} where
  Ends-not_stuck : (r : Outcome A) → Ends r → r ≢ stuck
  Ends-not_stuck (done a) h e = cc
  Ends-not_stuck malformed h e = cc
  Ends-not_stuck stuck h e = h

  not_stuck-Ends : (r : Outcome A) → r ≢ stuck → Ends r
  not_stuck-Ends (done a) h = tt
  not_stuck-Ends malformed h = tt
  not_stuck-Ends stuck h = h refl

  Ends-option : (o : Option A) → Ends (or_malformed o)
  Ends-option none = tt
  Ends-option (some a) = tt

  Ends-bind :
      {B : Type 0} (r : Outcome B) (f : B → Outcome A)
      → Ends r
      → ((b : B) → Ends (f b))
      → Ends (r >>= f)
  Ends-bind (done b) f h k = k b
  Ends-bind malformed f h k = tt
  Ends-bind stuck f h k = h

  Ends-if : (b : Bool) (x y : Outcome A) → Ends x → Ends y → Ends (if b then x else y)
  Ends-if true x y h k = h
  Ends-if false x y h k = k

module _ (fmt : Formats) where
  as_number-Ends : (j : Json fmt.Float) → Ends (as_number fmt j)
  unfolding as_number
  as_number-Ends (num f) = tt
  as_number-Ends _ = tt

  as_string-Ends : (j : Json fmt.Float) → Ends (as_string fmt j)
  unfolding as_string
  as_string-Ends (str s) = tt
  as_string-Ends _ = tt

  as_object-Ends : (j : Json fmt.Float) → Ends (as_object fmt j)
  unfolding as_object
  as_object-Ends (object ms) = tt
  as_object-Ends _ = tt

  as_time-Ends : (j : Json fmt.Float) → Ends (as_time fmt j)
  unfolding as_time parse_time
  as_time-Ends j = Ends-bind (as_string fmt j) _ (as_string-Ends j) λ s. Ends-option (fmt.parse s)

  as_license_id-Ends : (j : Json fmt.Float) → Ends (as_license_id fmt j)
  unfolding as_license_id
  as_license_id-Ends null = tt
  as_license_id-Ends j = Ends-bind (as_string fmt j) _ (as_string-Ends j) λ s. tt

  read_expiry-Ends : (j : Option (Json fmt.Float)) → Ends (read_expiry fmt j)
  unfolding read_expiry
  read_expiry-Ends none = tt
  read_expiry-Ends (some null) = tt
  read_expiry-Ends (some j) = Ends-bind (as_time fmt j) _ (as_time-Ends j) λ t. tt

  read_kind-Ends : (j : Option (Json fmt.Float)) → Ends (read_kind fmt j)
  unfolding read_kind
  read_kind-Ends none = tt
  read_kind-Ends (some j) = as_string-Ends j

  read_entitlement-Ends : (j : Json fmt.Float) → Ends (read_entitlement fmt j)
  unfolding read_entitlement
  read_entitlement-Ends j = Ends-bind (as_object fmt j) _ (as_object-Ends j) λ eo.
      Ends-bind (read_kind fmt _) _ (read_kind-Ends (get (codes "kind") eo)) λ kind.
        Ends-bind (read_expiry fmt _) _ (read_expiry-Ends (get (codes "expiresAt") eo)) λ t. tt

  read_entitlements-Ends :
      (ms : Members fmt.Float) (ents : List (Text × Entitlement))
      → Ends (read_entitlements fmt ms ents)
  unfolding read_entitlements
  read_entitlements-Ends no_members ents = tt
  read_entitlements-Ends (member m j ms) ents =
      Ends-bind (read_entitlement fmt j) _ (read_entitlement-Ends j)
        λ e. read_entitlements-Ends ms (put_entitlement m e ents)

  read_member-Ends : (k : Text) (j : Json fmt.Float) (p : Payload) → Ends (read_member fmt k j p)
  unfolding read_member
  read_member-Ends k j p =
      let string = λ (f : Text → Payload).
        Ends-bind (as_string fmt j) (λ s. done (f s)) (as_string-Ends j) λ s. tt in
      Ends-if (str_eq k (codes "v")) _ _ (Ends-bind (as_number fmt j) _ (as_number-Ends j) λ f. tt)
        (Ends-if (str_eq k (codes "certId")) _ _ (string _) (
          Ends-if (str_eq k (codes "deviceToken")) _ _ (string _) (
            Ends-if (str_eq k (codes "fingerprintId")) _ _ (string _) (
              Ends-if (str_eq k (codes "issuedAt")) _ _
                (Ends-bind (as_time fmt j) _ (as_time-Ends j) λ t. tt)
                (Ends-if (str_eq k (codes "licenseId")) _ _
                  (Ends-bind (as_license_id fmt j) _ (as_license_id-Ends j) λ t. tt)
                  (Ends-if (str_eq k (codes "signingKeyId")) _ _ (string _) (
                    Ends-if (str_eq k (codes "entitlements")) _ _
                      (Ends-bind (as_object fmt j) _ (as_object-Ends j) λ ms.
                        Ends-bind (read_entitlements fmt ms []) _ (read_entitlements-Ends ms [])
                          λ ents. tt)
                      tt)))))))

  read_members-Ends : (ms : Members fmt.Float) (p : Payload) → Ends (read_members fmt ms p)
  unfolding read_members
  read_members-Ends no_members p = tt
  read_members-Ends (member k j ms) p =
      Ends-bind (read_member fmt k j p) _ (read_member-Ends k j p) λ q. read_members-Ends ms q

  -- Reading ends on every text, with a payload or an error: the fuel is enough.
  pub unmarshal_canonical-total : (s : Text) → unmarshal_canonical fmt s ≢ stuck
  unfolding unmarshal_canonical
  unmarshal_canonical-total s =
      let run = parse_value fmt (suc (length s)) s in
      Ends-not_stuck _ (
        Ends-bind run _
          (not_stuck-Ends run (
            Leaves-not_stuck (length s) run
              (parse_value-Leaves fmt (suc (length s)) s (omega arith))))
          λ (val, rest).
            Ends-bind (if str_eq (fmt.trim_space rest) [] then done rest else malformed) _
              (Ends-if (str_eq (fmt.trim_space rest) []) (done rest) malformed tt tt)
              λ t.
                Ends-bind (as_object fmt val) _ (as_object-Ends val)
                  λ obj. read_members-Ends obj zero_payload)
