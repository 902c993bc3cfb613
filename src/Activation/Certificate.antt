-- ===== src/Activation/Certificate.antt =====
-- `signCert` of activation.go: the entitlements of a key united with the trial ledger.
pub mod Union
pub mod Dated
pub mod Described
use license_service.Prelude.{
  ℕ, ◌+◌, ◌*◌, Text, str_eq, List, [], ◌∷◌, Option, none, some, if◌then◌else◌, ℤ, pos, pos_part,
}
use license_service.Xcodes.{Result, ok, err, unwrapped}
use license_service.Store.Models.{LicenseEntitlement, LicenseTrial, Time}
use license_service.Store.Reply.{Env}
use license_service.Cert.Payload.{Entitlement, Payload, kind_trial, nanoseconds}
use license_service.Cert.Signer
use license_service.Activation.Keys.{module_wire_name, kind_from_int32, license_id}
use license_service.Activation.Service.{Deps, Service}

abbrev pub Entitlements : Type 0
Entitlements = List (Text × Entitlement)

-- `m[k] = e` of a Go map.
unfoldable pub insert : Text → Entitlement → Entitlements → Entitlements
insert k e [] = (k, e) ∷ []
insert k e ((j, f) ∷ m) = if str_eq j k then (k, e) ∷ m else (j, f) ∷ insert k e m

-- `t.AddDate(0, 0, days)` in UTC. The days of a trial are positive (`resolveDomainOptions`).
abbrev pub add_days : Time → ℤ → Time
add_days t days = t + pos_part days * (86_400 * nanoseconds)

abbrev pub trial_entry : ℤ → LicenseTrial → Entitlement
trial_entry trial_days tr = record {
  kind = kind_trial;
  expires_at = some (add_days tr.started_at trial_days);
}

-- The first loop.
unfoldable pub add_trials : ℤ → List LicenseTrial → Entitlements → Entitlements
add_trials trial_days [] m = m
add_trials trial_days (tr ∷ trs) m =
    let name = module_wire_name tr.module_id in
    add_trials trial_days trs
      (if str_eq name [] then m else insert name (trial_entry trial_days tr) m)

-- The body of the second loop, on the kind of the row.
unfoldable pub add_entitlement : LicenseEntitlement → Option Text → Entitlements → Entitlements
add_entitlement e none m = m
add_entitlement e (some kind) m =
    let name = module_wire_name e.module_id in
    if str_eq name [] then m else insert name (record { kind = kind; expires_at = e.expires_at }) m

unfoldable pub add_entitlements : List LicenseEntitlement → Entitlements → Entitlements
add_entitlements [] m = m
add_entitlements (e ∷ es) m = add_entitlements es (add_entitlement e (kind_from_int32 e.kind) m)

unfoldable pub assemble : ℤ → List LicenseEntitlement → List LicenseTrial → Entitlements
assemble trial_days ents trials = add_entitlements ents (add_trials trial_days trials [])

module _ (d : Deps) (s : Service d) (env : Env) where
  -- `key_ref` is the key's hash, or `none` for a keyless cert; `issued_at` reads the clock at `tick`.
  unfoldable pub certificate :
      ℕ → Option Text → Text → Text → List LicenseEntitlement → List LicenseTrial → Payload
  certificate tick key_ref device_token fingerprint ents trials = record {
    v = pos 1;
    cert_id = env.uuid;
    license_id = elim key_ref [ none ↦ none | some h ↦ some (license_id h) ];
    device_token = device_token;
    fingerprint_id = fingerprint;
    issued_at = env.clock tick;
    signing_key_id = s.signer.active;
    entitlements = assemble s.trial_days ents trials;
  }

  unfoldable pub sign_cert :
      ℕ
      → Option Text
      → Text
      → Text
      → List LicenseEntitlement
      → List LicenseTrial
      → Result (Text × Text)
  sign_cert tick key_ref device_token fingerprint ents trials =
      elim (Signer.sign d.crypto d.formats s.signer
        (certificate tick key_ref device_token fingerprint ents trials)) [
          | none ↦ err unwrapped
          | some signed ↦ ok signed
        ]
