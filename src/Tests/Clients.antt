-- ===== src/Tests/Clients.antt =====
-- More of the activation domain at concrete inputs.
use license_service.Prelude.{
  ℕ, ◌≡◌, refl, true, false, Text, codes, [], ◌∷◌, ◌++◌, none, some, arith, ltb, ℤ, pos, eq_ℤ, inr,
  str_eq,
}
use license_service.Xcodes.{Error, unwrapped, err, Result, ok}
use license_service.Store.Models.{Db, LicenseKey}
use license_service.Store.Rows.{first, latest, count}
use license_service.Store.Key.{has_hash}
use license_service.Store.Device.{is_slot}
use license_service.Cert.Signer.{lookup}
use license_service.Activation.Keys.{module_from_wire}
use license_service.Activation.Service.{allow, purpose_activate}
use license_service.Activation.Slots.Effect.{evicted}
use license_service.Activation.Certificate.{assemble}
use license_service.Activation.Certificate.Union.{grants, tries, entry, lookup-assemble}
use license_service.Activation.Handlers.{
  ActivateRequest, ActivateResponse, DeactivateRequest, TrialStartRequest, TrialStartResponse,
  status_revoked, normalize_request_key, activate, deactivate, trial_start,
}
use license_service.Activation.Handlers.Refusal.{activate_refused}
use license_service.Activation.Handlers.Release.{deactivate_releases, without}
use license_service.Activation.Handlers.Ledger.{started_now, Ledgered, trial_start-Ledgered}
use license_service.Activation.Handlers.TrialCertified.{TrialCertifies, trial_start-Certifies}
use license_service.Activation.Handlers.Success.{Fits, activate-Succeeds}
use license_service.Tests.Fixtures.{
  running, deps, service, fair, typed_key, value, hash, one_slot, swap_request,
}

fair-up : (n : ℕ) → fair.up n ≡ true
fair-up n = refl

key_accepted : normalize_request_key deps service fair typed_key [] ≡ ok hash
unfolding running
key_accepted = refl

admitted : (target : Text) → allow fair service.window purpose_activate target ≡ ok tt
unfolding allow
admitted target = refl

abbrev leave : DeactivateRequest
leave = record { key = typed_key; license_key = []; device_token = codes "d1" }

deactivate_releases_example :
    (deactivate deps service fair leave one_slot ≡ (
      ok (ltb 0 (count (is_slot hash (codes "d1")) one_slot.devices)),
      without hash (codes "d1") one_slot,
    ))
    × (deactivate deps service fair leave (without hash (codes "d1") one_slot)
        ≡ (ok false, without hash (codes "d1") one_slot))
deactivate_releases_example =
    deactivate_releases deps service fair leave hash one_slot fair-up key_accepted
      (admitted (hash ++ b':' ∷ codes "d1"))

abbrev try_tools : TrialStartRequest
try_tools = record {
  module_name = codes "tools";
  license_key = [];
  fingerprint_id = codes "f2";
  device_token = codes "d2";
}

abbrev no_trial : TrialStartResponse
no_trial = record { payload = []; signature = []; already_started = false }

abbrev tried : Result TrialStartResponse × Db
tried = trial_start deps service fair try_tools one_slot

trial_succeeds : tried ≡ (ok (value no_trial tried.0), tried.1)
unfolding running
trial_succeeds = refl

trial_start-Ledgered_example :
    (m : ℤ) × (module_from_wire (codes "tools") ≡ ok m)
    × Ledgered
        (codes "f2")
        m
        (started_now fair (codes "f2") try_tools.device_token m)
        one_slot.trials
        tried.1.trials
        (value no_trial tried.0).already_started
trial_start-Ledgered_example =
    trial_start-Ledgered deps service fair try_tools one_slot trial_succeeds

trial_start-Certifies_example :
    (m : ℤ) × (module_from_wire (codes "tools") ≡ ok m)
    × TrialCertifies deps service fair try_tools m one_slot tried.1
        (value no_trial tried.0).payload
        (value no_trial tried.0).signature
unfolding count
trial_start-Certifies_example =
    trial_start-Certifies deps service fair try_tools one_slot (omega arith) refl refl refl
      trial_succeeds

lookup-assemble_example :
    lookup (codes "tools") (assemble (pos 14) one_slot.entitlements one_slot.trials)
    ≡ entry
        (pos 14)
        (latest (grants (codes "tools")) one_slot.entitlements)
        (latest (tries (codes "tools")) one_slot.trials)
lookup-assemble_example =
    lookup-assemble (pos 14) one_slot.entitlements one_slot.trials (codes "tools")

abbrev the_key : LicenseKey
the_key = record {
  key_hash = hash;
  license_id = codes "lk_1";
  key_prefix = codes "AV1D0000";
  label = [];
  max_slots = pos 1;
  status = pos 1;
  revoked_at = none;
  created_at = 1;
}

key_there : first (has_hash hash) one_slot.keys ≡ some the_key
unfolding running
key_there = refl

key_live : eq_ℤ the_key.status status_revoked ≡ false
unfolding eq_ℤ
key_live = refl

slot_free : Fits hash (codes "d2") (pos 1) (evicted hash (codes "d1") one_slot.devices)
unfolding running
slot_free = inr (omega arith)

signs : lookup service.signer.active service.signer.keys ≡ some (codes "seed")
unfolding lookup str_eq
signs = refl

activate-Succeeds_example :
    (resp : ActivateResponse) × (db' : Db) × (activate deps service fair swap_request one_slot
      ≡ (ok resp, db'))
activate-Succeeds_example =
    activate-Succeeds deps service fair fair-up swap_request hash one_slot key_accepted
      (admitted (hash ++ b':' ∷ codes "d2")) key_there key_live slot_free signs

-- The device "d2" evicts nobody, and there is no slot for it.
abbrev crowded : ActivateRequest
crowded = record swap_request { evict_device_token = [] }

abbrev refused : Result ActivateResponse × Db
refused = activate deps service fair crowded one_slot

abbrev error_of {ℓ} : {A : Type ℓ} → Result A → Error
error_of (ok a) = unwrapped
error_of (err e) = e

crowd_refused : refused ≡ (err (error_of refused.0), refused.1)
unfolding running
crowd_refused = refl

activate_refused_example : refused.1 ≡ one_slot
activate_refused_example = activate_refused deps service fair crowded one_slot signs crowd_refused
