-- ===== src/Activation/Handlers.antt =====
-- The three RPCs of activation.go. The statements of a call are numbered by `env.up`: BEGIN is 0.
pub mod Inversion
pub mod Roster
pub mod Success
pub mod Refusal
pub mod Release
pub mod Ledger
pub mod Certified
pub mod TrialCertified
use license_service.Prelude.{
  ℕ, ◌+◌, Bool, true, false, Text, List, [], ◌∷◌, ◌++◌, Option, none, some, if◌then◌else◌, ◌&&◌, ℤ,
  pos, eq_ℤ, ltb,
}
use license_service.Xcodes.{
  Result, ok, err, plain, Code, key_not_found, key_revoked, already_entitled, ◌>>=◌,
}
use license_service.Store.Models.{
  Db, LicenseKey, LicenseDevice, LicenseEntitlement, LicenseTrial, Time,
}
use license_service.Store.Reply.{Env, Fetch, found, record_not_found, failed, internal, transaction}
use license_service.Store.Device.{
  list_devices_by_key_hash, count_devices_by_key_hash, delete_device,
}
use license_service.Store.Key.{get_key_for_update, get_key_by_key_hash}
use license_service.Store.Entitlement.{list_entitlements_by_key_hash}
use license_service.Store.Trial.{
  get_trial, insert_trial_on_conflict_do_nothing, list_trials_by_fingerprint,
}
use license_service.Activation.Keys.{normalize_key, key_hash, module_from_wire}
use license_service.Activation.Service.{Deps, Service, allow, purpose_activate, purpose_trial}
use license_service.Activation.Slots.{SlotSummary, slots_summary, occupy_slot}
use license_service.Activation.Certificate.{sign_cert}

-- `licensev1.ActivateRequest`; the key fields are runes.
pub record ActivateRequest : Type 0 where
  pub key : List ℕ
  pub license_key : List ℕ
  pub fingerprint_id : Text
  pub device_token : Text
  pub evict_device_token : Text

pub record ActivateResponse : Type 0 where
  pub payload : Text
  pub signature : Text
  pub slots : SlotSummary

-- `licensev1.DeactivateRequest`
pub record DeactivateRequest : Type 0 where
  pub key : List ℕ
  pub license_key : List ℕ
  pub device_token : Text

-- `licensev1.TrialStartRequest`
pub record TrialStartRequest : Type 0 where
  pub module_name : Text
  pub license_key : List ℕ
  pub fingerprint_id : Text
  pub device_token : Text

pub record TrialStartResponse : Type 0 where
  pub payload : Text
  pub signature : Text
  pub already_started : Bool

-- `firstKey`
unfoldable pub first_key : List ℕ → List ℕ → List ℕ
first_key [] b = b
first_key (x ∷ a) b = x ∷ a

abbrev pub status_revoked : ℤ
status_revoked = pos 2

-- The statements of a call from number `k` on.
abbrev pub from : ℕ → (ℕ → Bool) → ℕ → Bool
from k up n = up (k + n)

-- The key row of a keyed call: 401 where there is none, 403 where it is revoked.
unfoldable pub live_key : Fetch LicenseKey → Result LicenseKey
live_key (found k) = if eq_ℤ k.status status_revoked then err (plain key_revoked) else ok k
live_key record_not_found = err (plain key_not_found)
live_key failed = err (plain Code.internal)

-- `ExpiresAt == nil || ExpiresAt.After(now)`
abbrev pub unexpired : Option Time → Time → Bool
unexpired none now = true
unexpired (some t) now = ltb now t

-- What the transaction of `Activate` hands on.
pub record Activated : Type 0 where
  pub key : LicenseKey
  pub devices : List LicenseDevice
  pub ents : List LicenseEntitlement
  pub trials : List LicenseTrial

module _ (d : Deps) (s : Service d) (env : Env) where
  open d use {sql}

  unfoldable pub normalize_request_key : List ℕ → List ℕ → Result Text
  normalize_request_key a b = do norm ← normalize_key (first_key a b); ok (key_hash d.sum256 norm)

  unfoldable pub activate_tx : Text → ActivateRequest → Db → Result (Activated × Db)
  activate_tx h req db = do
    k ← live_key (get_key_for_update sql (env.up 1) h db)
    db ←
        occupy_slot sql (from 2 env.up) (env.clock 0) env.stamp h req.fingerprint_id
          req.device_token req.evict_device_token k.max_slots db
    devices ← internal (list_devices_by_key_hash sql (env.up 6) h db)
    ents ← internal (list_entitlements_by_key_hash sql (env.up 7) h db)
    trials ← internal (list_trials_by_fingerprint sql (env.up 8) req.fingerprint_id db)
    ok (record { key = k; devices = devices; ents = ents; trials = trials }, db)

  -- After the transaction the database stays as it is, whatever becomes of the signature.
  unfoldable pub activate_reply :
      Text → ActivateRequest → Result Activated × Db → Result ActivateResponse × Db
  activate_reply h req (err e, db) = (err e, db)
  activate_reply h req (ok a, db) = (
    do
      signed ← sign_cert d s env 1 (some h) req.device_token req.fingerprint_id a.ents a.trials
      ok (record {
        payload = signed.0;
        signature = signed.1;
        slots = slots_summary a.key.max_slots a.devices;
      }),
    db,
  )

  unfoldable pub activate : ActivateRequest → Db → Result ActivateResponse × Db
  activate req db = elim (normalize_request_key req.key req.license_key) [
    | err e ↦ (err e, db)
    | ok h ↦ elim (allow env s.window purpose_activate (h ++ b':' ∷ req.device_token)) [
      | err e ↦ (err e, db)
      | ok _ ↦ activate_reply h req (transaction (env.up 0) (env.up 9) (activate_tx h req) db)
    ]
  ]

  -- The key lookup is advisory: only an error of the store counts.
  unfoldable pub advisory : Fetch LicenseKey → Result (Unit {0})
  advisory (found k) = ok tt
  advisory record_not_found = ok tt
  advisory failed = err (plain Code.internal)

  -- Whether the slot was released.
  unfoldable pub deactivate_tx : Text → Text → Db → Result (Bool × Db)
  deactivate_tx h token db = do
    _ ← advisory (get_key_by_key_hash sql (env.up 1) h db)
    before ← internal (count_devices_by_key_hash sql (env.up 2) h db)
    db ← internal (delete_device sql (env.up 3) h token db)
    after ← internal (count_devices_by_key_hash sql (env.up 4) h db)
    ok (ltb after before, db)

  unfoldable pub deactivate : DeactivateRequest → Db → Result Bool × Db
  deactivate req db = elim (normalize_request_key req.key req.license_key) [
    | err e ↦ (err e, db)
    | ok h ↦ elim (allow env s.window purpose_activate (h ++ b':' ∷ req.device_token)) [
      | err e ↦ (err e, db)
      | ok _ ↦ transaction (env.up 0) (env.up 5) (deactivate_tx h req.device_token) db
    ]
  ]

  -- ALREADY_ENTITLED: some row of the module has not expired; row `i` reads the clock at `i`.
  unfoldable pub refuse_entitled : ℕ → ℤ → List LicenseEntitlement → Result (Unit {0})
  refuse_entitled i m [] = ok tt
  refuse_entitled i m (e ∷ es) =
      let rest = refuse_entitled (i + 1) m es in
      if eq_ℤ e.module_id m && unexpired e.expires_at (env.clock i)
      then err (plain already_entitled)
      else rest

  -- What the key of the request adds to a trial: its hash and its entitlements, nothing where there
  -- is no key.
  unfoldable pub trial_key_tx :
      List ℕ → ℤ → TrialStartRequest → Db → Result (Option (Text × List LicenseEntitlement) × Db)
  trial_key_tx [] m req db = ok (none, db)
  trial_key_tx (c ∷ raw) m req db = do
    h ← normalize_request_key (c ∷ raw) []
    k ← live_key (get_key_for_update sql (env.up 1) h db)
    ents ← internal (list_entitlements_by_key_hash sql (env.up 2) h db)
    _ ← refuse_entitled 4 m ents
    db ←
        occupy_slot sql (from 3 env.up) (env.clock 0) env.stamp h req.fingerprint_id
          req.device_token [] k.max_slots db
    ok (some (h, ents), db)

  -- The row of a first start.
  unfoldable pub first_trial : ℤ → TrialStartRequest → LicenseTrial
  first_trial m req = record {
    fingerprint_id = req.fingerprint_id;
    module_id = m;
    started_at = env.clock 2;
    first_device_token = req.device_token;
    created_at = env.stamp;
  }

  unfoldable pub reread : Fetch LicenseTrial → Db → Result (LicenseTrial × Bool × Db)
  reread (found tr) db = ok (tr, false, db)
  reread _ db = err (plain Code.internal)

  -- The ledger row, whether it was there, and the database.
  unfoldable pub ledger_tx : ℤ → TrialStartRequest → Db → Result (LicenseTrial × Bool × Db)
  ledger_tx m req db = elim (get_trial sql (env.up 7) req.fingerprint_id m db) [
    | found tr ↦ ok (tr, true, db)
    | record_not_found ↦ do
      db ← internal (insert_trial_on_conflict_do_nothing sql (env.up 8) (first_trial m req) db)
      reread (get_trial sql (env.up 9) req.fingerprint_id m db) db
    | failed ↦ err (plain Code.internal)
  ]

  unfoldable pub trial_tx :
      ℤ
      → TrialStartRequest
      → Db
      → Result ((LicenseTrial × Bool × Option (Text × List LicenseEntitlement)) × Db)
  trial_tx m req db = do
    keyed ← trial_key_tx req.license_key m req db
    row ← ledger_tx m req keyed.1
    ok ((row.0, row.1, keyed.0), row.2)

  -- A keyless cert carries the full ledger, a keyed one the row of this trial.
  unfoldable pub trial_reply :
      TrialStartRequest
      → Result (LicenseTrial × Bool × Option (Text × List LicenseEntitlement)) × Db
      → Result TrialStartResponse × Db
  trial_reply req (err e, db) = (err e, db)
  trial_reply req (ok (tr, already, none), db) = (
    do
      trials ← internal (list_trials_by_fingerprint sql (env.up 11) req.fingerprint_id db)
      signed ← sign_cert d s env 1 none req.device_token req.fingerprint_id [] trials
      ok (record { payload = signed.0; signature = signed.1; already_started = already }),
    db,
  )
  trial_reply req (ok (tr, already, some (h, ents)), db) = (
    do
      signed ← sign_cert d s env 1 (some h) req.device_token req.fingerprint_id ents (tr ∷ [])
      ok (record { payload = signed.0; signature = signed.1; already_started = already }),
    db,
  )

  unfoldable pub trial_start : TrialStartRequest → Db → Result TrialStartResponse × Db
  trial_start req db = elim (module_from_wire req.module_name) [
    | err e ↦ (err e, db)
    | ok m ↦
        elim (allow env s.window purpose_trial (req.fingerprint_id ++ b':' ∷ req.device_token)) [
          | err e ↦ (err e, db)
          | ok _ ↦ trial_reply req (transaction (env.up 0) (env.up 10) (trial_tx m req) db)
        ]
  ]
