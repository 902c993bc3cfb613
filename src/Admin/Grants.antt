-- ===== src/Admin/Grants.antt =====
-- The entitlement and trial RPCs of internal/service/admin/admin.go, and ShowPubKey. BEGIN is
-- statement 0, COMMIT is 9.
use license_service.Prelude.{
  Bool, true, false, not, ◌&&◌, Text, List, [], ◌∷◌, map, Option, none, some, if◌then◌else◌, ℤ, pos,
  eq_ℤ,
}
use license_service.Xcodes.{Result, ok, err, plain, Code, ◌>>=◌}
use license_service.Store.Models.{Db, LicenseEntitlement, LicenseTrial, Time}
use license_service.Store.Reply.{Env, Fetch, found, record_not_found, failed, internal, transaction}
use license_service.Store.Entitlement.{get_entitlement, upsert_entitlement, delete_entitlement}
use license_service.Store.Trial.{get_trial, delete_trial, list_trials_by_fingerprint}
use license_service.Cert.Canonical.{sort_strings}
use license_service.Cert.Signer.{public_keys, lookup}
use license_service.Activation.Service.{Deps, Service}
use license_service.Activation.Certificate.{add_days}
use license_service.Admin.Scope.{Caller}
use license_service.Admin.Expiry.{Grant, grant_row}
use license_service.Admin.View.{EntitlementInfo, entitlement_info, resolve_key}
use license_service.Admin.Keys.{as_operator}

-- The expiry of the row that a grant replaces; `none` also where there is no row.
unfoldable pub current_expiry : Fetch LicenseEntitlement → Result (Option Time)
current_expiry (found e) = ok e.expires_at
current_expiry record_not_found = ok none
current_expiry failed = err (plain Code.internal)

-- `licensev1.TrialInfo`
pub record TrialInfo : Type 0 where
  pub fingerprint_id : Text
  pub module_id : ℤ
  pub started_at : Time
  pub expires_at : Time
  pub first_device_token : Text

unfoldable pub trial_info : ℤ → LicenseTrial → TrialInfo
trial_info trial_days tr = record {
  fingerprint_id = tr.fingerprint_id;
  module_id = tr.module_id;
  started_at = tr.started_at;
  expires_at = add_days tr.started_at trial_days;
  first_device_token = tr.first_device_token;
}

-- The loop of ShowTrial; module 0 is every module.
unfoldable pub shown_trials : ℤ → ℤ → List LicenseTrial → List TrialInfo
shown_trials trial_days m [] = []
shown_trials trial_days m (tr ∷ trs) =
    let rest = shown_trials trial_days m trs in
    if not (eq_ℤ m (pos 0)) && not (eq_ℤ tr.module_id m)
    then rest
    else trial_info trial_days tr ∷ rest

module _ (d : Deps) (s : Service d) (env : Env) where
  open d use {sql}

  unfoldable pub grant_module_tx : Text → Grant → Db → Result (EntitlementInfo × Db)
  grant_module_tx id g db = do
    k ← resolve_key sql (env.up 1) id db
    current ← current_expiry (get_entitlement sql (env.up 2) k.key_hash g.module_id db)
    row ← grant_row k.key_hash g current (env.clock 0) env.stamp
    db ← internal (upsert_entitlement sql (env.up 3) row db)
    ok (entitlement_info row, db)

  unfoldable pub grant_module : Caller → Text → Grant → Db → Result EntitlementInfo × Db
  grant_module c id g db =
      as_operator c (transaction (env.up 0) (env.up 9) (grant_module_tx id g)) db

  unfoldable pub revoke_module_tx : Text → ℤ → Db → Result (Unit {0} × Db)
  revoke_module_tx id m db = do
    k ← resolve_key sql (env.up 1) id db
    db ← internal (delete_entitlement sql (env.up 2) k.key_hash m db)
    ok (tt, db)

  unfoldable pub revoke_module : Caller → Text → ℤ → Db → Result (Unit {0}) × Db
  revoke_module c id m db =
      as_operator c (transaction (env.up 0) (env.up 9) (revoke_module_tx id m)) db

  unfoldable pub show_trial : Caller → Text → ℤ → Db → Result (List TrialInfo) × Db
  show_trial c fp m db =
      as_operator c
        (λ db. (
          do
            trials ← internal (list_trials_by_fingerprint sql (env.up 0) fp db)
            ok (shown_trials s.trial_days m trials),
          db,
        ))
        db

  -- Whether there was a row to delete.
  unfoldable pub reset_trial_tx : Text → ℤ → Db → Result (Bool × Db)
  reset_trial_tx fp m db = elim (get_trial sql (env.up 1) fp m db) [
    | found tr ↦ do db ← internal (delete_trial sql (env.up 2) fp m db); ok (true, db)
    | record_not_found ↦ ok (false, db)
    | failed ↦ err (plain Code.internal)
  ]

  unfoldable pub reset_trial : Caller → Text → ℤ → Db → Result Bool × Db
  reset_trial c fp m db = as_operator c (transaction (env.up 0) (env.up 9) (reset_trial_tx fp m)) db

  -- `m[kid]` of the map of public keys.
  unfoldable pub public_key_at : Text → Text
  public_key_at kid = elim (lookup kid (public_keys d.crypto s.signer)) [
    | none ↦ []
    | some key ↦ key
  ]

  -- The active kid, and every public key, sorted by kid.
  unfoldable pub show_pub_key : Caller → Db → Result (Text × List (Text × Text)) × Db
  show_pub_key c db =
      as_operator c
        (λ db. (
          ok (
            s.signer.active,
            map (λ kid. (kid, public_key_at kid))
                (sort_strings (map (λ entry. entry.0) (public_keys d.crypto s.signer))),
          ),
          db,
        ))
        db
