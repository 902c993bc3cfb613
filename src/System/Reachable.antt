-- ===== src/System/Reachable.antt =====
-- The RPCs that write keys, entitlements, devices or trials, in any order and with any failures.
use license_service.Prelude.{ℕ, refl, arith, Bool, Text, List, [], Option, ℤ}
use license_service.Store.Models.{Db}
use license_service.Store.Rows.{count}
use license_service.Store.Reply.{Env}
use license_service.Activation.Service.{Deps, Service}
use license_service.Activation.Handlers.{
  ActivateRequest, DeactivateRequest, TrialStartRequest, activate, deactivate, trial_start,
}
use license_service.Admin.Scope.{Caller}
use license_service.Admin.Expiry.{Grant}
use license_service.Admin.Keys.{
  CreateKeyRequest, UpdateKeyRequest, create_key, update_key, revoke_key, unrevoke_key, delete_key,
}
use license_service.Admin.Grants.{grant_module, revoke_module, reset_trial}
use license_service.Admin.Devices.{kick_device}
use license_service.System.Ownership.{WellFormed}
use license_service.System.Client.{activate-WellFormed, deactivate-WellFormed}
use license_service.System.Trial.{trial_start-WellFormed}
use license_service.System.Lifecycle.{create_key-WellFormed}
use license_service.System.Changes.{
  update_key-WellFormed, revoke_key-WellFormed, unrevoke_key-WellFormed,
}
use license_service.System.Deletion.{delete_key-WellFormed}
use license_service.System.Grants.{
  grant_module-WellFormed, revoke_module-WellFormed, reset_trial-WellFormed, kick_device-WellFormed,
}

-- A call, with all that it meets outside the program.
pub data Call : Type 0 where
  activating : Env → ActivateRequest → Call
  deactivating : Env → DeactivateRequest → Call
  starting_trial : Env → TrialStartRequest → Call
  creating_key : Env → (ℕ → Option (List ℕ)) → Caller → CreateKeyRequest → Call
  updating_key : Env → Caller → UpdateKeyRequest → Call
  revoking_key unrevoking_key : Env → Caller → Text → Call
  deleting_key : Env → Caller → Text → Option Bool → Call
  granting_module : Env → Caller → Text → Grant → Call
  revoking_module : Env → Caller → Text → ℤ → Call
  resetting_trial : Env → Caller → Text → ℤ → Call
  kicking_device : Env → Caller → Text → Text → Call

abbrev pub no_rows : Db
no_rows = record { keys = []; entitlements = []; devices = []; trials = []; apps = [] }

module _ (d : Deps) (s : Service d) where
  -- The database after a call.
  unfoldable pub after : Call → Db → Db
  after (activating env req) db = (activate d s env req db).1
  after (deactivating env req) db = (deactivate d s env req db).1
  after (starting_trial env req) db = (trial_start d s env req db).1
  after (creating_key env random c req) db = (create_key d env random c req db).1
  after (updating_key env c req) db = (update_key d env c req db).1
  after (revoking_key env c id) db = (revoke_key d env c id db).1
  after (unrevoking_key env c id) db = (unrevoke_key d env c id db).1
  after (deleting_key env c id confirm) db = (delete_key d env c id confirm db).1
  after (granting_module env c id g) db = (grant_module d s env c id g db).1
  after (revoking_module env c id m) db = (revoke_module d s env c id m db).1
  after (resetting_trial env c fp m) db = (reset_trial d s env c fp m db).1
  after (kicking_device env c id token) db = (kick_device d env c id token db).1

  -- The databases that the service can get to.
  pub data Reachable : Db → Type 0 where
    fresh : Reachable no_rows
    called : (call : Call) (db : Db) → Reachable db → Reachable (after call db)

  after-WellFormed : (call : Call) (db : Db) → WellFormed db → WellFormed (after call db)
  unfolding after
  after-WellFormed (activating env req) db good = activate-WellFormed d s env req db good
  after-WellFormed (deactivating env req) db good = deactivate-WellFormed d s env req db good
  after-WellFormed (starting_trial env req) db good = trial_start-WellFormed d s env req db good
  after-WellFormed (creating_key env random c req) db good =
      create_key-WellFormed d env random c req db good
  after-WellFormed (updating_key env c req) db good = update_key-WellFormed d env c req db good
  after-WellFormed (revoking_key env c id) db good = revoke_key-WellFormed d env c id db good
  after-WellFormed (unrevoking_key env c id) db good = unrevoke_key-WellFormed d env c id db good
  after-WellFormed (deleting_key env c id confirm) db good =
      delete_key-WellFormed d env c id confirm db good
  after-WellFormed (granting_module env c id g) db good =
      grant_module-WellFormed d s env c id g db good
  after-WellFormed (revoking_module env c id m) db good =
      revoke_module-WellFormed d s env c id m db good
  after-WellFormed (resetting_trial env c fp m) db good =
      reset_trial-WellFormed d s env c fp m db good
  after-WellFormed (kicking_device env c id token) db good =
      kick_device-WellFormed d s env c id token db good

  pub no_rows-WellFormed : WellFormed no_rows
  unfolding count
  no_rows-WellFormed = record {
    distinct = λ h t. omega arith;
    sound = refl;
    few = λ h. omega arith;
    owned = λ h _. (refl, refl);
  }

  -- In every database that the service gets to from an empty one, by any calls of the client's and
  -- the operators' RPCs in any order, whatever statements fail, a device has at most one slot of a
  -- key, a key that is not there has no devices and no entitlements, every key has between 1 and 100
  -- slots and a time of revocation exactly if it is revoked, and no key has over 100 devices.
  pub Reachable-WellFormed : (db : Db) → Reachable db → WellFormed db
  Reachable-WellFormed _ fresh = no_rows-WellFormed
  Reachable-WellFormed _ (called call db before) =
      after-WellFormed call db (Reachable-WellFormed db before)
