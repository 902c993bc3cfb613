-- ===== src/Activation/Concurrent.antt =====
-- `Activate` and `TrialStart` of activation.go while other transactions run: at READ COMMITTED a
-- statement sees what the call has written and what others have committed by then.
pub mod Alone
pub mod Bound
pub mod Collapse
use license_service.Prelude.{
  ℕ, Bool, true, false, not, Text, str_eq, List, [], if◌then◌else◌, ℤ, pos, leb_ℤ, map,
}
use license_service.Xcodes.{
  Result, ok, err, plain, detailed, Code, slot_limit, slot_limit_info, ◌>>=◌,
}
use license_service.Store.Models.{Db, LicenseTrial}
use license_service.Store.Reply.{Env, Fetch, found, record_not_found, failed, internal}
use license_service.Store.Device.{
  get_device, count_devices_by_key_hash, list_devices_by_key_hash, touch_device, insert_device,
  delete_device,
}
use license_service.Store.Key.{get_key_for_update}
use license_service.Store.Entitlement.{list_entitlements_by_key_hash}
use license_service.Store.Trial.{
  get_trial, insert_trial_on_conflict_do_nothing, list_trials_by_fingerprint,
}
use license_service.Activation.Service.{Deps, Service}
use license_service.Activation.Slots.{new_slot, device_to_proto}
use license_service.Activation.Handlers.{
  ActivateRequest, TrialStartRequest, Activated, live_key, first_trial, reread,
}

-- `others n` is what other transactions commit between the statements n - 1 and n of the call.
module _ (d : Deps) (s : Service d) (env : Env) (others : ℕ → Db → Db) where
  open d use {sql}

  unfoldable pub evict_among : Text → Text → Db → Result Db
  evict_among h token db =
      if str_eq token []
      then ok (others 2 db)
      else internal (delete_device sql (env.up 2) h token (others 2 db))

  unfoldable pub refuse_among : Text → ℤ → Db → Result Db
  refuse_among h max_slots db = do
    roster ← internal (list_devices_by_key_hash sql (env.up 5) h (others 5 db))
    err (detailed slot_limit (slot_limit_info max_slots (map device_to_proto roster)))

  -- On what the count sees.
  unfoldable pub take_among : Text → Text → Text → ℤ → Db → Result Db
  take_among h fp token max_slots db = do
    n ← internal (count_devices_by_key_hash sql (env.up 4) h db)
    if leb_ℤ max_slots (pos n)
        then refuse_among h max_slots db
        else internal (
            insert_device sql (env.up 5) (new_slot h fp token (env.clock 0) env.stamp)
              (others 5 db))

  -- On what the lookup of the device sees.
  unfoldable pub settle_among : Text → Text → Text → ℤ → Db → Result Db
  settle_among h fp token max_slots db = elim (get_device sql (env.up 3) h token db) [
    | found dev ↦ internal (
        touch_device sql (env.up 4) h token fp (env.clock 0) (not (str_eq dev.fingerprint_id fp))
          (others 4 db))
    | record_not_found ↦ take_among h fp token max_slots (others 4 db)
    | failed ↦ err (plain Code.internal)
  ]

  unfoldable pub activate_among : Text → ActivateRequest → Db → Result (Activated × Db)
  activate_among h req db = do
    k ← live_key (get_key_for_update sql (env.up 1) h (others 1 db))
    db ← evict_among h req.evict_device_token (others 1 db)
    db ← settle_among h req.fingerprint_id req.device_token k.max_slots (others 3 db)
    devices ← internal (list_devices_by_key_hash sql (env.up 6) h (others 6 db))
    ents ← internal (list_entitlements_by_key_hash sql (env.up 7) h (others 7 (others 6 db)))
    let seen = others 8 (others 7 (others 6 db))
    trials ← internal (list_trials_by_fingerprint sql (env.up 8) req.fingerprint_id seen)
    ok (record { key = k; devices = devices; ents = ents; trials = trials }, seen)

  -- The ledger of `TrialStart`: the lookup is statement 7, the insert 8, the second lookup 9.
  unfoldable pub ledger_among : ℤ → TrialStartRequest → Db → Result (LicenseTrial × Bool × Db)
  ledger_among m req db = elim (get_trial sql (env.up 7) req.fingerprint_id m (others 7 db)) [
    | found tr ↦ ok (tr, true, others 7 db)
    | record_not_found ↦ do
      db ← internal (
          insert_trial_on_conflict_do_nothing sql (env.up 8) (first_trial d s env m req)
            (others 8 (others 7 db)))
      reread d s env (get_trial sql (env.up 9) req.fingerprint_id m (others 9 db)) (others 9 db)
    | failed ↦ err (plain Code.internal)
  ]
