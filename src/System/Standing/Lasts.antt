-- ===== src/System/Standing/Lasts.antt =====
-- How long a revocation lasts: the calls of clients and operators after it.
use license_service.Prelude.{◌≡◌, Bool, false, Text, [], ◌∷◌, ◌++◌, arith, some, subst}
use license_service.Xcodes.{ok, err}
use license_service.Store.Models.{Db, LicenseKey}
use license_service.Store.Rows.{first}
use license_service.Store.Reply.{Env}
use license_service.Activation.Service.{Deps, Service, allow, purpose_activate}
use license_service.Activation.Handlers.{
  ActivateRequest, TrialStartRequest, normalize_request_key, activate, deactivate, trial_start,
}
use license_service.Admin.Scope.{Caller}
use license_service.Admin.View.{KeyInfo}
use license_service.Admin.Keys.{revoke_key}
use license_service.Admin.Grants.{grant_module, revoke_module, reset_trial}
use license_service.Admin.Devices.{kick_device}
use license_service.System.Reachable.{
  Call, activating, deactivating, starting_trial, creating_key, updating_key, revoking_key,
  unrevoking_key, deleting_key, granting_module, revoking_module, resetting_trial, kicking_device,
  after,
}
use license_service.System.Steady.{
  activate-SameKeys, deactivate-SameKeys, trial_start-SameKeys, grant_module-SameKeys,
  revoke_module-SameKeys, reset_trial-SameKeys, kick_device-SameKeys,
}
use license_service.System.Operator.{names}
use license_service.System.Standing.{Banned, revoke_key-Banned}
use license_service.System.Standing.Refusal.{
  refusal, trial_admission, activate-Banned, trial_start-Banned,
}
use license_service.System.Standing.Kept.{SameKeys-Banned}
use license_service.System.Standing.Operators.{
  concerns, create_key-Banned, update_key-Banned, revoke_again-Banned, unrevoke_other-Banned,
  delete_other-Banned,
}

-- UnrevokeKey or DeleteKey of the key.
unfoldable pub lifts : Text → Call → Db → Bool
lifts h (unrevoking_key env c id) db = concerns h id db
lifts h (deleting_key env c id confirm) db = concerns h id db
lifts h _ db = false

module _ (d : Deps) (s : Service d) (h : Text) where
  -- The databases that the service gets to from `start` by calls that do not lift a revocation.
  pub data Unlifted (start : Db) : Db → Type 0 where
    stays : Unlifted start start
    called :
        (call : Call) (db : Db)
        → lifts h call db ≡ false
        → Unlifted start db
        → Unlifted start (after d s call db)

  after-Banned :
      (call : Call) (db : Db) → lifts h call db ≡ false → Banned h db → Banned h (after d s call db)
  unfolding after lifts
  after-Banned (activating env req) db still banned =
      SameKeys-Banned h db (activate d s env req db).1 (activate-SameKeys d s env req db) banned
  after-Banned (deactivating env req) db still banned =
      SameKeys-Banned h db (deactivate d s env req db).1 (deactivate-SameKeys d s env req db) banned
  after-Banned (starting_trial env req) db still banned =
      SameKeys-Banned h db (trial_start d s env req db).1 (trial_start-SameKeys d s env req db)
        banned
  after-Banned (creating_key env random c req) db still banned =
      create_key-Banned d env h random c req db banned
  after-Banned (updating_key env c req) db still banned = update_key-Banned d env h c req db banned
  after-Banned (revoking_key env c id) db still banned = revoke_again-Banned d env h c id db banned
  after-Banned (unrevoking_key env c id) db still banned =
      unrevoke_other-Banned d env h c id db still banned
  after-Banned (deleting_key env c id confirm) db still banned =
      delete_other-Banned d env h c id confirm db still banned
  after-Banned (granting_module env c id g) db still banned =
      SameKeys-Banned h db (grant_module d s env c id g db).1
        (grant_module-SameKeys d s env c db id g) banned
  after-Banned (revoking_module env c id m) db still banned =
      SameKeys-Banned h db (revoke_module d s env c id m db).1
        (revoke_module-SameKeys d s env c db id m) banned
  after-Banned (resetting_trial env c fp m) db still banned =
      SameKeys-Banned h db (reset_trial d s env c fp m db).1
        (reset_trial-SameKeys d s env c db fp m) banned
  after-Banned (kicking_device env c id token) db still banned =
      SameKeys-Banned h db (kick_device d env c id token db).1
        (kick_device-SameKeys d s env c db id token) banned

  Unlifted-Banned : {start db : Db} → Unlifted start db → Banned h start → Banned h db
  Unlifted-Banned stays banned = banned
  Unlifted-Banned (called call db still before) banned =
      after-Banned call db still (Unlifted-Banned before banned)

module _ (d : Deps) (s : Service d) (env env' : Env) where
  lasting-Banned :
      (c : Caller) (id : Text) (db db₁ db₂ : Db) (info : KeyInfo) (k : LicenseKey)
      → first (names id) db.keys ≡ some k
      → revoke_key d env c id db ≡ (ok info, db₁)
      → Unlifted d s k.key_hash db₁ db₂
      → Banned k.key_hash db₂
  lasting-Banned c id db db₁ db₂ info k named revoked later =
      let (r, found_row, banned) = revoke_key-Banned d env c id db revoked in
      let same : r.key_hash ≡ k.key_hash = ground (arith, named, found_row) in
      Unlifted-Banned d s k.key_hash later (subst (λ h. Banned h db₁) same banned)

  -- After a RevokeKey that succeeds, and after any calls in any order and with any failures of which
  -- none is an UnrevokeKey or a DeleteKey of that key, every `Activate` and every `TrialStart` with
  -- the key ends with an error and leaves the database as it was: the module name's or the rate
  -- limiter's error where those refuse, else KEY_REVOKED, or the failure of the BEGIN or of the read
  -- of the key's row.
  pub revoke_key-refusal :
      (c : Caller) (id : Text) (db db₁ db₂ : Db) (info : KeyInfo) (k : LicenseKey)
      (req : ActivateRequest) (trial : TrialStartRequest)
      → first (names id) db.keys ≡ some k
      → revoke_key d env c id db ≡ (ok info, db₁)
      → Unlifted d s k.key_hash db₁ db₂
      → normalize_request_key d s env' req.key req.license_key ≡ ok k.key_hash
      → normalize_request_key d s env' trial.license_key [] ≡ ok k.key_hash
      → (activate d s env' req db₂ ≡ (
        err (
            refusal
              (allow env' s.window purpose_activate (k.key_hash ++ b':' ∷ req.device_token))
              (env'.up 0)
              (env'.up 1)),
        db₂,
      ))
        × (trial_start d s env' trial db₂
            ≡ (err (refusal (trial_admission d s env' trial) (env'.up 0) (env'.up 1)), db₂))
  revoke_key-refusal c id db db₁ db₂ info k req trial named revoked later accepted typed =
      let banned = lasting-Banned c id db db₁ db₂ info k named revoked later in
      (
        activate-Banned d s env' k.key_hash req db₂ accepted banned,
        trial_start-Banned d s env' k.key_hash trial db₂ typed banned,
      )
