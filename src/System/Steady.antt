-- ===== src/System/Steady.antt =====
-- The calls of clients and operators that leave the table of keys as it is.
use license_service.Prelude.{
  ℕ, ◌≡◌, refl, sym, ◌∙◌, ap, subst, Text, List, [], ◌∷◌, ◌++◌, Option, arith, ℤ, Bool,
}
use license_service.Xcodes.{ok, bind-cases, ok-injective}
use license_service.Store.Models.{Db, LicenseEntitlement, LicenseTrial}
use license_service.Store.Atomic.{transaction-keeps, guard-keeps}
use license_service.Store.Reply.{Env, internal}
use license_service.Store.Key.{get_key_for_update}
use license_service.Store.Entitlement.{
  get_entitlement, list_entitlements_by_key_hash, upsert_entitlement, upsert_entitlement_lem,
}
use license_service.Activation.Keys.{module_from_wire}
use license_service.Activation.Service.{Deps, Service, allow, purpose_activate, purpose_trial}
use license_service.Activation.Slots.{occupy_slot}
use license_service.Activation.Slots.Effect.{occupy_slot-Occupied}
use license_service.Activation.Handlers.{
  ActivateRequest, DeactivateRequest, TrialStartRequest, normalize_request_key, activate_tx,
  activate, deactivate_tx, deactivate, live_key, from, refuse_entitled, trial_key_tx, ledger_tx,
  trial_tx, trial_start,
}
use license_service.Activation.Handlers.Inversion.{activate_tx-Activates}
use license_service.Admin.Scope.{Caller}
use license_service.Admin.Expiry.{Grant, grant_row}
use license_service.Admin.View.{EntitlementInfo, resolve_key}
use license_service.Admin.Grants.{
  current_expiry, grant_module_tx, grant_module, revoke_module_tx, revoke_module, reset_trial_tx,
  reset_trial,
}
use license_service.Admin.Devices.{kick_device_tx, kick_device}
use license_service.System.Client.{activate_reply-after, deactivate_tx_only}
use license_service.System.Operator.{as_operator-keeps}
use license_service.System.Trial.{ledger_tx_only, trial_reply-after}
use license_service.System.Grants.{revoke_module_tx_only, reset_trial_tx_only, kick_device_tx_only}

-- The other tables may change.
abbrev pub SameKeys : Db → Db → Type 0
SameKeys db db' = db'.keys ≡ db.keys

module _ (d : Deps) (s : Service d) (env : Env) where
  open d use {sql}

  pub activate-SameKeys :
      (req : ActivateRequest) (db : Db) → SameKeys db (activate d s env req db).1
  unfolding activate
  activate-SameKeys req db =
      guard-keeps (SameKeys db) (normalize_request_key d s env req.key req.license_key) _ db refl
        λ h.
          guard-keeps (SameKeys db)
            (allow env s.window purpose_activate (h ++ b':' ∷ req.device_token)) _ db refl
            λ _. subst (SameKeys db) (sym (activate_reply-after d s env h req _)) (
              transaction-keeps (SameKeys db) (env.up 0) (env.up 9) (activate_tx d s env h req) db
                refl
                λ a db' e. ap (λ x. x.keys) (activate_tx-Activates d s env h req db e).only_devices)

  pub deactivate-SameKeys :
      (req : DeactivateRequest) (db : Db) → SameKeys db (deactivate d s env req db).1
  unfolding deactivate
  deactivate-SameKeys req db =
      guard-keeps (SameKeys db) (normalize_request_key d s env req.key req.license_key) _ db refl
        λ h.
          guard-keeps (SameKeys db)
            (allow env s.window purpose_activate (h ++ b':' ∷ req.device_token)) _ db refl
            λ _.
              transaction-keeps (SameKeys db) (env.up 0) (env.up 5)
                (deactivate_tx d s env h req.device_token) db refl
                λ released db' e.
                  ap (λ x. x.keys) (deactivate_tx_only d s env h req.device_token db e)

  trial_key_tx-SameKeys :
      (raw : List ℕ) (m : ℤ) (req : TrialStartRequest) (db : Db)
      {keyed : Option (Text × List LicenseEntitlement)} {db' : Db}
      → trial_key_tx d s env raw m req db ≡ ok (keyed, db')
      → SameKeys db db'
  unfolding trial_key_tx
  trial_key_tx-SameKeys [] m req db e = sym (ap (λ r. r.1.keys) (ok-injective e))
  trial_key_tx-SameKeys (c ∷ raw) m req db e =
      bind-cases (normalize_request_key d s env (c ∷ raw) []) _ e λ h _ e₁.
        bind-cases (live_key (get_key_for_update sql (env.up 1) h db)) _ e₁ λ k _ e₂.
          bind-cases (internal (list_entitlements_by_key_hash sql (env.up 2) h db)) _ e₂
            λ ents _ e₃. bind-cases (refuse_entitled d s env 4 m ents) _ e₃ λ _ _ e₄.
              bind-cases
                (occupy_slot sql (from 3 env.up) (env.clock 0) env.stamp h req.fingerprint_id
                  req.device_token [] k.max_slots db)
                _ e₄
                λ db₁ occupied e₅.
                  let slot =
                    occupy_slot-Occupied sql (from 3 env.up) (env.clock 0) env.stamp h
                      req.fingerprint_id req.device_token [] k.max_slots db occupied in
                  sym (ap (λ r. r.1.keys) (ok-injective e₅)) ∙ ap (λ x. x.keys) slot.1

  trial_tx-SameKeys :
      (m : ℤ) (req : TrialStartRequest) (db : Db)
      {out : LicenseTrial × Bool × Option (Text × List LicenseEntitlement)} {db' : Db}
      → trial_tx d s env m req db ≡ ok (out, db')
      → SameKeys db db'
  unfolding trial_tx
  trial_tx-SameKeys m req db e =
      bind-cases (trial_key_tx d s env req.license_key m req db) _ e λ keyed with_key e₁.
        bind-cases (ledger_tx d s env m req keyed.1) _ e₁ λ row ledgered e₂.
          sym (ap (λ r. r.1.keys) (ok-injective e₂))
          ∙ ap (λ x. x.keys) (ledger_tx_only d s env m req keyed.1 row ledgered)
          ∙ trial_key_tx-SameKeys req.license_key m req db with_key

  pub trial_start-SameKeys :
      (req : TrialStartRequest) (db : Db) → SameKeys db (trial_start d s env req db).1
  unfolding trial_start
  trial_start-SameKeys req db =
      guard-keeps (SameKeys db) (module_from_wire req.module_name) _ db refl λ m.
        guard-keeps (SameKeys db)
          (allow env s.window purpose_trial (req.fingerprint_id ++ b':' ∷ req.device_token)) _ db
          refl
          λ _. subst (SameKeys db) (sym (trial_reply-after d s env req _)) (
            transaction-keeps (SameKeys db) (env.up 0) (env.up 10) (trial_tx d s env m req) db refl
              λ out db' e. trial_tx-SameKeys m req db e)

  grant_module_tx-SameKeys :
      (id : Text) (g : Grant) (db : Db) {info : EntitlementInfo} {db' : Db}
      → grant_module_tx d s env id g db ≡ ok (info, db')
      → SameKeys db db'
  unfolding grant_module_tx
  grant_module_tx-SameKeys id g db e =
      bind-cases (resolve_key sql (env.up 1) id db) _ e λ k named e₁.
        bind-cases (current_expiry (get_entitlement sql (env.up 2) k.key_hash g.module_id db)) _ e₁
          λ current _ e₂.
            bind-cases (grant_row k.key_hash g current (env.clock 0) env.stamp) _ e₂
              λ row granted e₃.
                bind-cases (internal (upsert_entitlement sql (env.up 3) row db)) _ e₃
                  λ db₁ written e₄.
                    let step : db₁.keys ≡ db.keys =
                      ground (arith, written, upsert_entitlement_lem sql (env.up 3) row db) in
                    sym (ap (λ r. r.1.keys) (ok-injective e₄)) ∙ step

  module _ (c : Caller) (db : Db) where
    pub grant_module-SameKeys :
        (id : Text) (g : Grant) → SameKeys db (grant_module d s env c id g db).1
    unfolding grant_module
    grant_module-SameKeys id g = as_operator-keeps (SameKeys db) c _ db refl (
        transaction-keeps (SameKeys db) (env.up 0) (env.up 9) (grant_module_tx d s env id g) db refl
          λ info db' e. grant_module_tx-SameKeys id g db e)

    pub revoke_module-SameKeys :
        (id : Text) (m : ℤ) → SameKeys db (revoke_module d s env c id m db).1
    unfolding revoke_module
    revoke_module-SameKeys id m = as_operator-keeps (SameKeys db) c _ db refl (
        transaction-keeps (SameKeys db) (env.up 0) (env.up 9) (revoke_module_tx d s env id m) db
          refl λ u db' e. ap (λ x. x.keys) (revoke_module_tx_only d s env id m db e).1)

    pub reset_trial-SameKeys : (fp : Text) (m : ℤ) → SameKeys db (reset_trial d s env c fp m db).1
    unfolding reset_trial
    reset_trial-SameKeys fp m = as_operator-keeps (SameKeys db) c _ db refl (
        transaction-keeps (SameKeys db) (env.up 0) (env.up 9) (reset_trial_tx d s env fp m) db refl
          λ reset db' e. ap (λ x. x.keys) (reset_trial_tx_only d s env fp m db e))

    pub kick_device-SameKeys : (id token : Text) → SameKeys db (kick_device d env c id token db).1
    unfolding kick_device
    kick_device-SameKeys id token = as_operator-keeps (SameKeys db) c _ db refl (
        transaction-keeps (SameKeys db) (env.up 0) (env.up 9) (kick_device_tx d env id token) db
          refl λ kicked db' e. ap (λ x. x.keys) (kick_device_tx_only d s env id token db e).1)
