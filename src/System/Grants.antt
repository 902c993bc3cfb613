-- ===== src/System/Grants.antt =====
-- GrantModule, RevokeModule, KickDevice and ResetTrial, and the well-formedness of the database.
use license_service.Prelude.{◌≡◌, sym, ◌∙◌, ap, subst, Bool, Text, arith, ℤ, inl, inr}
use license_service.Xcodes.{ok, bind-cases, ok-injective}
use license_service.Store.Models.{Db}
use license_service.Store.Rows.{remove}
use license_service.Store.Atomic.{transaction-keeps}
use license_service.Store.Reply.{Env, Fetch-cases, internal}
use license_service.Store.Device.{
  is_slot, delete_device, delete_device_lem, count_devices_by_key_hash,
}
use license_service.Store.Entitlement.{
  of_module, get_entitlement, upsert_entitlement, delete_entitlement, delete_entitlement_lem,
}
use license_service.Store.Trial.{get_trial, delete_trial, delete_trial_lem}
use license_service.Activation.Service.{Deps, Service}
use license_service.Admin.Scope.{Caller}
use license_service.Admin.Expiry.{Grant, grant_row}
use license_service.Admin.View.{EntitlementInfo, resolve_key}
use license_service.Admin.Grants.{
  current_expiry, grant_module_tx, grant_module, revoke_module_tx, revoke_module, reset_trial_tx,
  reset_trial,
}
use license_service.Admin.Devices.{kick_device_tx, kick_device}
use license_service.System.Ownership.{
  WellFormed, HasOwner, removed_entitlements-WellFormed, removed_devices-WellFormed,
  trials-WellFormed,
}
use license_service.System.Operator.{
  as_operator-WellFormed, grant_row-key_hash, resolve_key-HasOwner, upsert-WellFormed,
}

module _ (d : Deps) (s : Service d) (env : Env) where
  open d use {sql}

  grant_module_tx-WellFormed :
      (id : Text) (g : Grant) (db : Db) {info : EntitlementInfo} {db' : Db}
      → WellFormed db
      → grant_module_tx d s env id g db ≡ ok (info, db')
      → WellFormed db'
  unfolding grant_module_tx
  grant_module_tx-WellFormed id g db good e =
      bind-cases (resolve_key sql (env.up 1) id db) _ e λ k named e₁.
        bind-cases (current_expiry (get_entitlement sql (env.up 2) k.key_hash g.module_id db)) _ e₁
          λ current _ e₂.
            bind-cases (grant_row k.key_hash g current (env.clock 0) env.stamp) _ e₂
              λ row granted e₃.
                bind-cases (internal (upsert_entitlement sql (env.up 3) row db)) _ e₃
                  λ db₁ written e₄.
                    let mine =
                      grant_row-key_hash k.key_hash g current (env.clock 0) env.stamp granted in
                    let owner = resolve_key-HasOwner d env (env.up 1) id db named in
                    let step =
                      upsert-WellFormed d env (env.up 3) row db good
                        (subst (λ x. HasOwner x db) (sym mine) owner) written in
                    subst WellFormed (ap (λ r. r.1) (ok-injective e₄)) step.0

  pub grant_module-WellFormed :
      (c : Caller) (id : Text) (g : Grant) (db : Db)
      → WellFormed db
      → WellFormed (grant_module d s env c id g db).1
  unfolding grant_module
  grant_module-WellFormed c id g db good = as_operator-WellFormed c _ db good (
      transaction-keeps WellFormed (env.up 0) (env.up 9) (grant_module_tx d s env id g) db good
        λ info db' e. grant_module_tx-WellFormed id g db good e)

  pub revoke_module_tx_only :
      (id : Text) (m : ℤ) (db : Db) {u : Unit {0}} {db' : Db}
      → revoke_module_tx d s env id m db ≡ ok (u, db')
      → (h : Text) × (db' ≡ record db { entitlements = remove (of_module h m) db.entitlements })
  unfolding revoke_module_tx
  revoke_module_tx_only id m db e = bind-cases (resolve_key sql (env.up 1) id db) _ e λ k _ e₁.
      bind-cases (internal (delete_entitlement sql (env.up 2) k.key_hash m db)) _ e₁
        λ db₁ deleted e₂.
          let step : db₁
              ≡ record db { entitlements = remove (of_module k.key_hash m) db.entitlements } =
            ground (arith, deleted, delete_entitlement_lem sql (env.up 2) k.key_hash m db) in
          (k.key_hash, sym (ap (λ r. r.1) (ok-injective e₂)) ∙ step)

  pub revoke_module-WellFormed :
      (c : Caller) (id : Text) (m : ℤ) (db : Db)
      → WellFormed db
      → WellFormed (revoke_module d s env c id m db).1
  unfolding revoke_module
  revoke_module-WellFormed c id m db good = as_operator-WellFormed c _ db good (
      transaction-keeps WellFormed (env.up 0) (env.up 9) (revoke_module_tx d s env id m) db good
        λ u db' e.
          let (h, only) = revoke_module_tx_only id m db e in
          subst WellFormed (sym only) (removed_entitlements-WellFormed db good (of_module h m)))

  pub reset_trial_tx_only :
      (fp : Text) (m : ℤ) (db : Db) {reset : Bool} {db' : Db}
      → reset_trial_tx d s env fp m db ≡ ok (reset, db')
      → db' ≡ record db { trials = db'.trials }
  unfolding reset_trial_tx
  reset_trial_tx_only fp m db {reset} {db'} e =
      elim (Fetch-cases (get_trial sql (env.up 1) fp m db)) [
        | inl (t, there) ↦
            bind-cases (internal (delete_trial sql (env.up 2) fp m db)) _
              (rw (there, reset_trial_tx) at e)
              λ db₁ deleted e₁.
                let kept : db₁ ≡ record db { trials = db₁.trials } =
                  ground (arith, deleted, delete_trial_lem sql (env.up 2) fp m db) in
                subst (λ x. x ≡ record db { trials = x.trials }) (ap (λ r. r.1) (ok-injective e₁))
                  kept
        | inr (inl missing) ↦ ground (arith, missing)
        | inr (inr broken) ↦ absurd (ground (arith, broken))
      ]

  pub reset_trial-WellFormed :
      (c : Caller) (fp : Text) (m : ℤ) (db : Db)
      → WellFormed db
      → WellFormed (reset_trial d s env c fp m db).1
  unfolding reset_trial
  reset_trial-WellFormed c fp m db good = as_operator-WellFormed c _ db good (
      transaction-keeps WellFormed (env.up 0) (env.up 9) (reset_trial_tx d s env fp m) db good
        λ reset db' e.
          subst WellFormed (sym (reset_trial_tx_only fp m db e))
            (trials-WellFormed db good db'.trials))

  pub kick_device_tx_only :
      (id token : Text) (db : Db) {kicked : Bool} {db' : Db}
      → kick_device_tx d env id token db ≡ ok (kicked, db')
      → (h : Text) × (db' ≡ record db { devices = remove (is_slot h token) db.devices })
  unfolding kick_device_tx
  kick_device_tx_only id token db e = bind-cases (resolve_key sql (env.up 1) id db) _ e λ k _ e₁.
      bind-cases (internal (count_devices_by_key_hash sql (env.up 2) k.key_hash db)) _ e₁
        λ before _ e₂.
          bind-cases (internal (delete_device sql (env.up 3) k.key_hash token db)) _ e₂
            λ db₁ deleted e₃.
              bind-cases (internal (count_devices_by_key_hash sql (env.up 4) k.key_hash db₁)) _ e₃
                λ after _ e₄.
                  let step : db₁
                      ≡ record db { devices = remove (is_slot k.key_hash token) db.devices } =
                    ground (arith, deleted, delete_device_lem sql (env.up 3) k.key_hash token db) in
                  (k.key_hash, sym (ap (λ r. r.1) (ok-injective e₄)) ∙ step)

  pub kick_device-WellFormed :
      (c : Caller) (id token : Text) (db : Db)
      → WellFormed db
      → WellFormed (kick_device d env c id token db).1
  unfolding kick_device
  kick_device-WellFormed c id token db good = as_operator-WellFormed c _ db good (
      transaction-keeps WellFormed (env.up 0) (env.up 9) (kick_device_tx d env id token) db good
        λ kicked db' e.
          let (h, only) = kick_device_tx_only id token db e in
          subst WellFormed (sym only) (removed_devices-WellFormed db good (is_slot h token)))
