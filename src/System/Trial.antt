-- ===== src/System/Trial.antt =====
-- TrialStart and the well-formedness of the database.
use license_service.Prelude.{
  ℕ, ◌≡◌, refl, sym, ap, subst, Bool, Text, List, [], ◌∷◌, ◌++◌, Option, none, some, arith, ℤ, inl,
  inr,
}
use license_service.Xcodes.{Result, ok, err, bind-cases, ok-injective, ◌>>=◌}
use license_service.Store.Models.{Db, LicenseTrial, LicenseEntitlement}
use license_service.Store.Rows.{count-first-some}
use license_service.Store.Atomic.{transaction-keeps, guard-keeps}
use license_service.Store.Reply.{Env, Fetch, Fetch-cases, internal, found, record_not_found, failed}
use license_service.Store.Key.{has_hash, get_key_for_update}
use license_service.Store.Entitlement.{list_entitlements_by_key_hash}
use license_service.Store.Trial.{get_trial, insert_trial_on_conflict_do_nothing, insert_trial_lem}
use license_service.Activation.Keys.{module_from_wire}
use license_service.Activation.Service.{Deps, Service, allow, purpose_trial}
use license_service.Activation.Slots.{occupy_slot}
use license_service.Activation.Slots.Effect.{occupy_slot-Occupied}
use license_service.Activation.Handlers.{
  TrialStartRequest, live_key, from, normalize_request_key, refuse_entitled, trial_key_tx,
  first_trial, reread, ledger_tx, trial_tx, trial_reply, trial_start,
}
use license_service.Activation.Handlers.Inversion.{live_key-ok}
use license_service.System.Ownership.{WellFormed, trials-WellFormed, read_key_sound}
use license_service.System.Client.{Occupied-WellFormed}

module _ (d : Deps) (s : Service d) (env : Env) where
  open d use {sql}

  trial_key_tx-WellFormed :
      (raw : List ℕ) (m : ℤ) (req : TrialStartRequest) (db : Db)
      {keyed : Option (Text × List LicenseEntitlement)} {db' : Db}
      → WellFormed db
      → trial_key_tx d s env raw m req db ≡ ok (keyed, db')
      → WellFormed db'
  unfolding trial_key_tx
  trial_key_tx-WellFormed [] m req db good e =
      subst WellFormed (ap (λ r. r.1) (ok-injective e)) good
  trial_key_tx-WellFormed (c ∷ raw) m req db good e =
      bind-cases (normalize_request_key d s env (c ∷ raw) []) _ e λ h _ e₁.
        bind-cases (live_key (get_key_for_update sql (env.up 1) h db)) _ e₁ λ k found_key e₂.
          bind-cases (internal (list_entitlements_by_key_hash sql (env.up 2) h db)) _ e₂
            λ ents _ e₃. bind-cases (refuse_entitled d s env 4 m ents) _ e₃ λ _ _ e₄.
              bind-cases
                (occupy_slot sql (from 3 env.up) (env.clock 0) env.stamp h req.fingerprint_id
                  req.device_token [] k.max_slots db)
                _ e₄
                λ db₁ occupied e₅.
                  let row = live_key-ok d s env h db found_key in
                  let slot =
                    occupy_slot-Occupied sql (from 3 env.up) (env.clock 0) env.stamp h
                      req.fingerprint_id req.device_token [] k.max_slots db occupied in
                  subst WellFormed (ap (λ r. r.1) (ok-injective e₅)) (
                    Occupied-WellFormed h req.device_token req.fingerprint_id [] (env.clock 0)
                      env.stamp k.max_slots db db₁ good
                      (count-first-some (has_hash h) db.keys row.0)
                      (read_key_sound db good (has_hash h) row.0) slot.0 slot.1)

  reread-same :
      (r : Fetch LicenseTrial) (db : Db) {row : LicenseTrial × Bool × Db}
      → reread d s env r db ≡ ok row
      → row.2 ≡ db
  unfolding reread
  reread-same (found t) db e = sym (ap (λ r. r.2) (ok-injective e))
  reread-same record_not_found db e = absurd cc
  reread-same failed db e = absurd cc

  first_start_only :
      (m : ℤ) (req : TrialStartRequest) (db : Db) (row : LicenseTrial × Bool × Db)
      → (internal
            (insert_trial_on_conflict_do_nothing sql (env.up 8) (first_trial d s env m req) db)
          >>= λ db. reread d s env (get_trial sql (env.up 9) req.fingerprint_id m db) db)
        ≡ ok row
      → row.2 ≡ record db { trials = row.2.trials }
  first_start_only m req db row e =
      bind-cases
        (internal
          (insert_trial_on_conflict_do_nothing sql (env.up 8) (first_trial d s env m req) db))
        _ e
        λ db₁ inserted e₁.
          let kept : db₁ ≡ record db { trials = db₁.trials } =
            ground
              (arith, inserted, insert_trial_lem sql (env.up 8) (first_trial d s env m req) db) in
          subst (λ x. x ≡ record db { trials = x.trials })
            (sym (reread-same (get_trial sql (env.up 9) req.fingerprint_id m db₁) db₁ e₁)) kept

  pub ledger_tx_only :
      (m : ℤ) (req : TrialStartRequest) (db : Db) (row : LicenseTrial × Bool × Db)
      → ledger_tx d s env m req db ≡ ok row
      → row.2 ≡ record db { trials = row.2.trials }
  unfolding ledger_tx
  ledger_tx_only m req db row e =
      elim (Fetch-cases (get_trial sql (env.up 7) req.fingerprint_id m db)) [
        | inl (t, there) ↦
            let same : db ≡ row.2 = ground (arith, there) in
            subst (λ x. x ≡ record db { trials = x.trials }) same refl
        | inr (inl missing) ↦ first_start_only m req db row (rw (missing, ledger_tx) at e)
        | inr (inr broken) ↦ absurd (ground (arith, broken))
      ]

  trial_tx-WellFormed :
      (m : ℤ) (req : TrialStartRequest) (db : Db)
      {out : LicenseTrial × Bool × Option (Text × List LicenseEntitlement)} {db' : Db}
      → WellFormed db
      → trial_tx d s env m req db ≡ ok (out, db')
      → WellFormed db'
  unfolding trial_tx
  trial_tx-WellFormed m req db good e =
      bind-cases (trial_key_tx d s env req.license_key m req db) _ e λ keyed with_key e₁.
        bind-cases (ledger_tx d s env m req keyed.1) _ e₁ λ row ledgered e₂.
          subst WellFormed (ap (λ r. r.1) (ok-injective e₂)) (
            subst WellFormed (sym (ledger_tx_only m req keyed.1 row ledgered)) (
              trials-WellFormed keyed.1
                (trial_key_tx-WellFormed req.license_key m req db good with_key) row.2.trials))

  pub trial_reply-after :
      (req : TrialStartRequest)
      (r : Result (LicenseTrial × Bool × Option (Text × List LicenseEntitlement)) × Db)
      → (trial_reply d s env req r).1 ≡ r.1
  unfolding trial_reply
  trial_reply-after req (err e, db) = refl
  trial_reply-after req (ok (t, already, none), db) = refl
  trial_reply-after req (ok (t, already, some (h, ents)), db) = refl

  pub trial_start-WellFormed :
      (req : TrialStartRequest) (db : Db)
      → WellFormed db
      → WellFormed (trial_start d s env req db).1
  unfolding trial_start
  trial_start-WellFormed req db good =
      guard-keeps WellFormed (module_from_wire req.module_name) _ db good λ m.
        guard-keeps WellFormed
          (allow env s.window purpose_trial (req.fingerprint_id ++ b':' ∷ req.device_token)) _ db
          good
          λ _. subst WellFormed (sym (trial_reply-after req _)) (
            transaction-keeps WellFormed (env.up 0) (env.up 10) (trial_tx d s env m req) db good
              λ out db' e. trial_tx-WellFormed m req db good e)
