-- ===== src/Activation/Handlers/Ledger.antt =====
-- What a successful `TrialStart` does to the trial ledger.
use license_service.Prelude.{
  str_eq, eq_ℤ, ◌&&◌, ℕ, ◌≡◌, refl, sym, ◌∙◌, ap, subst, Bool, true, false, Text, List, [], ◌∷◌,
  ◌++◌, Option, none, some, arith, ℤ, inl, inr,
}
use license_service.Xcodes.{Result, ok, err, bind-cases, ok-injective, Result-cases, ◌>>=◌}
use license_service.Store.Models.{Db, LicenseTrial, LicenseEntitlement}
use license_service.Store.Rows.{first}
use license_service.Store.Sql.{append_unique}
use license_service.Store.Atomic.{transaction-ok}
use license_service.Store.Reply.{
  Env, Fetch, Fetch-cases, transaction, internal, found, record_not_found, failed,
}
use license_service.Store.Key.{get_key_for_update}
use license_service.Store.Entitlement.{list_entitlements_by_key_hash}
use license_service.Store.Trial.{
  is_trial, get_trial, get_trial_lem, insert_trial_on_conflict_do_nothing, insert_trial_lem,
  list_trials_by_fingerprint,
}
use license_service.Activation.Keys.{module_from_wire}
use license_service.Activation.Service.{Deps, Service, allow, purpose_trial}
use license_service.Activation.Slots.{occupy_slot}
use license_service.Activation.Slots.Effect.{occupy_slot-Occupied}
use license_service.Activation.Certificate.{sign_cert}
use license_service.Activation.Handlers.{
  TrialStartRequest, TrialStartResponse, live_key, from, normalize_request_key, refuse_entitled,
  trial_key_tx, first_trial, reread, ledger_tx, trial_tx, trial_reply, trial_start,
}

-- The trial of a module on a fingerprint.
abbrev pub trial_of : Text → ℤ → LicenseTrial → Bool
trial_of fp m t = str_eq t.fingerprint_id fp && eq_ℤ t.module_id m

-- The row of the trial was there and nothing changes, or it is added behind the others; the flag says
-- which.
pub data Ledgered (fp : Text) (m : ℤ) (fresh : LicenseTrial) (ts ts' : List LicenseTrial)
    : Bool → Type 0 where
  kept :
      (t : LicenseTrial)
      → first (trial_of fp m) ts ≡ some t
      → ts' ≡ ts
      → Ledgered fp m fresh ts ts' true
  started :
      first (trial_of fp m) ts ≡ none → ts' ≡ ts ++ fresh ∷ [] → Ledgered fp m fresh ts ts' false

-- The row of a trial of the module that the device starts now.
abbrev pub started_now : Env → Text → Text → ℤ → LicenseTrial
started_now env fp token m = record {
  fingerprint_id = fp;
  module_id = m;
  started_at = env.clock 2;
  first_device_token = token;
  created_at = env.stamp;
}

module _ (d : Deps) (s : Service d) (env : Env) where
  open d use {sql}

  trial_key_tx-trials :
      (raw : List ℕ) (m : ℤ) (req : TrialStartRequest) (db : Db)
      {keyed : Option (Text × List LicenseEntitlement)} {db' : Db}
      → trial_key_tx d s env raw m req db ≡ ok (keyed, db')
      → db'.trials ≡ db.trials
  unfolding trial_key_tx
  trial_key_tx-trials [] m req db e = sym (ap (λ r. r.1.trials) (ok-injective e))
  trial_key_tx-trials (c ∷ raw) m req db e =
      bind-cases (normalize_request_key d s env (c ∷ raw) []) _ e λ h _ e₁.
        bind-cases (live_key (get_key_for_update sql (env.up 1) h db)) _ e₁ λ k found_key e₂.
          bind-cases (internal (list_entitlements_by_key_hash sql (env.up 2) h db)) _ e₂
            λ ents _ e₃. bind-cases (refuse_entitled d s env 4 m ents) _ e₃ λ _ _ e₄.
              bind-cases
                (occupy_slot sql (from 3 env.up) (env.clock 0) env.stamp h req.fingerprint_id
                  req.device_token [] k.max_slots db)
                _ e₄
                λ db₁ occupied e₅.
                  let slot =
                    occupy_slot-Occupied sql (from 3 env.up) (env.clock 0) env.stamp h
                      req.fingerprint_id req.device_token [] k.max_slots db occupied in
                  sym (ap (λ r. r.1.trials) (ok-injective e₅)) ∙ ap (λ x. x.trials) slot.1

  inserted_lem :
      (up : Bool) (t : LicenseTrial) (db : Db) {db' : Db}
      → first (is_trial t.fingerprint_id t.module_id) db.trials ≡ none
      → internal (insert_trial_on_conflict_do_nothing sql up t db) ≡ ok db'
      → db'.trials ≡ db.trials ++ t ∷ []
  unfolding append_unique
  inserted_lem up t db {db'} missing e = ground (arith, insert_trial_lem sql up t db, missing)

  reread_lem :
      (r : Fetch LicenseTrial) (db : Db) {row : LicenseTrial × Bool × Db}
      → reread d s env r db ≡ ok row
      → (row.1 ≡ false) × (row.2 ≡ db)
  unfolding reread
  reread_lem (found t) db e =
      (sym (ap (λ r. r.1) (ok-injective e)), sym (ap (λ r. r.2) (ok-injective e)))
  reread_lem record_not_found db e = absurd cc
  reread_lem failed db e = absurd cc

  ledger_tx-Ledgered :
      (m : ℤ) (req : TrialStartRequest) (db : Db) {row : LicenseTrial × Bool × Db}
      → ledger_tx d s env m req db ≡ ok row
      → Ledgered req.fingerprint_id m (first_trial d s env m req) db.trials row.2.trials row.1
  unfolding ledger_tx first_trial
  ledger_tx-Ledgered m req db {row} e =
      let fp = req.fingerprint_id in
      let fresh = first_trial d s env m req in
      let looked = get_trial_lem sql (env.up 7) fp m db in
      elim (Fetch-cases (get_trial sql (env.up 7) fp m db)) [
        | inl (t, there) ↦
            let stays : (row.1 ≡ true) × (row.2 ≡ db) =
              (ground (arith, there), ground (arith, there)) in
            let row_there : first (is_trial fp m) db.trials ≡ some t =
              ground (arith, there, looked) in
            subst (λ b. Ledgered fp m fresh db.trials row.2.trials b) (sym stays.0)
              (kept t row_there (ap (λ x. x.trials) stays.1))
        | inr (inl missing) ↦
            bind-cases (internal (insert_trial_on_conflict_do_nothing sql (env.up 8) fresh db)) _
              (rw (missing, ledger_tx) at e)
              λ db₁ inserted e₁.
                let none_there : first (is_trial fp m) db.trials ≡ none =
                  ground (arith, missing, looked) in
                let stays = reread_lem (get_trial sql (env.up 9) fp m db₁) db₁ e₁ in
                let grown = inserted_lem (env.up 8) fresh db none_there inserted in
                subst (λ b. Ledgered fp m fresh db.trials row.2.trials b) (sym stays.0)
                  (started none_there (ap (λ x. x.trials) stays.1 ∙ grown))
        | inr (inr broken) ↦ absurd (ground (arith, broken))
      ]

  pub trial_tx-Ledgered :
      (m : ℤ) (req : TrialStartRequest) (db : Db)
      {out : LicenseTrial × Bool × Option (Text × List LicenseEntitlement)} {db' : Db}
      → trial_tx d s env m req db ≡ ok (out, db')
      → Ledgered req.fingerprint_id m (first_trial d s env m req) db.trials db'.trials out.1
  unfolding trial_tx
  trial_tx-Ledgered m req db {out} {db'} e =
      let fp = req.fingerprint_id in
      let fresh = first_trial d s env m req in
      bind-cases (trial_key_tx d s env req.license_key m req db) _ e λ keyed with_key e₁.
        bind-cases (ledger_tx d s env m req keyed.1) _ e₁ λ row ledgered e₂.
          let before = trial_key_tx-trials req.license_key m req db with_key in
          let step = ledger_tx-Ledgered m req keyed.1 ledgered in
          let moved : Ledgered fp m fresh db.trials row.2.trials row.1 =
            subst (λ ts. Ledgered fp m fresh ts row.2.trials row.1) before step in
          subst (λ r. Ledgered fp m fresh db.trials r.1.trials r.0.1) (ok-injective e₂) moved

  abbrev reply_of : Bool → Text × Text → TrialStartResponse
  reply_of already signed = record {
    payload = signed.0;
    signature = signed.1;
    already_started = already;
  }

  signed-flag :
      (already : Bool) (r : Result (Text × Text)) {resp : TrialStartResponse}
      → (r >>= λ signed. ok (reply_of already signed)) ≡ ok resp
      → resp.already_started ≡ already
  signed-flag already (ok signed) e = sym (ap (λ r. r.already_started) (ok-injective e))
  signed-flag already (err x) e = absurd cc

  pub trial_reply-ok :
      (req : TrialStartRequest)
      (r : Result (LicenseTrial × Bool × Option (Text × List LicenseEntitlement))) (db : Db)
      {resp : TrialStartResponse} {db' : Db}
      → trial_reply d s env req (r, db) ≡ (ok resp, db')
      → (out : LicenseTrial × Bool × Option (Text × List LicenseEntitlement)) × (r ≡ ok out)
        × (db ≡ db')
        × (resp.already_started ≡ out.1)
  unfolding trial_reply
  trial_reply-ok req (err x) db e = absurd (ground arith)
  trial_reply-ok req (ok (t, already, none)) db e =
      let trials = internal (list_trials_by_fingerprint sql (env.up 11) req.fingerprint_id db) in
      (
        (t, already, none),
        refl,
        ap (λ r. r.1) e,
        bind-cases trials _ (ap (λ r. r.0) e) λ ts _ e₁.
            signed-flag already (sign_cert d s env 1 none req.device_token req.fingerprint_id [] ts)
              e₁,
      )
  trial_reply-ok req (ok (t, already, some (h, ents))) db e = (
    (t, already, some (h, ents)),
    refl,
    ap (λ r. r.1) e,
    signed-flag already
        (sign_cert d s env 1 (some h) req.device_token req.fingerprint_id ents (t ∷ []))
        (ap (λ r. r.0) e),
  )

  -- A successful `TrialStart` leaves the ledger as it is where the fingerprint has a trial of the
  -- module, so that a trial never starts again, and adds one row where it has none, started now by
  -- the caller's device; the reply says which. No row of the ledger changes.
  pub trial_start-Ledgered :
      (req : TrialStartRequest) (db : Db) {resp : TrialStartResponse} {db' : Db}
      → trial_start d s env req db ≡ (ok resp, db')
      → (m : ℤ) × (module_from_wire req.module_name ≡ ok m)
        × Ledgered req.fingerprint_id m
            (started_now env req.fingerprint_id req.device_token m)
            db.trials
            db'.trials
            resp.already_started
  unfolding trial_start first_trial
  trial_start-Ledgered req db {resp} {db'} e =
      elim (Result-cases (module_from_wire req.module_name)) [
        | inr (x, unknown) ↦ absurd (ground (arith, unknown))
        | inl (m, named) ↦
            let target = req.fingerprint_id ++ b':' ∷ req.device_token in
            let body = transaction (env.up 0) (env.up 10) (trial_tx d s env m req) db in
            let replied : trial_reply d s env req body ≡ (ok resp, db') =
              ground (arith, named, Result-cases (allow env s.window purpose_trial target)) in
            let (out, done, same, flag) = trial_reply-ok req body.0 body.1 replied in
            let committed : body ≡ (ok out, db') = ground (arith, done, same) in
            let ran = transaction-ok (env.up 0) (env.up 10) (trial_tx d s env m req) db committed in
            let fresh = first_trial d s env m req in
            (
              m,
              named,
              subst (λ b. Ledgered req.fingerprint_id m fresh db.trials db'.trials b) (sym flag)
                  (trial_tx-Ledgered m req db ran),
            )
      ]
