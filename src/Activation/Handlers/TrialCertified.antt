-- ===== src/Activation/Handlers/TrialCertified.antt =====
-- The certificate that a successful `TrialStart` hands out.
use license_service.Prelude.{
  ℕ, ◌≡◌, ◌<◌, refl, sym, ◌∙◌, ap, subst, Bool, false, Text, List, [], ◌∷◌, ◌++◌, Option, none,
  some, ℤ, arith, inl, inr,
}
use license_service.Xcodes.{Result, ok, err, bind-cases, Result-cases, ok-injective, ◌>>=◌}
use license_service.Store.Models.{Db, LicenseEntitlement, LicenseTrial}
use license_service.Store.Rows.{first, count, count-append, first-counted}
use license_service.Store.Atomic.{transaction-ok, internal-ok}
use license_service.Store.Reply.{Env, internal, transaction}
use license_service.Store.Key.{get_key_for_update}
use license_service.Store.Entitlement.{list_entitlements_by_key_hash, of_key}
use license_service.Store.Trial.{list_trials_by_fingerprint, of_fingerprint, is_trial}
use license_service.Cert.Payload.{end_of_years}
use license_service.Activation.Keys.{module_from_wire}
use license_service.Activation.Service.{Deps, Service, allow, purpose_trial}
use license_service.Activation.Slots.{occupy_slot}
use license_service.Activation.Certificate.{sign_cert, add_days}
use license_service.Activation.Certificate.Described.{
  grants_of, trials_of, listed_grants_lem, listed_trials_lem,
}
use license_service.Activation.Certificate.Dated.{late, late_entitlement, late_trial}
use license_service.Activation.Handlers.{
  TrialStartRequest, TrialStartResponse, live_key, from, normalize_request_key, refuse_entitled,
  trial_key_tx, first_trial, ledger_tx, trial_tx, trial_reply, trial_start,
}
use license_service.Activation.Handlers.Certified.{Certified, sign_cert-Certifies, listed-zero}
use license_service.Activation.Handlers.Ledger.{
  trial_of, Ledgered, kept, started, trial_tx-Ledgered, trial_reply-ok,
}
use license_service.Activation.Concurrent.Alone.{nobody, among-nobody}
use license_service.Activation.Concurrent.Collapse.{ledger_among-Collapses}

module _ (d : Deps) (s : Service d) (env : Env) where
  open d use {sql}

  -- Without a key the certificate carries the fingerprint's trials, all that there are afterwards; with
  -- a key, its entitlements and the trial of this call.
  pub data TrialCertifies (req : TrialStartRequest) (m : ℤ) (db db' : Db) (payload signature : Text)
      : Type 0 where
    keyless :
        req.license_key ≡ []
        → Certified d s env none req.device_token req.fingerprint_id []
            (trials_of sql req.fingerprint_id db')
            payload
            signature
        → TrialCertifies req m db db' payload signature
    keyed :
        (h : Text) (t : LicenseTrial)
        → normalize_request_key d s env req.license_key [] ≡ ok h
        → first (trial_of req.fingerprint_id m) db'.trials ≡ some t
        → Certified d s env
            (some h)
            req.device_token
            req.fingerprint_id
            (grants_of sql h db)
            (t ∷ [])
            payload
            signature
        → TrialCertifies req m db db' payload signature

  -- What a key adds to the transaction.
  abbrev Keyed : List ℕ → Db → Option (Text × List LicenseEntitlement) → Type 0
  Keyed raw db none = raw ≡ []
  Keyed raw db (some (h, ents)) =
      (normalize_request_key d s env raw [] ≡ ok h)
      × (list_entitlements_by_key_hash sql (env.up 2) h db ≡ some ents)

  trial_key_tx-Keyed :
      (raw : List ℕ) (m : ℤ) (req : TrialStartRequest) (db : Db)
      {key : Option (Text × List LicenseEntitlement)} {db' : Db}
      → trial_key_tx d s env raw m req db ≡ ok (key, db')
      → Keyed raw db key
  unfolding trial_key_tx
  trial_key_tx-Keyed [] m req db e = subst (Keyed [] db) (ap (λ r. r.0) (ok-injective e)) refl
  trial_key_tx-Keyed (c ∷ raw) m req db e =
      bind-cases (normalize_request_key d s env (c ∷ raw) []) _ e λ h accepted e₁.
        bind-cases (live_key (get_key_for_update sql (env.up 1) h db)) _ e₁ λ k _ e₂.
          bind-cases (internal (list_entitlements_by_key_hash sql (env.up 2) h db)) _ e₂
            λ ents listed e₃. bind-cases (refuse_entitled d s env 4 m ents) _ e₃ λ _ _ e₄.
              bind-cases
                (occupy_slot sql (from 3 env.up) (env.clock 0) env.stamp h req.fingerprint_id
                  req.device_token [] k.max_slots db)
                _ e₄
                λ db₁ _ e₅.
                  subst (Keyed (c ∷ raw) db) (ap (λ r. r.0) (ok-injective e₅)) (
                    accepted,
                    internal-ok (list_entitlements_by_key_hash sql (env.up 2) h db) listed,
                  )

  -- The row that the transaction hands on stands in the ledger.
  ledger_tx-there :
      (m : ℤ) (req : TrialStartRequest) (db : Db) {row : LicenseTrial × Bool × Db}
      → ledger_tx d s env m req db ≡ ok row
      → first (is_trial req.fingerprint_id m) row.2.trials ≡ some row.0
  ledger_tx-there m req db {row} e =
      (ledger_among-Collapses d s env nobody m req db {row = row.0} {already = row.1} {db' = row.2}
        (λ n db t held. held) ((among-nobody d s env).1 m req db ∙ e)).1

  trial_tx-there :
      (m : ℤ) (req : TrialStartRequest) (db : Db)
      {out : LicenseTrial × Bool × Option (Text × List LicenseEntitlement)} {db' : Db}
      → trial_tx d s env m req db ≡ ok (out, db')
      → Keyed req.license_key db out.2
        × (first (is_trial req.fingerprint_id m) db'.trials ≡ some out.0)
  unfolding trial_tx
  trial_tx-there m req db {out} {db'} e =
      bind-cases (trial_key_tx d s env req.license_key m req db) _ e λ key with_key e₁.
        bind-cases (ledger_tx d s env m req key.1) _ e₁ λ row ledgered e₂.
          subst
            (λ r.
              Keyed req.license_key db r.0.2
              × (first (is_trial req.fingerprint_id m) r.1.trials ≡ some r.0.0))
            (ok-injective e₂)
            (
              trial_key_tx-Keyed req.license_key m req db with_key,
              ledger_tx-there m req key.1 ledgered,
            )

  -- No trial ends late afterwards.
  Ledgered-early :
      (m : ℤ) (req : TrialStartRequest) (ts ts' : List LicenseTrial) {already : Bool}
      → late (some (add_days (env.clock 2) s.trial_days)) ≡ false
      → count (late_trial s.trial_days) ts ≡ 0
      → Ledgered req.fingerprint_id m (first_trial d s env m req) ts ts' already
      → count (late_trial s.trial_days) ts' ≡ 0
  unfolding count first_trial
  Ledgered-early m req ts ts' soon early (kept t there same) = rw same early
  Ledgered-early m req ts ts' soon early (started missing grown) =
      rw
        (
          grown,
          count-append (late_trial s.trial_days) ts (first_trial d s env m req ∷ []),
          early,
          soon,
        )
        (omega arith)

  one_trial-early :
      (fp : Text) (m : ℤ) (t : LicenseTrial) (ts : List LicenseTrial)
      → first (is_trial fp m) ts ≡ some t
      → count (late_trial s.trial_days) ts ≡ 0
      → count (late_trial s.trial_days) (t ∷ []) ≡ 0
  unfolding count
  one_trial-early fp m t ts there early =
      ground (arith, early, first-counted (is_trial fp m) (late_trial s.trial_days) ts there)

  listed_trials-early :
      (fp : Text) (db : Db) {trials : List LicenseTrial}
      → list_trials_by_fingerprint sql (env.up 11) fp db ≡ some trials
      → count (late_trial s.trial_days) db.trials ≡ 0
      → count (late_trial s.trial_days) trials ≡ 0
  unfolding list_trials_by_fingerprint
  listed_trials-early fp db listed early =
      listed-zero sql (late_trial s.trial_days) _ (of_fingerprint fp) (env.up 11) db.trials listed
        early

  listed_grants-early :
      (h : Text) (db : Db) {ents : List LicenseEntitlement}
      → list_entitlements_by_key_hash sql (env.up 2) h db ≡ some ents
      → count late_entitlement db.entitlements ≡ 0
      → count late_entitlement ents ≡ 0
  unfolding list_entitlements_by_key_hash
  listed_grants-early h db listed early =
      listed-zero sql late_entitlement _ (of_key h) (env.up 2) db.entitlements listed early

  reply-signs :
      (already : Bool) (r : Result (Text × Text)) {resp : TrialStartResponse}
      → (r >>= λ signed.
          ok (record { payload = signed.0; signature = signed.1; already_started = already }))
        ≡ ok resp
      → r ≡ ok (resp.payload, resp.signature)
  reply-signs already (ok signed) e = ap (λ x. ok (x.payload, x.signature)) (ok-injective e)
  reply-signs already (err x) e = absurd cc

  trial_reply-Certifies :
      (m : ℤ) (req : TrialStartRequest) (db : Db)
      (out : LicenseTrial × Bool × Option (Text × List LicenseEntitlement)) (db' : Db)
      {resp : TrialStartResponse}
      → env.clock 1 < end_of_years
      → count late_entitlement db.entitlements ≡ 0
      → count (late_trial s.trial_days) db'.trials ≡ 0
      → Keyed req.license_key db out.2
      → first (is_trial req.fingerprint_id m) db'.trials ≡ some out.0
      → (trial_reply d s env req (ok out, db')).0 ≡ ok resp
      → TrialCertifies req m db db' resp.payload resp.signature
  unfolding trial_reply count
  trial_reply-Certifies m req db (t, already, none) db' {resp} now grants trials key there e =
      bind-cases (internal (list_trials_by_fingerprint sql (env.up 11) req.fingerprint_id db')) _ e
        λ ts listed e₁.
          let found =
            internal-ok (list_trials_by_fingerprint sql (env.up 11) req.fingerprint_id db')
              listed in
          keyless key (
            subst
              (λ x.
                Certified d s env none req.device_token req.fingerprint_id [] x resp.payload
                  resp.signature)
              (listed_trials_lem sql (env.up 11) req.fingerprint_id db' found)
              (sign_cert-Certifies d s env none req.device_token req.fingerprint_id [] ts now refl
                (listed_trials-early req.fingerprint_id db' found trials)
                (reply-signs already
                  (sign_cert d s env 1 none req.device_token req.fingerprint_id [] ts) e₁)))
  trial_reply-Certifies m req db (t, already, some (h, ents)) db' {resp} now grants trials key there
        e =
      keyed h t key.0 there (
        subst
          (λ x.
            Certified d s env (some h) req.device_token req.fingerprint_id x (t ∷ []) resp.payload
              resp.signature)
          (listed_grants_lem sql (env.up 2) h db key.1)
          (sign_cert-Certifies d s env (some h) req.device_token req.fingerprint_id ents (t ∷ [])
            now (listed_grants-early h db key.1 grants)
            (one_trial-early req.fingerprint_id m t db'.trials there trials)
            (reply-signs already
              (sign_cert d s env 1 (some h) req.device_token req.fingerprint_id ents (t ∷ [])) e)))

  -- Where no expiry falls after the year 9999, a successful `TrialStart` of a known module hands out
  -- bytes with a signature that verifies under the active key that the service publishes; a client
  -- reads them as a payload of version 1 of this device and fingerprint at the time of the call.
  -- Without a key it has no license id, and its entries are those of all trials of the fingerprint as
  -- they are then. With a key it has the key's license id, and its entries are those of the
  -- entitlements that the key had and of this trial as the ledger has it, but of no other trial of
  -- the fingerprint: these are left out, though the design document unites the whole ledger.
  pub trial_start-Certifies :
      (req : TrialStartRequest) (db : Db) {resp : TrialStartResponse} {db' : Db}
      → env.clock 1 < end_of_years
      → late (some (add_days (env.clock 2) s.trial_days)) ≡ false
      → count late_entitlement db.entitlements ≡ 0
      → count (late_trial s.trial_days) db.trials ≡ 0
      → trial_start d s env req db ≡ (ok resp, db')
      → (m : ℤ) × (module_from_wire req.module_name ≡ ok m)
        × TrialCertifies req m db db' resp.payload resp.signature
  unfolding trial_start
  trial_start-Certifies req db {resp} {db'} now soon grants trials e =
      elim (Result-cases (module_from_wire req.module_name)) [
        | inr (x, unknown) ↦ absurd (ground (arith, unknown))
        | inl (m, named) ↦
            let target = req.fingerprint_id ++ b':' ∷ req.device_token in
            let body = transaction (env.up 0) (env.up 10) (trial_tx d s env m req) db in
            let replied : trial_reply d s env req body ≡ (ok resp, db') =
              ground (arith, named, Result-cases (allow env s.window purpose_trial target)) in
            let (out, done, same, flag) = trial_reply-ok d s env req body.0 body.1 replied in
            let committed : body ≡ (ok out, db') = ground (arith, done, same) in
            let ran = transaction-ok (env.up 0) (env.up 10) (trial_tx d s env m req) db committed in
            let (key, there) = trial_tx-there m req db ran in
            let answered : (trial_reply d s env req (ok out, db')).0 ≡ ok resp =
              ap (λ r. (trial_reply d s env req r).0) (sym committed) ∙ ap (λ r. r.0) replied in
            let ledgered = trial_tx-Ledgered d s env m req db ran in
            (
              m,
              named,
              trial_reply-Certifies m req db out db' now grants
                  (Ledgered-early m req db.trials db'.trials soon trials ledgered) key there
                  answered,
            )
      ]
