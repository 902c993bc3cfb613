-- ===== src/Activation/Handlers/Inversion.antt =====
-- What a successful `Activate` means, step by step.
use license_service.Prelude.{◌≡◌, false, Text, ◌∷◌, ◌++◌, some, arith, inl, inr, eq_ℤ, subst}
use license_service.Xcodes.{Result, ok, err, bind-cases, Result-cases, ok-injective}
use license_service.Store.Models.{Db, LicenseKey}
use license_service.Store.Rows.{first}
use license_service.Store.Atomic.{transaction-ok, internal-ok}
use license_service.Store.Reply.{Env, internal, transaction}
use license_service.Store.Device.{list_devices_by_key_hash}
use license_service.Store.Key.{has_hash, get_key_for_update, get_key_for_update_lem}
use license_service.Store.Entitlement.{list_entitlements_by_key_hash}
use license_service.Store.Trial.{list_trials_by_fingerprint}
use license_service.Activation.Service.{Deps, Service, allow, purpose_activate}
use license_service.Activation.Slots.{occupy_slot, slots_summary}
use license_service.Activation.Slots.Effect.{Occupied, evicted, occupy_slot-Occupied}
use license_service.Activation.Certificate.{sign_cert}
use license_service.Activation.Handlers.{
  ActivateRequest, ActivateResponse, Activated, status_revoked, live_key, from,
  normalize_request_key, activate_tx, activate_reply, activate,
}

module _ (d : Deps) (s : Service d) (env : Env) where
  open d use {sql}

  -- The key's row, and the rows of the devices before and after.
  pub record Activates (h : Text) (req : ActivateRequest) (a : Activated) (db db' : Db)
      : Type 0 where
    pub key_row : first (has_hash h) db.keys ≡ some a.key
    pub live : eq_ℤ a.key.status status_revoked ≡ false
    pub occupied :
        Occupied h req.device_token req.fingerprint_id
          (env.clock 0)
          env.stamp
          a.key.max_slots
          (evicted h req.evict_device_token db.devices)
          db'.devices
    pub only_devices : db' ≡ record db { devices = db'.devices }
    pub listed : list_devices_by_key_hash sql (env.up 6) h db' ≡ some a.devices
    pub granted : list_entitlements_by_key_hash sql (env.up 7) h db' ≡ some a.ents
    pub tried : list_trials_by_fingerprint sql (env.up 8) req.fingerprint_id db' ≡ some a.trials

  pub live_key-ok :
      (h : Text) (db : Db) {k : LicenseKey}
      → live_key (get_key_for_update sql (env.up 1) h db) ≡ ok k
      → (first (has_hash h) db.keys ≡ some k) × (eq_ℤ k.status status_revoked ≡ false)
  unfolding live_key
  live_key-ok h db {k} e = ground (arith, get_key_for_update_lem sql (env.up 1) h db)

  pub activate_tx-Activates :
      (h : Text) (req : ActivateRequest) (db : Db) {a : Activated} {db' : Db}
      → activate_tx d s env h req db ≡ ok (a, db')
      → Activates h req a db db'
  unfolding activate_tx
  activate_tx-Activates h req db {a} {db'} e =
      bind-cases (live_key (get_key_for_update sql (env.up 1) h db)) _ e λ k found_key e₁.
        bind-cases
          (occupy_slot sql (from 2 env.up) (env.clock 0) env.stamp h req.fingerprint_id
            req.device_token req.evict_device_token k.max_slots db)
          _ e₁
          λ db₁ occupied e₂.
            bind-cases (internal (list_devices_by_key_hash sql (env.up 6) h db₁)) _ e₂
              λ devices listed e₃.
                bind-cases (internal (list_entitlements_by_key_hash sql (env.up 7) h db₁)) _ e₃
                  λ ents granted e₄.
                    bind-cases
                      (internal (list_trials_by_fingerprint sql (env.up 8) req.fingerprint_id db₁))
                      _ e₄
                      λ trials tried e₅.
                        let row = live_key-ok h db found_key in
                        let slot =
                          occupy_slot-Occupied sql (from 2 env.up) (env.clock 0) env.stamp h
                            req.fingerprint_id req.device_token req.evict_device_token k.max_slots
                            db occupied in
                        subst (λ p. Activates h req p.0 db p.1) (ok-injective e₅)
                          (record {
                            key_row = row.0;
                            live = row.1;
                            occupied = slot.0;
                            only_devices = slot.1;
                            listed =
                                internal-ok (list_devices_by_key_hash sql (env.up 6) h db₁) listed;
                            granted =
                                internal-ok (list_entitlements_by_key_hash sql (env.up 7) h db₁)
                                  granted;
                            tried =
                                internal-ok
                                  (list_trials_by_fingerprint sql (env.up 8) req.fingerprint_id db₁)
                                  tried;
                          })

  -- The certificate of a reply.
  abbrev pub Signs : Text → ActivateRequest → Activated → ActivateResponse → Type 0
  Signs h req a resp =
      sign_cert d s env 1 (some h) req.device_token req.fingerprint_id a.ents a.trials
      ≡ ok (resp.payload, resp.signature)

  reply-ok :
      (h : Text) (req : ActivateRequest) (r : Result Activated) (db : Db) {resp : ActivateResponse}
      {db' : Db}
      → activate_reply d s env h req (r, db) ≡ (ok resp, db')
      → (a : Activated) × (◌≡◌ {A = Result Activated × Db} (r, db) (ok a, db'))
        × (resp.slots ≡ slots_summary a.key.max_slots a.devices)
        × Signs h req a resp
  unfolding activate_reply
  reply-ok h req (err x) db e = ground arith
  reply-ok h req (ok a) db {resp} {db'} e = (
    a,
    ground arith,
    elim (Result-cases
        (sign_cert d s env 1 (some h) req.device_token req.fingerprint_id a.ents a.trials)) [
          | inl (signed, done) ↦ ground (arith, done)
          | inr (x, failed_sign) ↦ ground (arith, failed_sign)
        ],
    elim (Result-cases
        (sign_cert d s env 1 (some h) req.device_token req.fingerprint_id a.ents a.trials)) [
          | inl (signed, done) ↦ ground (arith, done)
          | inr (x, failed_sign) ↦ ground (arith, failed_sign)
        ],
  )

  -- A successful `Activate` has an accepted key, and its transaction is one that `Activates`
  -- describes; the reply carries the roster.
  pub activate-Activates :
      (req : ActivateRequest) (db : Db) {resp : ActivateResponse} {db' : Db}
      → activate d s env req db ≡ (ok resp, db')
      → (h : Text) × (normalize_request_key d s env req.key req.license_key ≡ ok h)
        × (a : Activated) × Activates h req a db db'
        × (resp.slots ≡ slots_summary a.key.max_slots a.devices)
        × Signs h req a resp
  unfolding activate
  activate-Activates req db {resp} {db'} e =
      elim (Result-cases (normalize_request_key d s env req.key req.license_key)) [
        | inr (x, refused) ↦ ground (arith, refused)
        | inl (h, accepted) ↦
            let target = h ++ b':' ∷ req.device_token in
            let body = transaction (env.up 0) (env.up 9) (activate_tx d s env h req) db in
            let replied : activate_reply d s env h req body ≡ (ok resp, db') =
              ground (arith, accepted, Result-cases (allow env s.window purpose_activate target)) in
            let (a, committed, slots, signed) = reply-ok h req body.0 body.1 replied in
            let ran =
              transaction-ok (env.up 0) (env.up 9) (activate_tx d s env h req) db committed in
            (h, accepted, a, activate_tx-Activates h req db ran, slots, signed)
      ]
