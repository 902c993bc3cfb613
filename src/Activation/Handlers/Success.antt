-- ===== src/Activation/Handlers/Success.antt =====
-- When `Activate` succeeds.
use license_service.Prelude.{
  ℕ, ◌+◌, ◌<◌, ◌≡◌, refl, ◌∙◌, ap, Bool, true, false, not, Text, str_eq, List, [], ◌∷◌, ◌++◌,
  Option, none, some, arith, ℤ, pos_part, eq_ℤ, ◌⊎◌, inl, inr, Option-cases,
}
use license_service.Xcodes.{Result, ok, ◌>>=◌}
use license_service.Store.Models.{
  Db, LicenseEntitlement, LicenseTrial, LicenseKey, LicenseDevice, Time,
}
use license_service.Store.Rows.{first, count, modify, count-first-none}
use license_service.Store.Sql.{Sql, append_unique}
use license_service.Store.Reply.{Env, internal, when}
use license_service.Store.Key.{has_hash, get_key_for_update, get_key_for_update_lem}
use license_service.Store.Device.{
  in_key, is_slot, touched, get_device_lem, count_devices_lem, touch_device_lem, insert_device_lem,
  delete_device_lem, list_devices_by_key_hash,
}
use license_service.Store.Entitlement.{list_entitlements_by_key_hash}
use license_service.Store.Trial.{list_trials_by_fingerprint}
use license_service.Cert.Payload.{Payload}
use license_service.Cert.Canonical.{marshal_canonical}
use license_service.Cert.Signer.{lookup}
use license_service.Cert.Signer
use license_service.Activation.Service.{Deps, Service, allow, purpose_activate}
use license_service.Activation.Slots.{evict, settle, take_slot, occupy_slot, new_slot}
use license_service.Activation.Slots.Effect.{evicted}
use license_service.Activation.Certificate.{sign_cert, certificate}
use license_service.Activation.Handlers.{
  ActivateRequest, ActivateResponse, Activated, status_revoked, live_key, from,
  normalize_request_key, activate_tx, activate_reply, activate,
}

-- Some value is there.
abbrev pub Succeeds : {A : Type 0} → Result A → Type 0
Succeeds {A} r = (a : A) × (r ≡ ok a)

bind-Succeeds :
    {A B : Type 0} (m : Result A) (f : A → Result B)
    → Succeeds m
    → ((a : A) → Succeeds (f a))
    → Succeeds (m >>= f)
bind-Succeeds m f (a, done) go =
    let (b, then_done) = go a in (b, ap (λ r. r >>= f) done ∙ then_done)

first_step-Succeeds :
    {A B : Type 0} (m : Result A) (f : A → Result B) {a : A}
    → m ≡ ok a
    → Succeeds (f a)
    → Succeeds (m >>= f)
first_step-Succeeds m f done (b, then_done) = (b, ap (λ r. r >>= f) done ∙ then_done)

read-Succeeds : {A : Type 0} (up : Bool) (a : A) → up ≡ true → Succeeds (internal (when up a))
read-Succeeds up a works = (a, rw works refl)

-- The device holds a slot, or there is room.
abbrev pub Fits : Text → Text → ℤ → List LicenseDevice → Type 0
Fits h token max_slots ds =
    (0 < count (is_slot h token) ds) ⊎ (count (in_key h) ds < pos_part max_slots)

module _ (sql : Sql) (up : ℕ → Bool) (now stamp : Time) (all_up : (n : ℕ) → up n ≡ true) where
  evict-Succeeds :
      (h token : Text) (db : Db)
      → evict sql up now stamp h token db ≡ ok (record db { devices = evicted h token db.devices })
  unfolding evict
  evict-Succeeds h token db = ground (arith, delete_device_lem sql (up 0) h token db, all_up 0)

  take_slot-Succeeds :
      (h fp token : Text) (max_slots : ℤ) (db : Db)
      → first (is_slot h token) db.devices ≡ none
      → count (in_key h) db.devices < pos_part max_slots
      → Succeeds (take_slot sql up now stamp h fp token max_slots db)
  unfolding take_slot append_unique
  take_slot-Succeeds h fp token max_slots db missing room =
      let row = new_slot h fp token now stamp in
      (
        record db { devices = db.devices ++ row ∷ [] },
        ground (
          arith,
          count_devices_lem sql (up 2) h db,
          insert_device_lem sql (up 3) row db,
          all_up 2,
          all_up 3,
          missing,
        ),
      )

  settle-Succeeds :
      (h fp token : Text) (max_slots : ℤ) (db : Db)
      → Fits h token max_slots db.devices
      → Succeeds (settle sql up now stamp h fp token max_slots db)
  unfolding settle
  settle-Succeeds h fp token max_slots db fits =
      elim (Option-cases (first (is_slot h token) db.devices)) [
        | inr (held, there) ↦
            let rebind = not (str_eq held.fingerprint_id fp) in
            let rows = modify (is_slot h token) (touched fp now rebind) db.devices in
            (
              record db { devices = rows },
              ground (
                arith,
                get_device_lem sql (up 1) h token db,
                touch_device_lem sql (up 2) h token fp now rebind db,
                all_up 1,
                all_up 2,
                there,
              ),
            )
        | inl missing ↦
            let none_held = count-first-none (is_slot h token) db.devices missing in
            let (db', taken) =
              take_slot-Succeeds h fp token max_slots db missing
                (ground (arith, none_held, fits)) in
            (db', ground (arith, get_device_lem sql (up 1) h token db, all_up 1, missing, taken))
      ]

  pub occupy_slot-Succeeds :
      (h fp token evict_token : Text) (max_slots : ℤ) (db : Db)
      → Fits h token max_slots (evicted h evict_token db.devices)
      → Succeeds (occupy_slot sql up now stamp h fp token evict_token max_slots db)
  unfolding occupy_slot
  occupy_slot-Succeeds h fp token evict_token max_slots db fits =
      let cleared : Db = record db { devices = evicted h evict_token db.devices } in
      let (db', settled) = settle-Succeeds h fp token max_slots cleared fits in
      (db', rw (evict-Succeeds h evict_token db) settled)

module _ (d : Deps) (s : Service d) (env : Env) where
  sign-some :
      (p : Payload) {key : d.crypto.PrivateKey}
      → lookup p.signing_key_id s.signer.keys ≡ some key
      → (signed : Text × Text) × (Signer.sign d.crypto d.formats s.signer p ≡ some signed)
  unfolding Signer.sign
  sign-some p {key} there =
      let bytes = marshal_canonical d.formats p in
      ((bytes, d.crypto.encode (d.crypto.sign key bytes)), ground (arith, there))

  sign_cert-Succeeds :
      (tick : ℕ) (key_ref : Option Text) (token fp : Text) (ents : List LicenseEntitlement)
      (trials : List LicenseTrial) {key : d.crypto.PrivateKey}
      → lookup s.signer.active s.signer.keys ≡ some key
      → Succeeds (sign_cert d s env tick key_ref token fp ents trials)
  unfolding sign_cert certificate
  sign_cert-Succeeds tick key_ref token fp ents trials there =
      let (signed, done) =
        sign-some (certificate d s env tick key_ref token fp ents trials) there in
      (signed, ground (arith, done))

  pub reply-Succeeds :
      (h : Text) (req : ActivateRequest) (a : Activated) (db : Db) {key : d.crypto.PrivateKey}
      → lookup s.signer.active s.signer.keys ≡ some key
      → (resp : ActivateResponse) × (activate_reply d s env h req (ok a, db) ≡ (ok resp, db))
  unfolding activate_reply
  reply-Succeeds h req a db there =
      let (resp, done) =
        bind-Succeeds
          (sign_cert d s env 1 (some h) req.device_token req.fingerprint_id a.ents a.trials) _
          (sign_cert-Succeeds 1 (some h) req.device_token req.fingerprint_id a.ents a.trials there)
          λ signed. (_, refl) in
      (resp, ap (λ r. (r, db)) done)

module _ (d : Deps) (s : Service d) (env : Env) (all_up : (n : ℕ) → env.up n ≡ true) where
  open d use {sql}

  live_key-Succeeds :
      (up : Bool) (h : Text) (db : Db) {k : LicenseKey}
      → up ≡ true
      → first (has_hash h) db.keys ≡ some k
      → eq_ℤ k.status status_revoked ≡ false
      → live_key (get_key_for_update sql up h db) ≡ ok k
  unfolding live_key
  live_key-Succeeds up h db {k} works there live =
      ground (arith, get_key_for_update_lem sql up h db, works, there, live)

  activate_tx-Succeeds :
      (h : Text) (req : ActivateRequest) (db : Db) {k : LicenseKey}
      → first (has_hash h) db.keys ≡ some k
      → eq_ℤ k.status status_revoked ≡ false
      → Fits h req.device_token k.max_slots (evicted h req.evict_device_token db.devices)
      → Succeeds (activate_tx d s env h req db)
  unfolding activate_tx list_devices_by_key_hash list_entitlements_by_key_hash
      list_trials_by_fingerprint
  activate_tx-Succeeds h req db {k} there live fits =
      let up_from : (n : ℕ) → from 2 env.up n ≡ true = λ n. all_up (2 + n) in
      let (db₁, slot) =
        occupy_slot-Succeeds sql (from 2 env.up) (env.clock 0) env.stamp up_from h
          req.fingerprint_id req.device_token req.evict_device_token k.max_slots db fits in
      let found_key = live_key-Succeeds (env.up 1) h db (all_up 1) there live in
      first_step-Succeeds (live_key (get_key_for_update sql (env.up 1) h db)) _ found_key (
        first_step-Succeeds
          (occupy_slot sql (from 2 env.up) (env.clock 0) env.stamp h req.fingerprint_id
            req.device_token req.evict_device_token k.max_slots db)
          _ slot
          (bind-Succeeds (internal (list_devices_by_key_hash sql (env.up 6) h db₁)) _
            (read-Succeeds (env.up 6) _ (all_up 6))
            λ devices.
              bind-Succeeds (internal (list_entitlements_by_key_hash sql (env.up 7) h db₁)) _
                (read-Succeeds (env.up 7) _ (all_up 7))
                λ ents.
                  bind-Succeeds
                    (internal (list_trials_by_fingerprint sql (env.up 8) req.fingerprint_id db₁)) _
                    (read-Succeeds (env.up 8) _ (all_up 8)) λ trials. (_, refl)))

  -- Where every statement is carried out, `Activate` succeeds on a request whose key is accepted and
  -- admitted, is in the store and not revoked, if the device holds a slot of it or a slot is free once
  -- the chosen device is evicted, and the signer's active key is configured.
  pub activate-Succeeds :
      (req : ActivateRequest) (h : Text) (db : Db) {k : LicenseKey} {key : d.crypto.PrivateKey}
      → normalize_request_key d s env req.key req.license_key ≡ ok h
      → allow env s.window purpose_activate (h ++ b':' ∷ req.device_token) ≡ ok tt
      → first (has_hash h) db.keys ≡ some k
      → eq_ℤ k.status status_revoked ≡ false
      → Fits h req.device_token k.max_slots (evicted h req.evict_device_token db.devices)
      → lookup s.signer.active s.signer.keys ≡ some key
      → (resp : ActivateResponse) × (db' : Db) × (activate d s env req db ≡ (ok resp, db'))
  unfolding activate
  activate-Succeeds req h db accepted admitted there live fits signs =
      let (out, ran) = activate_tx-Succeeds h req db there live fits in
      let (resp, replied) = reply-Succeeds d s env h req out.0 out.1 signs in
      (resp, out.1, ground (arith, accepted, admitted, ran, all_up 0, all_up 9, replied))
