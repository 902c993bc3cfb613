-- ===== src/Admin/Keys.antt =====
-- The key lifecycle RPCs of internal/service/admin/admin.go. The statements of a call are numbered
-- by `env.up`: BEGIN is 0, COMMIT is 9, and those of the grants of a new key are 20 and more.
use license_service.Prelude.{
  ℕ, zero, suc, ◌+◌, ltb, Bool, true, false, ◌&&◌, Text, List, [], ◌∷◌, Option, none, some,
  if◌then◌else◌, ℤ, pos, leb_ℤ, eq_ℤ, take, ◌==◌,
}
use license_service.Xcodes.{Result, ok, err, plain, Code, ◌>>=◌}
use license_service.Store.Models.{Db, LicenseKey, Time}
use license_service.Store.Reply.{Env, internal, transaction}
use license_service.Store.Key.{
  Created, created, unique_violation, update_key_label, update_key_slots, set_key_status,
}
use license_service.Store.Key
use license_service.Store.Device.{delete_devices_by_key_hash}
use license_service.Store.Entitlement.{upsert_entitlement, delete_entitlements_by_key_hash}
use license_service.Activation.Keys.{generate_key, normalize_key, key_hash, license_id}
use license_service.Activation.Service.{Deps}
use license_service.Admin.Scope.{Caller, require_platform_scope}
use license_service.Admin.Expiry.{Grant, grant_row}
use license_service.Admin.View.{KeyInfo, resolve_key, key_to_proto, fresh_view}

-- A call that only the cross-view of the platform may make.
unfoldable pub as_operator : {A : Type 0} → Caller → (Db → Result A × Db) → Db → Result A × Db
as_operator c body db = elim (require_platform_scope c) [ err e ↦ (err e, db) | ok _ ↦ body db ]

-- A transaction that changes nothing.
unfoldable pub reading : {A : Type 0} → (Db → Result A) → Db → Result (A × Db)
reading read db = do a ← read db; ok (a, db)

-- `licensev1.CreateKeyRequest`
pub record CreateKeyRequest : Type 0 where
  pub slots : ℤ
  pub label : Text
  pub grants : List Grant

-- `licensev1.UpdateKeyRequest`
pub record UpdateKeyRequest : Type 0 where
  pub key_id : Text
  pub label : Option Text
  pub slots : Option ℤ

-- `licensev1.KeyStatus`
abbrev pub key_status_active : ℤ
key_status_active = pos 1

abbrev pub key_status_revoked : ℤ
key_status_revoked = pos 2

-- Within [1,100].
unfoldable pub slots_in_range : ℤ → Bool
slots_in_range slots = leb_ℤ (pos 1) slots && leb_ℤ slots (pos 100)

abbrev pub default_slots : ℤ → ℤ
default_slots slots = if eq_ℤ slots (pos 0) then pos 3 else slots

abbrev pub key_gen_attempts : ℕ
key_gen_attempts = 3

module _ (d : Deps) (env : Env) where
  open d use {sql}

  -- The row of a new key; gorm fills in `created_at`.
  unfoldable pub new_key : Text → Text → ℤ → LicenseKey
  new_key norm label slots = record {
    key_hash = key_hash d.sum256 norm;
    license_id = license_id (key_hash d.sum256 norm);
    key_prefix = take 8 norm;
    label = label;
    max_slots = slots;
    status = key_status_active;
    revoked_at = none;
    created_at = env.stamp;
  }

  -- What an attempt goes on with.
  unfoldable pub after_create :
      Created
      → ℕ
      → Text × LicenseKey
      → Result ((Text × LicenseKey) × Db)
      → Result ((Text × LicenseKey) × Db)
  after_create (created db) attempt minted retry = ok (minted, db)
  after_create unique_violation attempt minted retry =
      if ltb (attempt + 1) key_gen_attempts then retry else err (plain Code.internal)
  after_create Created.failed attempt minted retry = err (plain Code.internal)

  -- The loop over the attempts, `left` of them to come; `random` is the outcome of `rand.Read`.
  unfoldable pub mint_key :
      (ℕ → Option (List ℕ)) → CreateKeyRequest → ℤ → ℕ → ℕ → Db → Result ((Text × LicenseKey) × Db)
  mint_key random req slots attempt zero db = err (plain Code.internal)
  mint_key random req slots attempt (suc left) db =
      let retry = mint_key random req slots (attempt + 1) left db in
      elim (random attempt) [
        | none ↦ err (plain Code.internal)
        | some groups ↦ elim (normalize_key (generate_key groups)) [
          | err _ ↦ err (plain Code.internal)
          | ok norm ↦
              let row = new_key norm req.label slots in
              after_create (Key.create_key sql (env.up (1 + attempt)) row db) attempt
                (generate_key groups, row) retry
        ]
      ]

  -- The loop over the grants, of which the first is statement `i`.
  unfoldable pub add_grants : ℕ → Text → Time → List Grant → Db → Result Db
  add_grants i h now [] db = ok db
  add_grants i h now (g ∷ gs) db = do
    row ← grant_row h g none now env.stamp
    db ← internal (upsert_entitlement sql (env.up i) row db)
    add_grants (i + 1) h now gs db

  unfoldable pub create_key_tx :
      (ℕ → Option (List ℕ)) → CreateKeyRequest → ℤ → Db → Result ((Text × LicenseKey) × Db)
  create_key_tx random req slots db = do
    minted ← mint_key random req slots 0 key_gen_attempts db
    db ← add_grants 20 minted.0.1.key_hash (env.clock 0) req.grants minted.1
    ok (minted.0, db)

  -- The view of the new key, and its plaintext.
  unfoldable pub create_key_reply : Result (Text × LicenseKey) × Db → Result (KeyInfo × Text) × Db
  create_key_reply (err e, db) = (err e, db)
  create_key_reply (ok (plaintext, k), db) =
      (do info ← key_to_proto sql (env.up 10) (env.up 11) k false db; ok (info, plaintext), db)

  unfoldable pub create_key :
      (ℕ → Option (List ℕ)) → Caller → CreateKeyRequest → Db → Result (KeyInfo × Text) × Db
  create_key random c req db =
      as_operator c
        (λ db.
          let slots = default_slots req.slots in
          if slots_in_range slots
          then create_key_reply
              (transaction (env.up 0) (env.up 9) (create_key_tx random req slots) db)
          else (err (plain Code.bad_request), db))
        db

  unfoldable pub show_key_tx : Text → Db → Result KeyInfo
  show_key_tx id db = do
    k ← resolve_key sql (env.up 1) id db
    key_to_proto sql (env.up 2) (env.up 3) k true db

  unfoldable pub show_key : Caller → Text → Db → Result KeyInfo × Db
  show_key c id db = as_operator c (transaction (env.up 0) (env.up 9) (reading (show_key_tx id))) db

  -- The views of the listed keys, of which the first begins with statement `i`.
  unfoldable pub key_views : ℕ → List LicenseKey → Db → Result (List KeyInfo)
  key_views i [] db = ok []
  key_views i (k ∷ ks) db = do
    info ← key_to_proto sql (env.up i) (env.up (i + 1)) k false db
    infos ← key_views (i + 2) ks db
    ok (info ∷ infos)

  -- The limit of the request is not negative.
  unfoldable pub list_keys : Caller → ℤ → ℕ → Db → Result (List KeyInfo) × Db
  list_keys c status limit db =
      as_operator c
        (λ db. (
          do
            keys ←
                internal
                  (Key.list_keys sql (env.up 0) status (if limit == 0 then 100 else limit) db)
            key_views 1 keys db,
          db,
        ))
        db

  unfoldable pub set_label : Text → Option Text → Db → Result Db
  set_label h none db = ok db
  set_label h (some label) db = internal (update_key_label sql (env.up 2) h label db)

  unfoldable pub set_slots : Text → Option ℤ → Db → Result Db
  set_slots h none db = ok db
  set_slots h (some slots) db = internal (update_key_slots sql (env.up 3) h slots db)

  unfoldable pub update_key_tx : UpdateKeyRequest → Db → Result (KeyInfo × Db)
  update_key_tx req db = do
    k ← resolve_key sql (env.up 1) req.key_id db
    db ← set_label k.key_hash req.label db
    db ← set_slots k.key_hash req.slots db
    info ← fresh_view sql (env.up 4) (env.up 5) (env.up 6) k.key_hash db
    ok (info, db)

  -- Something to do, and a slot bound in range.
  unfoldable pub is_update : Option Text → Option ℤ → Bool
  is_update none none = false
  is_update (some label) none = true
  is_update label (some slots) = slots_in_range slots

  unfoldable pub update_key : Caller → UpdateKeyRequest → Db → Result KeyInfo × Db
  update_key c req db =
      as_operator c
        (λ db.
          if is_update req.label req.slots
          then transaction (env.up 0) (env.up 9) (update_key_tx req) db
          else (err (plain Code.bad_request), db))
        db

  unfoldable pub set_status_tx : Text → ℤ → Option Time → Db → Result (KeyInfo × Db)
  set_status_tx id status at db = do
    k ← resolve_key sql (env.up 1) id db
    db ← internal (set_key_status sql (env.up 2) k.key_hash status at db)
    info ← fresh_view sql (env.up 3) (env.up 4) (env.up 5) k.key_hash db
    ok (info, db)

  unfoldable pub revoke_key : Caller → Text → Db → Result KeyInfo × Db
  revoke_key c id db =
      as_operator c
        (transaction (env.up 0) (env.up 9)
          (set_status_tx id key_status_revoked (some (env.clock 0))))
        db

  unfoldable pub unrevoke_key : Caller → Text → Db → Result KeyInfo × Db
  unrevoke_key c id db =
      as_operator c (transaction (env.up 0) (env.up 9) (set_status_tx id key_status_active none)) db

  -- The id of the deleted key, which the audit line names.
  unfoldable pub delete_key_tx : Text → Db → Result (Text × Db)
  delete_key_tx id db = do
    k ← resolve_key sql (env.up 1) id db
    db ← internal (delete_entitlements_by_key_hash sql (env.up 2) k.key_hash db)
    db ← internal (delete_devices_by_key_hash sql (env.up 3) k.key_hash db)
    db ← internal (Key.delete_key sql (env.up 4) k.key_hash db)
    ok (k.license_id, db)

  unfoldable pub delete_key : Caller → Text → Option Bool → Db → Result Text × Db
  delete_key c id (some true) db =
      as_operator c (transaction (env.up 0) (env.up 9) (delete_key_tx id)) db
  delete_key c id (some false) db = as_operator c (λ db. (err (plain Code.bad_request), db)) db
  delete_key c id none db = as_operator c (λ db. (err (plain Code.bad_request), db)) db
