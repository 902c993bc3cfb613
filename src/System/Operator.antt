-- ===== src/System/Operator.antt =====
-- What the operators' RPCs share: a scope check, a key that is found, new keys and grants.
use license_service.Prelude.{
  false, ℕ, ◌+◌, ◌<◌, ◌≡◌, sym, ap, subst, Bool, Text, List, [], ◌∷◌, ◌++◌, Option, none, some,
  arith, str_eq_refl, codes, has_prefix, if◌then◌else◌,
}
use license_service.Xcodes.{Result, ok, bind-cases, ok-injective}
use license_service.Store.Models.{Db, LicenseKey, LicenseEntitlement, Time}
use license_service.Store.Rows.{count, first, first-counted, count-append}
use license_service.Store.Atomic.{guard-keeps, internal-ok}
use license_service.Store.Reply.{Env, internal}
use license_service.Store.Key.{
  Created, created, unique_violation, has_hash, has_license_id, create_key-created,
  get_key_by_id_or_hash, get_key_by_id_or_hash_lem, update_key_label, update_key_label_lem,
  update_key_slots, update_key_slots_lem, set_key_status, set_key_status_lem, delete_key_lem,
}
use license_service.Store.Key
use license_service.Store.Entitlement.{upsert_entitlement, upsert_entitlement_lem}
use license_service.Activation.Service.{Deps}
use license_service.Admin.Scope.{Caller, require_platform_scope}
use license_service.Admin.Expiry.{Grant, grant_row, resolve_expiry, kind_of}
use license_service.Admin.View.{resolve_key, named_key}
use license_service.Admin.Keys.{as_operator, add_grants}
use license_service.System.Ownership.{
  WellFormed, HasOwner, keys-WellFormed, upserted-WellFormed, is_unsound,
}

-- The test by which an operator names a key.
abbrev pub names : Text → LicenseKey → Bool
names id = if has_prefix id (codes "lk_") then has_license_id id else has_hash id

pub as_operator-keeps :
    {A : Type 0} (P : Db → Type 0) (c : Caller) (body : Db → Result A × Db) (db : Db)
    → P db
    → P (body db).1
    → P (as_operator c body db).1
unfolding as_operator
as_operator-keeps P c body db now after =
    guard-keeps P (require_platform_scope c) _ db now λ _. after

pub as_operator-WellFormed :
    {A : Type 0} (c : Caller) (body : Db → Result A × Db) (db : Db)
    → WellFormed db
    → WellFormed (body db).1
    → WellFormed (as_operator c body db).1
as_operator-WellFormed = as_operator-keeps WellFormed

pub grant_row-key_hash :
    (h : Text) (g : Grant) (current : Option Time) (now stamp : Time) {row : LicenseEntitlement}
    → grant_row h g current now stamp ≡ ok row
    → row.key_hash ≡ h
unfolding grant_row
grant_row-key_hash h g current now stamp e =
    bind-cases (resolve_expiry (kind_of g.kind) g.duration_days g.expires_at current now) _ e
      λ expiry _ e₁. sym (ap (λ r. r.key_hash) (ok-injective e₁))

module _ (d : Deps) (env : Env) where
  open d use {sql}

  pub resolve_key-first :
      (up : Bool) (id : Text) (db : Db) {k : LicenseKey}
      → resolve_key sql up id db ≡ ok k
      → first (names id) db.keys ≡ some k
  unfolding resolve_key named_key
  resolve_key-first up id db {k} e = ground (arith, get_key_by_id_or_hash_lem sql up id db)

  -- A key that is found has a row.
  pub resolve_key-HasOwner :
      (up : Bool) (id : Text) (db : Db) {k : LicenseKey}
      → resolve_key sql up id db ≡ ok k
      → HasOwner k.key_hash db
  resolve_key-HasOwner up id db {k} e =
      first-counted (names id) (has_hash k.key_hash) db.keys (resolve_key-first up id db e)
        (str_eq_refl k.key_hash)

  -- What one granted row does.
  pub upsert-WellFormed :
      (up : Bool) (row : LicenseEntitlement) (db : Db) {db' : Db}
      → WellFormed db
      → HasOwner row.key_hash db
      → internal (upsert_entitlement sql up row db) ≡ ok db'
      → WellFormed db' × (db'.keys ≡ db.keys)
  upsert-WellFormed up row db {db'} good owner e =
      let kept = internal-ok (upsert_entitlement sql up row db) e in
      let written = upsert_entitlement_lem sql up row db in
      (
        subst WellFormed (ground (arith, kept, written)) (upserted-WellFormed db row good owner),
        ground (arith, kept, written),
      )

  pub add_grants-WellFormed :
      (i : ℕ) (h : Text) (now : Time) (gs : List Grant) (db : Db) {db' : Db}
      → WellFormed db
      → HasOwner h db
      → add_grants d env i h now gs db ≡ ok db'
      → WellFormed db'
  unfolding add_grants
  add_grants-WellFormed i h now [] db good owner e = subst WellFormed (ok-injective e) good
  add_grants-WellFormed i h now (g ∷ gs) db good owner e =
      bind-cases (grant_row h g none now env.stamp) _ e λ row granted e₁.
        bind-cases (internal (upsert_entitlement sql (env.up i) row db)) _ e₁ λ db₁ written e₂.
          let named = grant_row-key_hash h g none now env.stamp granted in
          let step =
            upsert-WellFormed (env.up i) row db good (subst (λ x. HasOwner x db) (sym named) owner)
              written in
          add_grants-WellFormed (i + 1) h now gs db₁ step.0
            (subst (λ ks. 0 < count (has_hash h) ks) (sym step.1) owner) e₂

  added-owner :
      (k : LicenseKey) (ks : List LicenseKey) → 0 < count (has_hash k.key_hash) (ks ++ k ∷ [])
  unfolding count
  added-owner k ks =
      ground (arith, count-append (has_hash k.key_hash) ks (k ∷ []), str_eq_refl k.key_hash)

  appended_sound :
      (k : LicenseKey) (ks : List LicenseKey)
      → is_unsound k ≡ false
      → count is_unsound (ks ++ k ∷ []) ≡ count is_unsound ks
  unfolding count
  appended_sound k ks sound = ground (arith, count-append is_unsound ks (k ∷ []), sound)

  pub created-WellFormed :
      (up : Bool) (k : LicenseKey) (db : Db) {db' : Db}
      → WellFormed db
      → is_unsound k ≡ false
      → Key.create_key sql up k db ≡ created db'
      → WellFormed db' × HasOwner k.key_hash db'
  created-WellFormed up k db {db'} good sound e =
      let written = create_key-created sql up k db e in
      let more = λ (h : Text). count-append (has_hash h) db.keys (k ∷ []) in
      (
        subst WellFormed (sym written) (
            keys-WellFormed db good (db.keys ++ k ∷ []) (λ h lost. omega (arith, lost, more h))
              (omega (arith, good.sound, appended_sound k db.keys sound))),
        subst (HasOwner k.key_hash) (sym written) (added-owner k db.keys),
      )
