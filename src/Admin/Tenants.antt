-- ===== src/Admin/Tenants.antt =====
-- internal/service/admin/app.go: the configuration row of a tenant. The audit lines are left out.
pub mod Hidden
use license_service.Prelude.{
  ℕ, zero, suc, ◌+◌, ◌%◌, Bool, true, false, Text, codes, List, [], ◌∷◌, ◌++◌, map, Option, none,
  some, if◌then◌else◌,
}
use license_service.Xcodes.{Result, ok, err, plain, Code, app_not_found, ◌>>=◌}
use license_service.Store.Models.{Db, LicenseApp, Time, tenant_key_of, tenant_key_ptr}
use license_service.Store.Sql.{Sql}
use license_service.Store.Reply.{Env, Fetch, found, record_not_found, failed, internal}
use license_service.Store.App.{
  create_app, get_app_for_tenant, get_app_by_key, list_apps, update_app, delete_app,
}
use license_service.Store.Rows.{keep}
use license_service.Admin.Scope.{
  Caller, scope_from_ctx, authorize_app_tenant, visible_in_tenant, clamp_tenant_key,
}

-- `licensev1.LicenseTenantConfigInfo`
pub record TenantConfig : Type 0 where
  pub id : ℕ
  pub app_key : Text
  pub name : Text
  pub disabled : Bool
  pub tenant_key : Text
  pub created_at : Time
  pub updated_at : Time

unfoldable pub app_to_proto : LicenseApp → TenantConfig
app_to_proto a = record {
  id = a.id;
  app_key = a.app_key;
  name = a.name;
  disabled = a.disabled;
  tenant_key = tenant_key_of a.tenant_key;
  created_at = a.created_at;
  updated_at = a.updated_at;
}

-- The rest of a text from position `n`, and the character at it.
unfoldable pub char_at : Text → ℕ → ℕ
char_at [] n = 0
char_at (c ∷ s) zero = c
char_at (c ∷ s) (suc n) = char_at s n

-- `mintAppKey` on the bytes that `rand.Read` fills in; the way out of a failing `rand.Read` is left
-- out, since crypto/rand documents that it never fails.
unfoldable pub mint_app_key : List ℕ → Text
mint_app_key buf =
    codes "lic_" ++ map (λ b. char_at (codes "0123456789abcdefghijklmnopqrstuvwxyz") (b % 36)) buf

-- Three attempts.
abbrev pub app_key_gen_attempts : ℕ
app_key_gen_attempts = 3

-- One attempt of `mintUniqueAppKey`: only a key that no row has is taken.
unfoldable pub take_candidate : Fetch LicenseApp → Text → Result Text → Result Text
take_candidate record_not_found candidate retry = ok candidate
take_candidate (found a) candidate retry = retry
take_candidate failed candidate retry = err (plain Code.internal)

-- A call of UpdateTenantConfig.
pub record UpdateRequest : Type 0 where
  pub tenant_key : Text
  pub name : Option Text
  pub disabled : Option Bool

abbrev pub or_else : {A : Type 0} → Option A → A → A
or_else none a = a
or_else (some x) a = x

-- The row with the fields that the request gives.
unfoldable pub edited : UpdateRequest → LicenseApp → LicenseApp
edited req a = record a {
  name = or_else req.name a.name;
  disabled = or_else req.disabled a.disabled;
}

unfoldable pub named_app : Text → Option LicenseApp → Result LicenseApp
named_app scope none = err (plain app_not_found)
named_app scope (some a) = do _ ← authorize_app_tenant scope a (plain app_not_found); ok a

unfoldable pub refuse_existing : Option LicenseApp → Result (Unit {0})
refuse_existing none = ok tt
refuse_existing (some a) = err (plain Code.bad_request)

-- The outcome of a chain that may have changed the database in its last statement.
abbrev pub kept : {A : Type 0} → Db → Result (A × Db) → Result A × Db
kept db (err e) = (err e, db)
kept db (ok (a, db')) = (ok a, db')

module _ (sql : Sql) (env : Env) where
  -- The attempts from statement `i` on, `left` of them; `random` is what `rand.Read` fills in.
  unfoldable pub mint_unique_app_key : (ℕ → List ℕ) → ℕ → ℕ → Db → Result Text
  mint_unique_app_key random i zero db = err (plain Code.internal)
  mint_unique_app_key random i (suc left) db =
      let candidate = mint_app_key (random i) in
      take_candidate (get_app_by_key sql (env.up i) candidate db) candidate
        (mint_unique_app_key random (i + 1) left db)

  -- The row of a new tenant; the database gives it the identifier `id`.
  unfoldable pub config_row : ℕ → Text → Text → Text → LicenseApp
  config_row id app_key name tk = record {
    id = id;
    app_key = app_key;
    name = name;
    tenant_key = tenant_key_ptr tk;
    disabled = false;
    created_at = env.stamp;
    updated_at = env.stamp;
  }

  unfoldable pub create_config_chain :
      (ℕ → List ℕ) → ℕ → Caller → Text → Text → Db → Result (TenantConfig × Db)
  create_config_chain random id c requested name db = do
    scope ← scope_from_ctx c
    app_key ← mint_unique_app_key random 0 app_key_gen_attempts db
    let tk = clamp_tenant_key scope requested app_key
    existing ← get_app_for_tenant sql (env.up 3) (env.up 4) tk db
    _ ← refuse_existing existing
    db' ← internal (create_app sql (env.up 5) (config_row id app_key name tk) db)
    ok (app_to_proto (config_row id app_key name tk), db')

  unfoldable pub create_tenant_config :
      (ℕ → List ℕ) → ℕ → Caller → Text → Text → Db → Result TenantConfig × Db
  create_tenant_config random id c requested name db =
      kept db (create_config_chain random id c requested name db)

  unfoldable pub config_for_tenant_scoped : Caller → Text → Db → Result LicenseApp
  config_for_tenant_scoped c tk db = do
    scope ← scope_from_ctx c
    a ← get_app_for_tenant sql (env.up 0) (env.up 1) tk db
    named_app scope a

  unfoldable pub get_tenant_config : Caller → Text → Db → Result TenantConfig × Db
  get_tenant_config c tk db = (do a ← config_for_tenant_scoped c tk db; ok (app_to_proto a), db)

  -- The reply carries the row as it was edited in memory.
  unfoldable pub update_config_chain : Caller → UpdateRequest → Db → Result (TenantConfig × Db)
  update_config_chain c req db = do
    a ← config_for_tenant_scoped c req.tenant_key db
    db' ← internal (update_app sql (env.up 2) env.stamp (edited req a) db)
    ok (app_to_proto (edited req a), db')

  unfoldable pub update_tenant_config : Caller → UpdateRequest → Db → Result TenantConfig × Db
  update_tenant_config c req db = kept db (update_config_chain c req db)

  unfoldable pub list_tenant_configs : Caller → Db → Result (List TenantConfig) × Db
  list_tenant_configs c db = (
    do
      scope ← scope_from_ctx c
      apps ← internal (list_apps sql (env.up 0) db)
      ok (map app_to_proto (keep (visible_in_tenant scope) apps)),
    db,
  )

  unfoldable pub delete_config_chain : Caller → Text → Db → Result (Unit {0} × Db)
  delete_config_chain c tk db = do
    a ← config_for_tenant_scoped c tk db
    db' ← internal (delete_app sql (env.up 2) a.id db)
    ok (tt, db')

  unfoldable pub delete_tenant_config : Caller → Text → Db → Result (Unit {0}) × Db
  delete_tenant_config c tk db = kept db (delete_config_chain c tk db)
