-- ===== src/Admin/Tenants/Hidden.antt =====
-- What a tenant's administrator can find out about, and do to, the rows of other tenants.
use license_service.Prelude.{
  ◌≡◌, refl, Bool, true, false, Text, Option, none, some, if◌then◌else◌, arith,
}
use license_service.Xcodes.{ok, err, plain, app_not_found}
use license_service.Store.Models.{Db, LicenseApp}
use license_service.Store.Sql.{Sql}
use license_service.Store.Reply.{Env}
use license_service.Store.App.{get_app_for_tenant}
use license_service.Admin.Scope.{Caller, scope_from_ctx, visible_in_tenant}
use license_service.Admin.Scope.Closure.{authorize-visible}
use license_service.Admin.Tenants.{
  UpdateRequest, named_app, config_for_tenant_scoped, update_config_chain, delete_config_chain,
  get_tenant_config, update_tenant_config, delete_tenant_config,
}

-- No row, or one that the scope does not see.
abbrev pub is_hidden : Text → Option LicenseApp → Bool
is_hidden scope none = true
is_hidden scope (some a) = if visible_in_tenant scope a then false else true

named_app-hidden :
    (scope : Text) (o : Option LicenseApp)
    → is_hidden scope o ≡ true
    → named_app scope o ≡ err (plain app_not_found)
unfolding named_app
named_app-hidden scope none h = refl
named_app-hidden scope (some a) h = ground (arith, authorize-visible scope a (plain app_not_found))

module _ (sql : Sql) (env : Env) (c : Caller) (scope : Text) (db : Db) where
  lookup-hidden :
      (tk : Text) (o : Option LicenseApp)
      → scope_from_ctx c ≡ ok scope
      → get_app_for_tenant sql (env.up 0) (env.up 1) tk db ≡ ok o
      → is_hidden scope o ≡ true
      → config_for_tenant_scoped sql env c tk db ≡ err (plain app_not_found)
  unfolding config_for_tenant_scoped
  lookup-hidden tk o scoped looked h = rw (scoped, looked) (named_app-hidden scope o h)

  -- A caller with a scope learns nothing of a row that the scope does not see, and changes nothing:
  -- reading, editing and deleting answer APP_NOT_FOUND, as they do where there is no row, and leave
  -- the database as it is.
  pub hidden_rows :
      (req : UpdateRequest) (o : Option LicenseApp)
      → scope_from_ctx c ≡ ok scope
      → get_app_for_tenant sql (env.up 0) (env.up 1) req.tenant_key db ≡ ok o
      → is_hidden scope o ≡ true
      → (get_tenant_config sql env c req.tenant_key db ≡ (err (plain app_not_found), db))
        × (update_tenant_config sql env c req db ≡ (err (plain app_not_found), db))
        × (delete_tenant_config sql env c req.tenant_key db ≡ (err (plain app_not_found), db))
  unfolding get_tenant_config update_tenant_config delete_tenant_config update_config_chain
      delete_config_chain
  hidden_rows req o scoped looked h =
      let missing = lookup-hidden req.tenant_key o scoped looked h in
      (rw missing refl, rw missing refl, rw missing refl)
