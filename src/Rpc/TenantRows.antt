-- ===== src/Rpc/TenantRows.antt =====
-- The gate and the RPCs of the tenants' rows change no table but that of the apps.
use license_service.Prelude.{
  ℕ, ◌≡◌, refl, ap, subst, Bool, Text, Option, none, some, arith, Bool-cases, Option-cases, inl,
  inr,
}
use license_service.Xcodes.{Result, ok, err, Result-cases, bind-cases, ok-injective}
use license_service.Store.Models.{Db, LicenseApp}
use license_service.Store.Sql.{Sql}
use license_service.Store.Reply.{Env, internal}
use license_service.Store.Atomic.{internal-ok}
use license_service.Store.App.{
  get_app_for_tenant, ensure_tenant_app, app_clashes, create_app, update_app, delete_app,
}
use license_service.Activation.Service.{Deps}
use license_service.Admin.Scope.{scope_from_ctx, clamp_tenant_key}
use license_service.Admin.Tenants
use license_service.Admin.Tenants.{
  kept, create_config_chain, update_config_chain, delete_config_chain, UpdateRequest,
  mint_unique_app_key, app_key_gen_attempts, refuse_existing, config_row, config_for_tenant_scoped,
  edited,
}
use license_service.Tenant.{require, ensure_trusted, after_insert}
use license_service.Rpc.{Context}
use license_service.Rpc.Facade
use license_service.Rpc.Facade.{Root, require_caller, operator}

-- No table but the apps' changes.
abbrev pub OnlyApps : Db → Db → Type 0
OnlyApps db db' = db' ≡ record db { apps = db'.apps }

kept-keeps :
    {A : Type 0} (P : Db → Type 0) (db : Db) (chain : Result (A × Db))
    → P db
    → ((a : A) (db' : Db) → chain ≡ ok (a, db') → P db')
    → P (kept db chain).1
kept-keeps P db (err e) now after = now
kept-keeps P db (ok (a, db')) now after = after a db' refl

module _ (sql : Sql) (env : Env) where
  created-OnlyApps :
      (up : Bool) (a : LicenseApp) (db : Db) {db' : Db}
      → internal (create_app sql up a db) ≡ ok db'
      → OnlyApps db db'
  unfolding create_app
  created-OnlyApps up a db {db'} e = ground (
    arith,
    internal-ok (create_app sql up a db) e,
    Option-cases (sql.create (app_clashes a) a db.apps),
  )

  ensured-OnlyApps :
      (up : Bool) (a : LicenseApp) (db : Db) {db' : Db}
      → ensure_tenant_app sql up a db ≡ ok db'
      → OnlyApps db db'
  unfolding ensure_tenant_app
  ensured-OnlyApps up a db {db'} e = ground (arith, e)

  updated-OnlyApps :
      (up : Bool) (a : LicenseApp) (db : Db) {db' : Db}
      → internal (update_app sql up env.stamp a db) ≡ ok db'
      → OnlyApps db db'
  unfolding update_app
  updated-OnlyApps up a db {db'} e = ground (arith, e)

  deleted-OnlyApps :
      (up : Bool) (id : ℕ) (db : Db) {db' : Db}
      → internal (delete_app sql up id db) ≡ ok db'
      → OnlyApps db db'
  unfolding delete_app
  deleted-OnlyApps up id db {db'} e = ground (arith, e)

  after_insert-OnlyApps :
      (tk : Text) (r : Result Db) (db : Db)
      → ((db' : Db) → r ≡ ok db' → OnlyApps db db')
      → OnlyApps db (after_insert sql env tk r db).1
  unfolding after_insert
  after_insert-OnlyApps tk (err e) db h = refl
  after_insert-OnlyApps tk (ok db') db h = h db' refl

  ensure_trusted-OnlyApps :
      (id : ℕ) (tk : Text) (db : Db) → OnlyApps db (ensure_trusted sql env id tk db).1
  unfolding ensure_trusted
  ensure_trusted-OnlyApps id tk db =
      elim (Result-cases (get_app_for_tenant sql (env.up 0) (env.up 1) tk db)) [
        | inr (e, broken) ↦ rw (broken, ensure_trusted) refl
        | inl (none, missing) ↦
            rw (missing, ensure_trusted)
              (after_insert-OnlyApps tk _ db λ db' e. ensured-OnlyApps (env.up 2) _ db e)
        | inl (some app, there) ↦ rw (there, ensure_trusted) refl
      ]

  pub require-OnlyApps :
      (valid : Text → Bool) (tenant : Option Text) (id : ℕ) (db : Db)
      → OnlyApps db (require sql env valid tenant id db).1
  unfolding require
  require-OnlyApps valid none id db = refl
  require-OnlyApps valid (some tk) id db = elim (Bool-cases (valid tk)) [
    | inl v ↦ rw v (ensure_trusted-OnlyApps id tk db)
    | inr v ↦ rw v refl
  ]

module _ (d : Deps) (r : Root d) (ctx : Context) where
  pub create_tenant_config-OnlyApps :
      (tk name : Text) (db : Db) → OnlyApps db (Facade.create_tenant_config d r ctx tk name db).1
  unfolding Facade.create_tenant_config Tenants.create_tenant_config create_config_chain
  create_tenant_config-OnlyApps tk name db =
      kept-keeps (OnlyApps db) db
        (create_config_chain d.sql ctx.env ctx.app_bytes ctx.new_id (operator d r ctx) tk name db)
        refl
        λ t db' e. bind-cases (scope_from_ctx (operator d r ctx)) _ e λ scope _ e₁.
          bind-cases (mint_unique_app_key d.sql ctx.env ctx.app_bytes 0 app_key_gen_attempts db) _
            e₁
            λ app_key _ e₂.
              let key = clamp_tenant_key scope tk app_key in
              bind-cases (get_app_for_tenant d.sql (ctx.env.up 3) (ctx.env.up 4) key db) _ e₂
                λ existing _ e₃. bind-cases (refuse_existing existing) _ e₃ λ _ _ e₄.
                  bind-cases
                    (internal (
                      create_app d.sql (ctx.env.up 5)
                        (config_row d.sql ctx.env ctx.new_id app_key name key) db))
                    _ e₄
                    λ db₁ written e₅.
                      subst (OnlyApps db) (ap (λ x. x.1) (ok-injective e₅))
                        (created-OnlyApps d.sql ctx.env (ctx.env.up 5) _ db written)

  pub update_tenant_config-OnlyApps :
      (req : UpdateRequest) (db : Db) → OnlyApps db (Facade.update_tenant_config d r ctx req db).1
  unfolding Facade.update_tenant_config Tenants.update_tenant_config update_config_chain
  update_tenant_config-OnlyApps req db =
      kept-keeps (OnlyApps db) db (update_config_chain d.sql ctx.env (operator d r ctx) req db) refl
        λ t db' e.
          bind-cases (config_for_tenant_scoped d.sql ctx.env (operator d r ctx) req.tenant_key db) _
            e
            λ a _ e₁.
              bind-cases
                (internal (update_app d.sql (ctx.env.up 2) ctx.env.stamp (edited req a) db)) _ e₁
                λ db₁ written e₂.
                  subst (OnlyApps db) (ap (λ x. x.1) (ok-injective e₂))
                    (updated-OnlyApps d.sql ctx.env (ctx.env.up 2) _ db written)

  pub delete_tenant_config-OnlyApps :
      (tk : Text) (db : Db) → OnlyApps db (Facade.delete_tenant_config d r ctx tk db).1
  unfolding Facade.delete_tenant_config Tenants.delete_tenant_config delete_config_chain
  delete_tenant_config-OnlyApps tk db =
      kept-keeps (OnlyApps db) db (delete_config_chain d.sql ctx.env (operator d r ctx) tk db) refl
        λ t db' e.
          bind-cases (config_for_tenant_scoped d.sql ctx.env (operator d r ctx) tk db) _ e λ a _ e₁.
            bind-cases (internal (delete_app d.sql (ctx.env.up 2) a.id db)) _ e₁ λ db₁ written e₂.
              subst (OnlyApps db) (ap (λ x. x.1) (ok-injective e₂))
                (deleted-OnlyApps d.sql ctx.env (ctx.env.up 2) a.id db written)
