-- ===== src/Tenant.antt =====
-- internal/tenantres/tenantres.go: the gate row of the calling tenant, and the facades of
-- internal/service/service.go that pass the gate first. The trusted key and its format check come
-- from package tenantctx.
pub mod Gate
use license_service.Prelude.{ℕ, Bool, false, Text, Option, none, some, if◌then◌else◌}
use license_service.Xcodes.{Result, ok, err, plain, Code, app_unauthorized, ◌>>=◌}
use license_service.Store.Models.{Db, LicenseApp, tenant_key_ptr}
use license_service.Store.Sql.{Sql}
use license_service.Store.Reply.{Env}
use license_service.Store.App.{get_app_for_tenant, ensure_tenant_app}

pub record Caller : Type 0 where
  pub tenant_key : Text
  pub app : LicenseApp

-- A disabled row is a closed door.
unfoldable pub open_gate : Text → LicenseApp → Result Caller
open_gate tk app =
    if app.disabled
    then err (plain app_unauthorized)
    else ok (record { tenant_key = tk; app = app })

module _ (sql : Sql) (env : Env) where
  -- The row that a first call leaves; the database gives it the identifier `id`.
  unfoldable pub gate_row : ℕ → Text → LicenseApp
  gate_row id tk = record {
    id = id;
    app_key = tk;
    name = tk;
    tenant_key = tenant_key_ptr tk;
    disabled = false;
    created_at = env.stamp;
    updated_at = env.stamp;
  }

  -- What the second lookup finds.
  unfoldable pub admit_again : Text → Result (Option LicenseApp) → Result Caller
  admit_again tk (err e) = err e
  admit_again tk (ok none) = err (plain Code.internal)
  admit_again tk (ok (some app)) = open_gate tk app

  -- After the insert of a gate row; the insert stays, whatever follows.
  unfoldable pub after_insert : Text → Result Db → Db → Result Caller × Db
  after_insert tk (err e) db = (err e, db)
  after_insert tk (ok db') db =
      (admit_again tk (get_app_for_tenant sql (env.up 3) (env.up 4) tk db'), db')

  unfoldable pub ensure_trusted : ℕ → Text → Db → Result Caller × Db
  ensure_trusted id tk db = elim (get_app_for_tenant sql (env.up 0) (env.up 1) tk db) [
    | err e ↦ (err e, db)
    | ok found_app ↦ elim found_app [
      | some app ↦ (open_gate tk app, db)
      | none ↦ after_insert tk (ensure_tenant_app sql (env.up 2) (gate_row id tk) db) db
    ]
  ]

  -- `Require`: `tenant` is the trusted key of the call, `valid` is `ValidTenantKey`.
  unfoldable pub require : (Text → Bool) → Option Text → ℕ → Db → Result Caller × Db
  require valid none id db = (err (plain app_unauthorized), db)
  require valid (some tk) id db =
      if valid tk then ensure_trusted id tk db else (err (plain app_unauthorized), db)

-- A facade: the call behind the gate.
unfoldable pub behind_gate :
    {A : Type 0} → Result Caller × Db → (Db → Result A × Db) → Result A × Db
behind_gate (err e, db) call = (err e, db)
behind_gate (ok c, db) call = call db
