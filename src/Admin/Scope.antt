-- ===== src/Admin/Scope.antt =====
-- internal/service/admin/actor.go: who may call what. The two identities come from packages
-- tenantctx and grpcx.
pub mod Closure
use license_service.Prelude.{Bool, true, Text, str_eq, [], ◌∷◌, Option, none, some, if◌then◌else◌}
use license_service.Xcodes.{Result, ok, err, plain, Error, Code, ◌>>=◌}
use license_service.Store.Models.{LicenseApp, app_tenant_key}

-- The user type of a verified actor.
pub data Actor : Type 0 where
  platform other : Actor

-- `TenantKeyFromCtx` and `MustActorFromCtx` of the context of a call.
pub record Caller : Type 0 where
  pub tenant : Option Text
  pub actor : Option Actor

-- Without an injected tenant key: the scope of the actor.
unfoldable pub actor_scope : Option Actor → Result Text
actor_scope none = err (plain Code.unauthorized)
actor_scope (some platform) = ok []
actor_scope (some other) = err (plain Code.forbidden)

-- "" is the cross-view of the platform.
unfoldable pub scope_from_ctx : Caller → Result Text
scope_from_ctx c = elim c.tenant [ none ↦ actor_scope c.actor | some key ↦ ok key ]

unfoldable pub require_platform_scope : Caller → Result (Unit {0})
require_platform_scope c = do
  scope ← scope_from_ctx c
  if str_eq scope [] then ok tt else err (plain Code.forbidden)

unfoldable pub visible_in_tenant : Text → LicenseApp → Bool
visible_in_tenant [] app = true
visible_in_tenant (x ∷ scope) app = str_eq (app_tenant_key app) (x ∷ scope)

unfoldable pub authorize_app_tenant : Text → LicenseApp → Error → Result (Unit {0})
authorize_app_tenant [] app not_found = ok tt
authorize_app_tenant (x ∷ scope) app not_found =
    if str_eq (app_tenant_key app) (x ∷ scope) then ok tt else err not_found

-- The tenant key of a new row.
unfoldable pub clamp_tenant_key : Text → Text → Text → Text
clamp_tenant_key [] [] app_key = app_key
clamp_tenant_key [] (x ∷ requested) app_key = x ∷ requested
clamp_tenant_key (x ∷ scope) requested app_key = x ∷ scope
