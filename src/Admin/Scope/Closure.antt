-- ===== src/Admin/Scope/Closure.antt =====
-- Whom the scope rules admit.
use license_service.Prelude.{
  ◌≡◌, ◌≢◌, ◌↔◌, refl, Text, str_eq, [], ◌∷◌, none, some, if◌then◌else◌, arith,
}
use license_service.Xcodes.{ok, err, Error}
use license_service.Store.Models.{LicenseApp}
use license_service.Admin.Scope.{
  platform, Caller, actor_scope, scope_from_ctx, require_platform_scope, visible_in_tenant,
  authorize_app_tenant,
}

-- Where an injected tenant key is never empty, the platform's RPCs admit exactly a platform actor
-- without an injected tenant key.
pub require_platform_scope_iff :
    (c : Caller)
    → c.tenant ≢ some []
    → (require_platform_scope c ≡ ok tt) ↔ ((c.tenant ≡ none) × (c.actor ≡ some platform))
unfolding require_platform_scope scope_from_ctx actor_scope str_eq
require_platform_scope_iff c h = grind arith

-- A row that the scope does not see is answered like a missing one.
pub authorize-visible :
    (scope : Text) (app : LicenseApp) (missing : Error)
    → authorize_app_tenant scope app missing
      ≡ (if visible_in_tenant scope app then ok tt else err missing)
unfolding authorize_app_tenant visible_in_tenant
authorize-visible [] app missing = refl
authorize-visible (x ∷ scope) app missing = refl
