-- ===== src/Rpc/Facade.antt =====
-- The facades of internal/service/service.go, one for each RPC.
use license_service.Prelude.{ℕ, ℤ, Bool, Text, List, Option}
use license_service.Xcodes.{Result, DeviceSlotInfo}
use license_service.Store.Models.{Db}
use license_service.Activation.Service.{Deps, Service}
use license_service.Activation.Handlers
use license_service.Activation.Handlers.{
  ActivateRequest, ActivateResponse, DeactivateRequest, TrialStartRequest, TrialStartResponse,
}
use license_service.Tenant
use license_service.Tenant.{require, behind_gate}
use license_service.Admin.Scope.{Caller}
use license_service.Admin.Expiry.{Grant}
use license_service.Admin.View.{KeyInfo, EntitlementInfo}
use license_service.Admin.Keys
use license_service.Admin.Keys.{CreateKeyRequest, UpdateKeyRequest}
use license_service.Admin.Grants
use license_service.Admin.Grants.{TrialInfo}
use license_service.Admin.Devices
use license_service.Admin.Tenants
use license_service.Admin.Tenants.{TenantConfig, UpdateRequest}
use license_service.Health
use license_service.Health.{HealthChecks}
use license_service.Version
use license_service.Version.{Info, Pong}
use license_service.Rpc.{Context}

-- The `Service` of the root; `valid` is `tenantctx.ValidTenantKey`, `info` and `build` are what
-- the linker and the runtime say of the build.
pub record Root (d : Deps) : Type 0 where
  pub domain : Service d
  pub valid : Text → Bool
  pub info : Info
  pub build : Option (List (Text × Text))
  pub started_at : ℕ

module _ (d : Deps) (r : Root d) (ctx : Context) where
  open d use {sql, crypto}
  open r use {domain}

  abbrev pub operator : Caller
  operator = record { tenant = ctx.tenant; actor = ctx.actor }

  unfoldable pub require_caller : Db → Result Tenant.Caller × Db
  require_caller db = require sql ctx.gate_env r.valid ctx.incoming ctx.new_id db

  unfoldable pub ping : Pong
  ping = Version.ping r.info r.build ctx.now r.started_at

  unfoldable pub activate : ActivateRequest → Db → Result ActivateResponse × Db
  activate req db = behind_gate (require_caller db) (Handlers.activate d domain ctx.env req)

  unfoldable pub deactivate : DeactivateRequest → Db → Result Bool × Db
  deactivate req db = behind_gate (require_caller db) (Handlers.deactivate d domain ctx.env req)

  unfoldable pub trial_start : TrialStartRequest → Db → Result TrialStartResponse × Db
  trial_start req db = behind_gate (require_caller db) (Handlers.trial_start d domain ctx.env req)

  unfoldable pub health : Result HealthChecks
  health = Health.health crypto domain.signer ctx.probe

  unfoldable pub create_key : CreateKeyRequest → Db → Result (KeyInfo × Text) × Db
  create_key = Keys.create_key d ctx.env ctx.groups operator

  unfoldable pub show_key : Text → Db → Result KeyInfo × Db
  show_key = Keys.show_key d ctx.env operator

  unfoldable pub list_keys : ℤ → ℕ → Db → Result (List KeyInfo) × Db
  list_keys = Keys.list_keys d ctx.env operator

  unfoldable pub update_key : UpdateKeyRequest → Db → Result KeyInfo × Db
  update_key = Keys.update_key d ctx.env operator

  unfoldable pub revoke_key : Text → Db → Result KeyInfo × Db
  revoke_key = Keys.revoke_key d ctx.env operator

  unfoldable pub unrevoke_key : Text → Db → Result KeyInfo × Db
  unrevoke_key = Keys.unrevoke_key d ctx.env operator

  unfoldable pub delete_key : Text → Option Bool → Db → Result Text × Db
  delete_key = Keys.delete_key d ctx.env operator

  unfoldable pub grant_module : Text → Grant → Db → Result EntitlementInfo × Db
  grant_module = Grants.grant_module d domain ctx.env operator

  unfoldable pub revoke_module : Text → ℤ → Db → Result (Unit {0}) × Db
  revoke_module = Grants.revoke_module d domain ctx.env operator

  unfoldable pub list_key_devices : Text → Db → Result (List DeviceSlotInfo) × Db
  list_key_devices = Devices.list_key_devices d ctx.env operator

  unfoldable pub kick_device : Text → Text → Db → Result Bool × Db
  kick_device = Devices.kick_device d ctx.env operator

  unfoldable pub show_trial : Text → ℤ → Db → Result (List TrialInfo) × Db
  show_trial = Grants.show_trial d domain ctx.env operator

  unfoldable pub reset_trial : Text → ℤ → Db → Result Bool × Db
  reset_trial = Grants.reset_trial d domain ctx.env operator

  unfoldable pub show_pub_key : Db → Result (Text × List (Text × Text)) × Db
  show_pub_key = Grants.show_pub_key d domain ctx.env operator

  unfoldable pub create_tenant_config : Text → Text → Db → Result TenantConfig × Db
  create_tenant_config = Tenants.create_tenant_config sql ctx.env ctx.app_bytes ctx.new_id operator

  unfoldable pub get_tenant_config : Text → Db → Result TenantConfig × Db
  get_tenant_config = Tenants.get_tenant_config sql ctx.env operator

  unfoldable pub update_tenant_config : UpdateRequest → Db → Result TenantConfig × Db
  update_tenant_config = Tenants.update_tenant_config sql ctx.env operator

  unfoldable pub list_tenant_configs : Db → Result (List TenantConfig) × Db
  list_tenant_configs = Tenants.list_tenant_configs sql ctx.env operator

  unfoldable pub delete_tenant_config : Text → Db → Result (Unit {0}) × Db
  delete_tenant_config = Tenants.delete_tenant_config sql ctx.env operator
