-- ===== src/Rpc.antt =====
-- The RPCs of the license service: what a call carries, and its requests and replies.
pub mod Facade
pub mod Handler
pub mod Wire
pub mod Client
pub mod Doors
pub mod Reading
pub mod TenantRows
pub mod Sound
use license_service.Prelude.{ℕ, ℤ, Bool, Text, List, Option}
use license_service.Xcodes.{DeviceSlotInfo}
use license_service.Store.Reply.{Env}
use license_service.Activation.Handlers.{
  ActivateRequest, ActivateResponse, DeactivateRequest, TrialStartRequest, TrialStartResponse,
}
use license_service.Admin.Scope.{Actor}
use license_service.Admin.Expiry.{Grant}
use license_service.Admin.View.{KeyInfo, EntitlementInfo}
use license_service.Admin.Keys.{CreateKeyRequest, UpdateKeyRequest}
use license_service.Admin.Grants.{TrialInfo}
use license_service.Admin.Tenants.{TenantConfig, UpdateRequest}
use license_service.Health.{HealthChecks}
use license_service.Version.{Pong}

-- The context of a call and what the call meets outside the program.
pub record Context : Type 0 where
  -- `TrustedKeyFromIncoming`: the key in the incoming metadata, which the gate reads.
  pub incoming : Option Text
  -- `TenantKeyFromCtx` and `MustActorFromCtx`, which the operators' RPCs read.
  pub tenant : Option Text
  pub actor : Option Actor
  -- The statements of the gate, and those of the domain.
  pub gate_env : Env
  pub env : Env
  -- The identifier that the database gives to a new row of apps.
  pub new_id : ℕ
  -- `rand.Read` in CreateKey and in CreateTenantConfig.
  pub groups : ℕ → Option (List ℕ)
  pub app_bytes : ℕ → List ℕ
  -- The answer to SELECT 1.
  pub probe : Option ℕ
  -- `time.Now().UnixMilli()` of Ping.
  pub now : ℕ

-- A request of either service, by its RPC.
pub data Request : Type 0 where
  ping health show_pub_key list_tenant_configs : Request
  activate : ActivateRequest → Request
  deactivate : DeactivateRequest → Request
  trial_start : TrialStartRequest → Request
  create_key : CreateKeyRequest → Request
  show_key revoke_key unrevoke_key list_key_devices get_tenant_config : Text → Request
  delete_tenant_config : Text → Request
  list_keys : ℤ → ℕ → Request
  update_key : UpdateKeyRequest → Request
  delete_key : Text → Option Bool → Request
  grant_module : Text → Grant → Request
  revoke_module show_trial reset_trial : Text → ℤ → Request
  kick_device create_tenant_config : Text → Text → Request
  update_tenant_config : UpdateRequest → Request

-- A reply, by its message.
pub data Reply : Type 0 where
  pong : Pong → Reply
  healthy : HealthChecks → Reply
  activated : ActivateResponse → Reply
  deactivated : Bool → Reply
  trial_started : TrialStartResponse → Reply
  key_created : KeyInfo × Text → Reply
  key_info : KeyInfo → Reply
  keys_listed : List KeyInfo → Reply
  key_deleted module_revoked tenant_config_deleted : Reply
  module_granted : EntitlementInfo → Reply
  devices_listed : List DeviceSlotInfo → Reply
  device_kicked : Bool → Reply
  trials_shown : List TrialInfo → Reply
  trial_reset : Bool → Reply
  pub_keys_shown : Text × List (Text × Text) → Reply
  tenant_config : TenantConfig → Reply
  tenant_configs_listed : List TenantConfig → Reply
