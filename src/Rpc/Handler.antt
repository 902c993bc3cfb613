-- ===== src/Rpc/Handler.antt =====
-- pkg/handler/license.go: every RPC, handed to the facade of its name; the replies as messages.
use license_service.Xcodes.{Result, ok, err}
use license_service.Store.Models.{Db}
use license_service.Activation.Service.{Deps}
use license_service.Rpc.{
  Context, Request, Reply, pong, healthy, activated, deactivated, trial_started, key_created,
  key_info, keys_listed, key_deleted, module_granted, module_revoked, devices_listed, device_kicked,
  trials_shown, trial_reset, pub_keys_shown, tenant_config, tenant_configs_listed,
  tenant_config_deleted,
}
use license_service.Rpc.Facade
use license_service.Rpc.Facade.{Root}

-- A call's outcome, with its reply as a message.
unfoldable pub reply : {A : Type 0} → (A → Reply) → Result A × Db → Result Reply × Db
reply f (ok a, db) = (ok (f a), db)
reply f (err e, db) = (err e, db)

-- One method for each RPC.
unfoldable pub handle : (d : Deps) → Root d → Context → Request → Db → Result Reply × Db
handle d r ctx Request.ping db = (ok (pong (Facade.ping d r ctx)), db)
handle d r ctx Request.health db = reply healthy (Facade.health d r ctx, db)
handle d r ctx (Request.activate req) db = reply activated (Facade.activate d r ctx req db)
handle d r ctx (Request.deactivate req) db = reply deactivated (Facade.deactivate d r ctx req db)
handle d r ctx (Request.trial_start req) db =
    reply trial_started (Facade.trial_start d r ctx req db)
handle d r ctx (Request.create_key req) db = reply key_created (Facade.create_key d r ctx req db)
handle d r ctx (Request.show_key id) db = reply key_info (Facade.show_key d r ctx id db)
handle d r ctx (Request.list_keys status limit) db =
    reply keys_listed (Facade.list_keys d r ctx status limit db)
handle d r ctx (Request.update_key req) db = reply key_info (Facade.update_key d r ctx req db)
handle d r ctx (Request.revoke_key id) db = reply key_info (Facade.revoke_key d r ctx id db)
handle d r ctx (Request.unrevoke_key id) db = reply key_info (Facade.unrevoke_key d r ctx id db)
handle d r ctx (Request.delete_key id confirm) db =
    reply (λ _. key_deleted) (Facade.delete_key d r ctx id confirm db)
handle d r ctx (Request.grant_module id g) db =
    reply module_granted (Facade.grant_module d r ctx id g db)
handle d r ctx (Request.revoke_module id m) db =
    reply (λ _. module_revoked) (Facade.revoke_module d r ctx id m db)
handle d r ctx (Request.list_key_devices id) db =
    reply devices_listed (Facade.list_key_devices d r ctx id db)
handle d r ctx (Request.kick_device id token) db =
    reply device_kicked (Facade.kick_device d r ctx id token db)
handle d r ctx (Request.show_trial fp m) db = reply trials_shown (Facade.show_trial d r ctx fp m db)
handle d r ctx (Request.reset_trial fp m) db =
    reply trial_reset (Facade.reset_trial d r ctx fp m db)
handle d r ctx Request.show_pub_key db = reply pub_keys_shown (Facade.show_pub_key d r ctx db)
handle d r ctx (Request.create_tenant_config tk name) db =
    reply tenant_config (Facade.create_tenant_config d r ctx tk name db)
handle d r ctx (Request.get_tenant_config tk) db =
    reply tenant_config (Facade.get_tenant_config d r ctx tk db)
handle d r ctx (Request.update_tenant_config req) db =
    reply tenant_config (Facade.update_tenant_config d r ctx req db)
handle d r ctx Request.list_tenant_configs db =
    reply tenant_configs_listed (Facade.list_tenant_configs d r ctx db)
handle d r ctx (Request.delete_tenant_config tk) db =
    reply (λ _. tenant_config_deleted) (Facade.delete_tenant_config d r ctx tk db)
