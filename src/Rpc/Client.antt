-- ===== src/Rpc/Client.antt =====
-- pkg/client.go: the backend of package pkg's Service that calls a server. The connection, its stubs
-- and the two forwarding interceptors are parameters.
pub mod Agrees
use license_service.Prelude.{◌≡◌, Text, Option}
use license_service.Store.Models.{Db}
use license_service.Activation.Service.{Deps}
use license_service.Interceptor.{Answer}
use license_service.Rpc.{Context, Request, Reply}
use license_service.Rpc.Facade.{Root}
use license_service.Rpc.Wire.{Edge, serve}

-- What `ForwardActorUnary` and `ForwardTenantKeyUnary` put into the metadata of a call: what the
-- server's interceptors, and its gate, read there are the actor and the trusted key of the caller.
pub record Forwarding (e : Edge) : Type 0 where
  pub forward : Context → e.Metadata
  pub forward-actor : (ctx : Context) → e.trusted_actor (forward ctx) ≡ ctx.actor
  pub forward-tenant : (ctx : Context) → e.trusted_tenant_key (forward ctx) ≡ ctx.tenant
  pub forward-incoming : (ctx : Context) → e.incoming_key (forward ctx) ≡ ctx.tenant

-- What a method of `Client` returns: the answer of the server, or codes.Unimplemented of the embedded
-- Unimplemented servers.
pub data Returned : Type 0 where
  answered : Answer Reply → Returned
  unimplemented : Returned

module _ (d : Deps) (r : Root d) (e : Edge) (f : Forwarding e) where
  -- A stub's call, which the server answers.
  unfoldable pub remote : Context → Request → Db → Returned × Db
  remote ctx req db =
      let reply = serve d r e (f.forward ctx) ctx req db in (answered reply.0, reply.1)

  -- The methods of `Client`, those that it has from the embedded servers included.
  unfoldable pub call : Context → Request → Db → Returned × Db
  call ctx Request.ping db = remote ctx Request.ping db
  call ctx (Request.activate req) db = remote ctx (Request.activate req) db
  call ctx (Request.deactivate req) db = remote ctx (Request.deactivate req) db
  call ctx (Request.trial_start req) db = remote ctx (Request.trial_start req) db
  call ctx Request.health db = remote ctx Request.health db
  call ctx (Request.create_key req) db = remote ctx (Request.create_key req) db
  call ctx (Request.show_key id) db = remote ctx (Request.show_key id) db
  call ctx (Request.list_keys status limit) db = remote ctx (Request.list_keys status limit) db
  call ctx (Request.update_key req) db = remote ctx (Request.update_key req) db
  call ctx (Request.revoke_key id) db = remote ctx (Request.revoke_key id) db
  call ctx (Request.unrevoke_key id) db = remote ctx (Request.unrevoke_key id) db
  call ctx (Request.delete_key id confirm) db = remote ctx (Request.delete_key id confirm) db
  call ctx (Request.grant_module id g) db = remote ctx (Request.grant_module id g) db
  call ctx (Request.revoke_module id m) db = remote ctx (Request.revoke_module id m) db
  call ctx (Request.list_key_devices id) db = remote ctx (Request.list_key_devices id) db
  call ctx (Request.kick_device id token) db = remote ctx (Request.kick_device id token) db
  call ctx (Request.show_trial fp m) db = remote ctx (Request.show_trial fp m) db
  call ctx (Request.reset_trial fp m) db = remote ctx (Request.reset_trial fp m) db
  call ctx Request.show_pub_key db = remote ctx Request.show_pub_key db
  call ctx (Request.create_tenant_config tk name) db = (unimplemented, db)
  call ctx (Request.get_tenant_config tk) db = (unimplemented, db)
  call ctx (Request.update_tenant_config req) db = (unimplemented, db)
  call ctx Request.list_tenant_configs db = (unimplemented, db)
  call ctx (Request.delete_tenant_config tk) db = (unimplemented, db)
