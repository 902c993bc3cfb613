-- ===== src/Rpc/Client/Agrees.antt =====
-- The two backends of pkg.Service: the client of a server, and the handler in the process.
use license_service.Prelude.{◌≡◌, refl, sym, ap, Bool, true, false, if◌then◌else◌, Text, Option}
use license_service.Store.Models.{Db}
use license_service.Activation.Service.{Deps}
use license_service.Interceptor.{intercept}
use license_service.Rpc.{Context, Request}
use license_service.Rpc.Facade.{Root}
use license_service.Rpc.Handler.{handle}
use license_service.Rpc.Wire.{Edge, lifted, validated, serve}
use license_service.Rpc.Client.{Forwarding, Returned, answered, unimplemented, remote, call}

-- The RPCs on the configuration rows of tenants.
abbrev pub is_tenant_config : Request → Bool
is_tenant_config (Request.create_tenant_config tk name) = true
is_tenant_config (Request.get_tenant_config tk) = true
is_tenant_config (Request.update_tenant_config req) = true
is_tenant_config Request.list_tenant_configs = true
is_tenant_config (Request.delete_tenant_config tk) = true
is_tenant_config _ = false

module _ (d : Deps) (r : Root d) (e : Edge) (f : Forwarding e) where
  -- The server has the caller's context.
  lifted-forward :
      (ctx : Context) → ctx.incoming ≡ ctx.tenant → lifted d r e (f.forward ctx) ctx ≡ ctx
  lifted-forward ctx same =
      rw (f.forward-incoming ctx, f.forward-tenant ctx, f.forward-actor ctx)
        (ap {A = Option Text} (λ x. record ctx { incoming = x }) (sym same))

  -- What the handler in the process does with the call.
  abbrev pub in_process : Context → Request → Db → Returned × Db
  in_process ctx req db =
      let out = handle d r ctx req db in (answered (intercept e.marshals out.0), out.1)

  remote_lem :
      (ctx : Context) (req : Request) (db : Db)
      → ctx.incoming ≡ ctx.tenant
      → e.violates req ≡ false
      → remote d r e f ctx req db ≡ in_process ctx req db
  unfolding remote serve validated
  remote_lem ctx req db same valid = rw (lifted-forward ctx same, valid) refl

  call_cases :
      (ctx : Context) (req : Request) (db : Db)
      → call d r e f ctx req db
        ≡ (if is_tenant_config req then (unimplemented, db) else remote d r e f ctx req db)
  unfolding call
  call_cases ctx Request.ping db = refl
  call_cases ctx _ db = refl

  -- A caller whose incoming tenant key is the trusted one of its context gets the same from either
  -- backend, for a request that breaks no rule of its message: the client hands back what the handler
  -- in the process answers, its error as the status that the interceptor makes of it, and leaves the
  -- same database; but for the RPCs on the configuration rows of tenants, which the client does not
  -- know: they end with Unimplemented and change nothing.
  pub call-in_process :
      (ctx : Context) (req : Request) (db : Db)
      → ctx.incoming ≡ ctx.tenant
      → e.violates req ≡ false
      → call d r e f ctx req db
        ≡ (if is_tenant_config req then (unimplemented, db) else in_process ctx req db)
  call-in_process ctx req db same valid =
      rw (call_cases ctx req db, remote_lem ctx req db same valid) refl
