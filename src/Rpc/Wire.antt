-- ===== src/Rpc/Wire.antt =====
-- The chain of pkg/server.go around the handler. The metadata and what the interceptors of packages
-- grpcx and tenantctx read of it, protovalidate and the marshalling of details are parameters.
use license_service.Prelude.{Bool, Text, Option, if◌then◌else◌}
use license_service.Xcodes.{Result, err, unwrapped, Details}
use license_service.Store.Models.{Db}
use license_service.Activation.Service.{Deps}
use license_service.Admin.Scope.{Actor}
use license_service.Interceptor.{Answer, intercept}
use license_service.Rpc.{Context, Request, Reply}
use license_service.Rpc.Facade.{Root}
use license_service.Rpc.Handler.{handle}

pub record Edge : Type 1 where
  pub Metadata : Type 0
  -- What `TrustedActorUnary` and `TrustedTenantKeyUnary` put into the context, and the key that
  -- `TrustedKeyFromIncoming` reads.
  pub trusted_actor : Metadata → Option Actor
  pub trusted_tenant_key : Metadata → Option Text
  pub incoming_key : Metadata → Option Text
  -- A request that breaks a rule of its message.
  pub violates : Request → Bool
  pub marshals : Details → Bool

module _ (d : Deps) (r : Root d) (e : Edge) where
  -- The context as the interceptors leave it.
  abbrev pub lifted : e.Metadata → Context → Context
  lifted md ctx = record ctx {
    incoming = e.incoming_key md;
    tenant = e.trusted_tenant_key md;
    actor = e.trusted_actor md;
  }

  -- The innermost interceptor: the error of a violation is a status that no code wraps.
  unfoldable pub validated : Context → Request → Db → Result Reply × Db
  validated ctx req db = if e.violates req then (err unwrapped, db) else handle d r ctx req db

  -- `NewServer`'s chain: errors outermost, then the two identities, then validation.
  unfoldable pub serve : e.Metadata → Context → Request → Db → Answer Reply × Db
  serve md ctx req db =
      let outcome = validated (lifted md ctx) req db in (intercept e.marshals outcome.0, outcome.1)
