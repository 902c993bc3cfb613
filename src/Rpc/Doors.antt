-- ===== src/Rpc/Doors.antt =====
-- Who is let in: the gate of the client RPCs, and the platform's RPCs.
use license_service.Prelude.{
  ◌≡◌, ◌≢◌, refl, ap, Bool, true, false, Text, str_eq, [], ◌∷◌, Option, none, some, if◌then◌else◌,
  Bool-cases, Option-cases, inl, inr,
}
use license_service.Xcodes.{Result, err, plain, Code, Error, category, app_unauthorized}
use license_service.Store.Models.{Db}
use license_service.Activation.Service.{Deps}
use license_service.Admin.Scope.{
  Caller, Actor, platform, other, require_platform_scope, scope_from_ctx, actor_scope,
}
use license_service.Admin.Keys.{as_operator}
use license_service.Interceptor.{
  intercept, status, passed_through, unauthenticated, category_to_grpc,
}
use license_service.Tenant.{require, behind_gate}
use license_service.Rpc.{Context, Request}
use license_service.Rpc.Facade
use license_service.Rpc.Facade.{Root, require_caller, operator}
use license_service.Admin.Keys
use license_service.Admin.Grants
use license_service.Admin.Devices
use license_service.Rpc.Handler.{handle, reply}
use license_service.Rpc.Wire.{Edge, lifted, validated, serve}

-- The RPCs behind the gate.
abbrev pub is_gated : Request → Bool
is_gated (Request.activate req) = true
is_gated (Request.deactivate req) = true
is_gated (Request.trial_start req) = true
is_gated _ = false

-- The RPCs of the platform's operators.
abbrev pub is_operators : Request → Bool
is_operators (Request.create_key req) = true
is_operators (Request.show_key id) = true
is_operators (Request.list_keys st limit) = true
is_operators (Request.update_key req) = true
is_operators (Request.revoke_key id) = true
is_operators (Request.unrevoke_key id) = true
is_operators (Request.delete_key id confirm) = true
is_operators (Request.grant_module id g) = true
is_operators (Request.revoke_module id m) = true
is_operators (Request.list_key_devices id) = true
is_operators (Request.kick_device id token) = true
is_operators (Request.show_trial fp m) = true
is_operators (Request.reset_trial fp m) = true
is_operators Request.show_pub_key = true
is_operators _ = false

-- What an operator's RPC refuses a caller with.
abbrev pub refusal : Caller → Code
refusal c = elim c.tenant [
  | some key ↦ Code.forbidden
  | none ↦ elim c.actor [ none ↦ Code.unauthorized | some a ↦ Code.forbidden ]
]

require_platform_scope-refusal :
    (tenant : Option Text) (actor : Option Actor)
    → tenant ≢ some []
    → (tenant ≡ none → actor ≢ some platform)
    → let c : Caller = record { tenant = tenant; actor = actor } in
      require_platform_scope c ≡ err (plain (refusal c))
unfolding require_platform_scope scope_from_ctx actor_scope str_eq
require_platform_scope-refusal (some []) actor named outside = absurd (named refl)
require_platform_scope-refusal (some (x ∷ key)) actor named outside = refl
require_platform_scope-refusal none none named outside = refl
require_platform_scope-refusal none (some platform) named outside = absurd (outside refl refl)
require_platform_scope-refusal none (some other) named outside = refl

as_operator-refused :
    {A : Type 0} (c : Caller) (body : Db → Result A × Db) (db : Db) (x : Error)
    → require_platform_scope c ≡ err x
    → as_operator c body db ≡ (err x, db)
unfolding as_operator
as_operator-refused c body db x h = rw (h, as_operator) refl

module _ (d : Deps) (r : Root d) (e : Edge) where
  closed_gate :
      (ctx : Context) (db : Db)
      → ((tk : Text) → ctx.incoming ≡ some tk → r.valid tk ≡ false)
      → require_caller d r ctx db ≡ (err (plain app_unauthorized), db)
  unfolding require_caller require
  closed_gate ctx db shut = elim (Option-cases ctx.incoming) [
    | inl missing ↦ rw missing refl
    | inr (tk, there) ↦ rw (there, shut tk there) refl
  ]

  gated-refused :
      (ctx : Context) (req : Request) (db : Db)
      → is_gated req ≡ true
      → ((tk : Text) → ctx.incoming ≡ some tk → r.valid tk ≡ false)
      → handle d r ctx req db ≡ (err (plain app_unauthorized), db)
  unfolding handle reply behind_gate Facade.activate Facade.deactivate Facade.trial_start
  gated-refused ctx (Request.activate req) db h shut = rw (closed_gate ctx db shut) refl
  gated-refused ctx (Request.deactivate req) db h shut = rw (closed_gate ctx db shut) refl
  gated-refused ctx (Request.trial_start req) db h shut = rw (closed_gate ctx db shut) refl
  gated-refused ctx _ db h shut = absurd cc

  operators-refused :
      (ctx : Context) (req : Request) (db : Db) (x : Error)
      → is_operators req ≡ true
      → require_platform_scope (operator d r ctx) ≡ err x
      → handle d r ctx req db ≡ (err x, db)
  unfolding handle reply Facade.create_key Facade.show_key Facade.list_keys Facade.update_key
      Facade.revoke_key Facade.unrevoke_key Facade.delete_key Facade.grant_module
      Facade.revoke_module Facade.list_key_devices Facade.kick_device Facade.show_trial
      Facade.reset_trial Facade.show_pub_key Keys.create_key Keys.show_key Keys.list_keys
      Keys.update_key Keys.revoke_key Keys.unrevoke_key Keys.delete_key Grants.grant_module
      Grants.revoke_module Devices.list_key_devices Devices.kick_device Grants.show_trial
      Grants.reset_trial Grants.show_pub_key
  operators-refused ctx (Request.create_key req) db x h shut =
      ap (reply _) (as_operator-refused (operator d r ctx) _ db x shut)
  operators-refused ctx (Request.show_key id) db x h shut =
      ap (reply _) (as_operator-refused (operator d r ctx) _ db x shut)
  operators-refused ctx (Request.list_keys st limit) db x h shut =
      ap (reply _) (as_operator-refused (operator d r ctx) _ db x shut)
  operators-refused ctx (Request.update_key req) db x h shut =
      ap (reply _) (as_operator-refused (operator d r ctx) _ db x shut)
  operators-refused ctx (Request.revoke_key id) db x h shut =
      ap (reply _) (as_operator-refused (operator d r ctx) _ db x shut)
  operators-refused ctx (Request.unrevoke_key id) db x h shut =
      ap (reply _) (as_operator-refused (operator d r ctx) _ db x shut)
  operators-refused ctx (Request.delete_key id (some true)) db x h shut =
      ap (reply _) (as_operator-refused (operator d r ctx) _ db x shut)
  operators-refused ctx (Request.delete_key id (some false)) db x h shut =
      ap (reply _) (as_operator-refused (operator d r ctx) _ db x shut)
  operators-refused ctx (Request.delete_key id none) db x h shut =
      ap (reply _) (as_operator-refused (operator d r ctx) _ db x shut)
  operators-refused ctx (Request.grant_module id g) db x h shut =
      ap (reply _) (as_operator-refused (operator d r ctx) _ db x shut)
  operators-refused ctx (Request.revoke_module id m) db x h shut =
      ap (reply _) (as_operator-refused (operator d r ctx) _ db x shut)
  operators-refused ctx (Request.list_key_devices id) db x h shut =
      ap (reply _) (as_operator-refused (operator d r ctx) _ db x shut)
  operators-refused ctx (Request.kick_device id token) db x h shut =
      ap (reply _) (as_operator-refused (operator d r ctx) _ db x shut)
  operators-refused ctx (Request.show_trial fp m) db x h shut =
      ap (reply _) (as_operator-refused (operator d r ctx) _ db x shut)
  operators-refused ctx (Request.reset_trial fp m) db x h shut =
      ap (reply _) (as_operator-refused (operator d r ctx) _ db x shut)
  operators-refused ctx Request.show_pub_key db x h shut =
      ap (reply _) (as_operator-refused (operator d r ctx) _ db x shut)
  operators-refused ctx _ db x h shut = absurd cc

  serve-refused :
      (md : e.Metadata) (ctx : Context) (req : Request) (db : Db) (c : Code)
      → handle d r (lifted d r e md ctx) req db ≡ (err (plain c), db)
      → serve d r e md ctx req db ≡ (
        if e.violates req then passed_through else status (category_to_grpc (category c)) c none,
        db,
      )
  unfolding serve validated intercept
  serve-refused md ctx req db c h = elim (Bool-cases (e.violates req)) [
    | inl v ↦ rw v refl
    | inr v ↦ rw (v, h) refl
  ]

  -- A client's RPC whose metadata has no tenant key, or a malformed one, ends with UNAUTHENTICATED and
  -- APP_UNAUTHORIZED, if the request breaks no rule of its message, and changes nothing either way.
  pub serve-closed :
      (md : e.Metadata) (ctx : Context) (req : Request) (db : Db)
      → is_gated req ≡ true
      → ((tk : Text) → e.incoming_key md ≡ some tk → r.valid tk ≡ false)
      → serve d r e md ctx req db ≡ (
        if e.violates req then passed_through else status unauthenticated app_unauthorized none,
        db,
      )
  unfolding category_to_grpc category
  serve-closed md ctx req db gated shut =
      serve-refused md ctx req db app_unauthorized
        (gated-refused (lifted d r e md ctx) req db gated shut)

  -- An operator's RPC of a caller with an injected tenant key, or of one that is no platform actor,
  -- ends with UNAUTHENTICATED if there is neither a tenant key nor an actor, else with
  -- PERMISSION_DENIED, if the request breaks no rule of its message, and changes nothing either way.
  pub serve-platform_only :
      (md : e.Metadata) (ctx : Context) (req : Request) (db : Db)
      → is_operators req ≡ true
      → e.trusted_tenant_key md ≢ some []
      → (e.trusted_tenant_key md ≡ none → e.trusted_actor md ≢ some platform)
      → let code = refusal (operator d r (lifted d r e md ctx)) in
        serve d r e md ctx req db ≡ (
          if e.violates req
              then passed_through
              else status (category_to_grpc (category code)) code none,
          db,
        )
  serve-platform_only md ctx req db theirs named outside =
      serve-refused md ctx req db (refusal (operator d r (lifted d r e md ctx))) (
        operators-refused (lifted d r e md ctx) req db _ theirs (
          require_platform_scope-refusal (e.trusted_tenant_key md) (e.trusted_actor md) named
            outside))
