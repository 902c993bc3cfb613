-- ===== src/Rpc/Reading.antt =====
-- The RPCs that read change nothing.
use license_service.Prelude.{◌≡◌, refl, sym, ap, ◌∙◌, Bool, true, false}
use license_service.Xcodes.{Result, ok, err, bind-cases, ok-injective}
use license_service.Store.Models.{Db}
use license_service.Store.Reply.{transaction}
use license_service.Store.Atomic.{transaction-keeps, guard-keeps}
use license_service.Activation.Service.{Deps}
use license_service.Admin.Scope.{Caller, require_platform_scope}
use license_service.Admin.Keys
use license_service.Admin.Keys.{as_operator, reading}
use license_service.Admin.Grants
use license_service.Admin.Devices
use license_service.Admin.Tenants
use license_service.Admin.Tenants.{
  kept, create_config_chain, update_config_chain, delete_config_chain, UpdateRequest,
  mint_unique_app_key, app_key_gen_attempts, refuse_existing, config_row, config_for_tenant_scoped,
  edited,
}
use license_service.Rpc.{Context, Request, Reply}
use license_service.Rpc.Facade
use license_service.Rpc.Facade.{Root, require_caller, operator}
use license_service.Rpc.Handler.{handle, reply}

-- The RPCs that only read.
abbrev pub is_reading : Request → Bool
is_reading Request.ping = true
is_reading Request.health = true
is_reading (Request.show_key id) = true
is_reading (Request.list_keys st limit) = true
is_reading (Request.list_key_devices id) = true
is_reading (Request.show_trial fp m) = true
is_reading Request.show_pub_key = true
is_reading (Request.get_tenant_config tk) = true
is_reading Request.list_tenant_configs = true
is_reading _ = false

pub reply-after : {A : Type 0} (f : A → Reply) (x : Result A × Db) → (reply f x).1 ≡ x.1
unfolding reply
reply-after f (ok a, db) = refl
reply-after f (err e, db) = refl

as_operator-keeps :
    {A : Type 0} (P : Db → Type 0) (c : Caller) (body : Db → Result A × Db) (db : Db)
    → P db
    → P (body db).1
    → P (as_operator c body db).1
unfolding as_operator
as_operator-keeps P c body db now after =
    guard-keeps P (require_platform_scope c) _ db now λ _. after

reading-same :
    {A : Type 0} (f : Db → Result A) (begins commits : Bool) (db : Db)
    → (transaction begins commits (reading f) db).1 ≡ db
unfolding reading
reading-same f begins commits db =
    transaction-keeps (λ x. x ≡ db) begins commits (reading f) db refl
      λ a db' e. bind-cases (f db) _ e λ a _ e₁. sym (ap (λ r. r.1) (ok-injective e₁))

module _ (d : Deps) (r : Root d) (ctx : Context) where
  pub handle-reading :
      (req : Request) (db : Db) → is_reading req ≡ true → (handle d r ctx req db).1 ≡ db
  unfolding handle Facade.show_key Facade.list_keys Facade.list_key_devices Facade.show_trial
      Facade.show_pub_key Facade.get_tenant_config Facade.list_tenant_configs Keys.show_key
      Keys.list_keys Devices.list_key_devices Grants.show_trial Grants.show_pub_key
      Tenants.get_tenant_config Tenants.list_tenant_configs
  handle-reading Request.ping db h = refl
  handle-reading Request.health db h = reply-after _ _
  handle-reading (Request.show_key id) db h =
      reply-after _ _
      ∙ as_operator-keeps (λ x. x ≡ db) (operator d r ctx) _ db refl (reading-same _ _ _ db)
  handle-reading (Request.list_keys st limit) db h =
      reply-after _ _ ∙ as_operator-keeps (λ x. x ≡ db) (operator d r ctx) _ db refl refl
  handle-reading (Request.list_key_devices id) db h =
      reply-after _ _
      ∙ as_operator-keeps (λ x. x ≡ db) (operator d r ctx) _ db refl (reading-same _ _ _ db)
  handle-reading (Request.show_trial fp m) db h =
      reply-after _ _ ∙ as_operator-keeps (λ x. x ≡ db) (operator d r ctx) _ db refl refl
  handle-reading Request.show_pub_key db h =
      reply-after _ _ ∙ as_operator-keeps (λ x. x ≡ db) (operator d r ctx) _ db refl refl
  handle-reading (Request.get_tenant_config tk) db h = reply-after _ _
  handle-reading Request.list_tenant_configs db h = reply-after _ _
  handle-reading _ db h = absurd cc
