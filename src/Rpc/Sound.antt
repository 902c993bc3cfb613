-- ===== src/Rpc/Sound.antt =====
-- The database after the requests that the server answers.
use license_service.Prelude.{◌≡◌, refl, sym, subst, true, Bool-cases, inl, inr}
use license_service.Xcodes.{Result, ok, err}
use license_service.Store.Models.{Db}
use license_service.Activation.Service.{Deps}
use license_service.Tenant
use license_service.Tenant.{require, ensure_trusted, after_insert, behind_gate}
use license_service.System.Ownership.{WellFormed, apps-WellFormed}
use license_service.System.Client.{activate-WellFormed, deactivate-WellFormed}
use license_service.System.Trial.{trial_start-WellFormed}
use license_service.System.Lifecycle.{create_key-WellFormed}
use license_service.System.Changes.{
  update_key-WellFormed, revoke_key-WellFormed, unrevoke_key-WellFormed,
}
use license_service.System.Deletion.{delete_key-WellFormed}
use license_service.System.Grants.{
  grant_module-WellFormed, revoke_module-WellFormed, reset_trial-WellFormed, kick_device-WellFormed,
}
use license_service.System.Reachable.{no_rows, no_rows-WellFormed}
use license_service.Rpc.{Context, Request, Reply}
use license_service.Rpc.Facade
use license_service.Rpc.Facade.{Root, require_caller, operator}
use license_service.Rpc.Handler.{handle, reply}
use license_service.Rpc.Wire.{Edge, lifted, validated, serve}
use license_service.Rpc.Reading.{reply-after, is_reading, handle-reading}
use license_service.Rpc.TenantRows.{
  OnlyApps, require-OnlyApps, create_tenant_config-OnlyApps, update_tenant_config-OnlyApps,
  delete_tenant_config-OnlyApps,
}

OnlyApps-WellFormed : (db db' : Db) → WellFormed db → OnlyApps db db' → WellFormed db'
OnlyApps-WellFormed db db' good only =
    subst WellFormed (sym only) (apps-WellFormed db good db'.apps)

behind_gate-WellFormed :
    {A : Type 0} (gate : Result Tenant.Caller × Db) (call : Db → Result A × Db)
    → WellFormed gate.1
    → ((db : Db) → WellFormed db → WellFormed (call db).1)
    → WellFormed (behind_gate gate call).1
unfolding behind_gate
behind_gate-WellFormed (err e, db) call good keeps = good
behind_gate-WellFormed (ok c, db) call good keeps = keeps db good

module _ (d : Deps) (r : Root d) (ctx : Context) where
  open r use {domain}

  gated-WellFormed :
      {A : Type 0} (call : Db → Result A × Db) (db : Db)
      → WellFormed db
      → ((db : Db) → WellFormed db → WellFormed (call db).1)
      → WellFormed (behind_gate (require_caller d r ctx db) call).1
  unfolding require_caller
  gated-WellFormed call db good keeps =
      let gate = require_caller d r ctx db in
      behind_gate-WellFormed gate call
        (OnlyApps-WellFormed db gate.1 good
          (require-OnlyApps d.sql ctx.gate_env r.valid ctx.incoming ctx.new_id db))
        keeps

  replied :
      {A : Type 0} (f : A → Reply) (x : Result A × Db) → WellFormed x.1 → WellFormed (reply f x).1
  replied f x good = subst WellFormed (sym (reply-after f x)) good

  handle-WellFormed :
      (req : Request) (db : Db) → WellFormed db → WellFormed (handle d r ctx req db).1
  unfolding handle Facade.activate Facade.deactivate Facade.trial_start Facade.create_key
      Facade.update_key Facade.revoke_key Facade.unrevoke_key Facade.delete_key Facade.grant_module
      Facade.revoke_module Facade.kick_device Facade.reset_trial
  handle-WellFormed (Request.activate req) db good =
      replied _ _ (gated-WellFormed _ db good (activate-WellFormed d domain ctx.env req))
  handle-WellFormed (Request.deactivate req) db good =
      replied _ _ (gated-WellFormed _ db good (deactivate-WellFormed d domain ctx.env req))
  handle-WellFormed (Request.trial_start req) db good =
      replied _ _ (gated-WellFormed _ db good (trial_start-WellFormed d domain ctx.env req))
  handle-WellFormed (Request.create_key req) db good =
      replied _ _ (create_key-WellFormed d ctx.env ctx.groups (operator d r ctx) req db good)
  handle-WellFormed (Request.update_key req) db good =
      replied _ _ (update_key-WellFormed d ctx.env (operator d r ctx) req db good)
  handle-WellFormed (Request.revoke_key id) db good =
      replied _ _ (revoke_key-WellFormed d ctx.env (operator d r ctx) id db good)
  handle-WellFormed (Request.unrevoke_key id) db good =
      replied _ _ (unrevoke_key-WellFormed d ctx.env (operator d r ctx) id db good)
  handle-WellFormed (Request.delete_key id confirm) db good =
      replied _ _ (delete_key-WellFormed d ctx.env (operator d r ctx) id confirm db good)
  handle-WellFormed (Request.grant_module id g) db good =
      replied _ _ (grant_module-WellFormed d domain ctx.env (operator d r ctx) id g db good)
  handle-WellFormed (Request.revoke_module id m) db good =
      replied _ _ (revoke_module-WellFormed d domain ctx.env (operator d r ctx) id m db good)
  handle-WellFormed (Request.kick_device id token) db good =
      replied _ _ (kick_device-WellFormed d domain ctx.env (operator d r ctx) id token db good)
  handle-WellFormed (Request.reset_trial fp m) db good =
      replied _ _ (reset_trial-WellFormed d domain ctx.env (operator d r ctx) fp m db good)
  handle-WellFormed (Request.create_tenant_config tk name) db good =
      replied _ _ (OnlyApps-WellFormed db _ good (create_tenant_config-OnlyApps d r ctx tk name db))
  handle-WellFormed (Request.update_tenant_config req) db good =
      replied _ _ (OnlyApps-WellFormed db _ good (update_tenant_config-OnlyApps d r ctx req db))
  handle-WellFormed (Request.delete_tenant_config tk) db good =
      replied _ _ (OnlyApps-WellFormed db _ good (delete_tenant_config-OnlyApps d r ctx tk db))
  handle-WellFormed req db good = subst WellFormed (sym (handle-reading d r ctx req db refl)) good

module _ (d : Deps) (r : Root d) (e : Edge) where
  -- The databases that the server gets to.
  pub data Served : Db → Type 0 where
    nothing_served : Served no_rows
    served :
        (md : e.Metadata) (ctx : Context) (req : Request) (db : Db)
        → Served db
        → Served (serve d r e md ctx req db).1

  serve-WellFormed :
      (md : e.Metadata) (ctx : Context) (req : Request) (db : Db)
      → WellFormed db
      → WellFormed (serve d r e md ctx req db).1
  unfolding serve validated
  serve-WellFormed md ctx req db good = elim (Bool-cases (e.violates req)) [
    | inl v ↦ rw v good
    | inr v ↦ rw v (handle-WellFormed d r (lifted d r e md ctx) req db good)
  ]

  -- Whatever requests a server with an empty database answers, of any callers, in any order and with
  -- any failures, a device has at most one slot of a key, a key that is not there has no devices and
  -- no entitlements, every key has between 1 and 100 slots and a time of revocation exactly if it is
  -- revoked, and no key has over 100 devices.
  pub Served-WellFormed : (db : Db) → Served db → WellFormed db
  Served-WellFormed _ nothing_served = no_rows-WellFormed d r.domain
  Served-WellFormed _ (served md ctx req db before) =
      serve-WellFormed md ctx req db (Served-WellFormed db before)

  -- The RPCs that read leave the database as it is, whatever they answer: Ping, Health, ShowKey,
  -- ListKeys, ListKeyDevices, ShowTrial, ShowPubKey, GetTenantConfig and ListTenantConfigs.
  pub serve-reading :
      (md : e.Metadata) (ctx : Context) (req : Request) (db : Db)
      → is_reading req ≡ true
      → (serve d r e md ctx req db).1 ≡ db
  unfolding serve validated
  serve-reading md ctx req db h = elim (Bool-cases (e.violates req)) [
    | inl v ↦ rw v refl
    | inr v ↦ rw v (handle-reading d r (lifted d r e md ctx) req db h)
  ]
