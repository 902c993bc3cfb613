-- ===== src/Startup/Construct.antt =====
-- internal/service/service.go, New with setupJobs, and jobs.New and pkg/option under it: which
-- resources a service creates and registers, and what it stops again where it cannot be built.
pub mod Accounted
pub mod Connect
pub mod Server
pub mod Commands
pub mod Jobs
use license_service.Prelude.{
  ◌≡◌, ◌⊎◌, refl, ℕ, Bool, true, false, List, [], ◌∷◌, ◌++◌, Option, none, some, if◌then◌else◌, ℤ,
  inl, inr, arith, sym, ◌∙◌, ap, subst,
}
use license_service.Cert.Payload.{Crypto}
use license_service.Cert.Signer.{Signer}
use license_service.Startup.{
  StartError, Options, RateLimitConfig, SigningConfig, Resolved, resolved, rejected, resolve_signer,
  resolve_domain_options,
}

-- What a manager can have registered.
pub data Component : Type 0 where
  database redis jobs : Component

-- `lifecycle.Manager`: what is registered, the last first.
abbrev pub Manager : Type 0
Manager = List Component

-- `option.Options`: the injected resources.
pub record Injected (Db Rdb Cron : Type 0) : Type 0 where
  pub db : Option Db
  pub redis : Option Rdb
  pub cron : Option Cron

-- What a resource that is not injected adds to the manager.
abbrev pub own : {R : Type 0} → Component → Option R → Manager
own c none = c ∷ []
own c (some r) = []

-- One of `dbx.Connect` and `redisx.Connect`: an injected resource is taken as it is; another one is
-- created and registered, or there is an error and nothing is registered.
pub record Connector (c : Component) (R : Type 0) : Type 0 where
  pub connect : Option R → Manager → Option R × Manager
  pub connect-injected : (r : R) (m : Manager) → connect (some r) m ≡ (some r, m)
  pub connect-own :
      (m : Manager) → (connect none m ≡ (none, m)) ⊎ ((r : R) × (connect none m ≡ (some r, c ∷ m)))

-- `mgr.Stop`: what it stops, in the order in which it does, whether or not one of them reports an
-- error.
pub record Stopper : Type 0 where
  pub stop : Manager → List Component
  pub stop_lem : (m : Manager) → stop m ≡ m

-- `config.Config`, as far as New reads it.
pub record Config : Type 0 where
  pub trial_days : Option ℤ
  pub rate_limit : Option RateLimitConfig
  pub signing : Option SigningConfig

pub data NewError : Type 0 where
  db_failed redis_failed jobs_failed : NewError
  signer_rejected options_rejected : StartError → NewError

-- `jobs.Scheduler`
pub record Scheduler (Cron : Type 0) : Type 0 where
  pub cron : Cron
  pub owns_cron : Bool

-- `jobs.New`; `built` is what `cronx.New` answers to the configuration, where there is one.
unfoldable pub new_scheduler :
    {Cron : Type 0} → Option Cron → Option (Option Cron) → Option (Scheduler Cron)
new_scheduler (some injected) built = some (record { cron = injected; owns_cron = false })
new_scheduler none none = none
new_scheduler none (some none) = none
new_scheduler none (some (some c)) = some (record { cron = c; owns_cron = true })

module _ {Db Rdb Cron : Type 0} (crypto : Crypto) (dbx : Connector database Db)
    (redisx : Connector redis Rdb) (mgr : Stopper) (cron : Option Cron) where
  -- `service.Service`, with the resources that it passes on to the domains.
  pub record ServiceRoot : Type 0 where
    pub manager : Manager
    pub db : Db
    pub rdb : Rdb
    pub signer : Signer crypto
    pub options : Options
    pub scheduler : Scheduler Cron

  -- A service, or an error and what was stopped.
  pub data Built : Type 0 where
    built : ServiceRoot → Built
    gave_up : NewError → List Component → Built

  abbrev rollback : NewError → Manager → Built
  rollback e m = gave_up e (mgr.stop m)

  -- `setupJobs`, which hands no cron to `jobs.New` and always a configuration.
  unfoldable pub setup_jobs : Manager → Option (Scheduler Cron × Manager)
  setup_jobs m = elim (new_scheduler none (some cron)) [ none ↦ none | some s ↦ some (s, jobs ∷ m) ]

  unfoldable pub with_jobs :
      Manager → Db → Rdb → Signer crypto → Options → Option (Scheduler Cron × Manager) → Built
  with_jobs m db rdb signer options none = rollback jobs_failed m
  with_jobs m db rdb signer options (some (s, m')) = built (record {
    manager = m';
    db = db;
    rdb = rdb;
    signer = signer;
    options = options;
    scheduler = s;
  })

  unfoldable pub with_options : Manager → Db → Rdb → Signer crypto → Resolved Options → Built
  with_options m db rdb signer (rejected e) = rollback (options_rejected e) m
  with_options m db rdb signer (resolved options) = with_jobs m db rdb signer options (setup_jobs m)

  unfoldable pub with_signer : Config → Manager → Db → Rdb → Resolved (Signer crypto) → Built
  with_signer cfg m db rdb (rejected e) = rollback (signer_rejected e) m
  with_signer cfg m db rdb (resolved signer) =
      with_options m db rdb signer (resolve_domain_options cfg.trial_days cfg.rate_limit)

  unfoldable pub with_redis : Config → Db → Option Rdb × Manager → Built
  with_redis cfg db (none, m) = rollback redis_failed m
  with_redis cfg db (some rdb, m) = with_signer cfg m db rdb (resolve_signer crypto cfg.signing)

  unfoldable pub with_db : Config → Injected Db Rdb Cron → Option Db × Manager → Built
  with_db cfg o (none, m) = rollback db_failed m
  with_db cfg o (some db, m) = with_redis cfg db (redisx.connect o.redis m)

  unfoldable pub new_service : Config → Injected Db Rdb Cron → Built
  new_service cfg o = with_db cfg o (dbx.connect o.db [])
