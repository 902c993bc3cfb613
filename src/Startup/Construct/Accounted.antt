-- ===== src/Startup/Construct/Accounted.antt =====
-- The resources of New in internal/service/service.go: owned by the service, or stopped again.
use license_service.Prelude.{
  ◌≡◌, ◌⊎◌, refl, true, [], ◌∷◌, ◌++◌, Option, none, some, inl, inr, arith, sym, ◌∙◌, ap, subst,
  Option-cases, append-nil,
}
use license_service.Cert.Payload.{Crypto}
use license_service.Cert.Signer.{Signer}
use license_service.Startup.{Options, Resolved, resolved, rejected}
use license_service.Startup.Construct.{
  Component, database, redis, jobs, Manager, Injected, own, Connector, Stopper, Config, db_failed,
  redis_failed, jobs_failed, signer_rejected, options_rejected, Scheduler, Built, built, gave_up,
  new_scheduler, setup_jobs, with_jobs, with_options, with_signer, with_redis, with_db, new_service,
}

-- An injected resource is the one that is used.
abbrev pub Takes : {R : Type 0} → Option R → R → Type 0
Takes none r = Unit {0}
Takes (some x) r = r ≡ x

module _ {R : Type 0} {c : Component} (k : Connector c R) where
  abbrev Connects : Option R → Manager → Type 0
  Connects o m =
      (k.connect o m ≡ (none, m)) ⊎ ((r : R) × (k.connect o m ≡ (some r, own c o ++ m)) × Takes o r)

  connects : (o : Option R) (m : Manager) → Connects o m
  connects none m = elim (k.connect-own m) [
    | inl failed ↦ inl failed
    | inr (r, made) ↦ inr (r, made, tt)
  ]
  connects (some x) m = inr (x, k.connect-injected x m, refl)

module _ {Db Rdb Cron : Type 0} (crypto : Crypto) (dbx : Connector database Db)
    (redisx : Connector redis Rdb) (mgr : Stopper) (cron : Option Cron) where
  -- What a service owns beside its scheduler.
  abbrev pub owned : Injected Db Rdb Cron → Manager
  owned o = own redis o.redis ++ own database o.db

  -- What a result of New has to be: the service owns what was not injected, or what was registered
  -- when the error came has been stopped, the last first.
  abbrev pub Accounts : Injected Db Rdb Cron → Built crypto dbx redisx mgr cron → Type 0
  Accounts o (built root) =
      (root.manager ≡ jobs ∷ owned o)
      × Takes o.db root.db
      × Takes o.redis root.rdb
      × (cron ≡ some root.scheduler.cron)
      × (root.scheduler.owns_cron ≡ true)
  Accounts o (gave_up db_failed stopped) = stopped ≡ []
  Accounts o (gave_up redis_failed stopped) = stopped ≡ own database o.db
  Accounts o (gave_up jobs_failed stopped) = stopped ≡ owned o
  Accounts o (gave_up (signer_rejected e) stopped) = stopped ≡ owned o
  Accounts o (gave_up (options_rejected e) stopped) = stopped ≡ owned o

  module _ (o : Injected Db Rdb Cron) (db : Db) (rdb : Rdb) (takes_db : Takes o.db db)
      (takes_redis : Takes o.redis rdb) where
    setup_jobs_lem :
        (m : Manager) {s : Scheduler Cron} {m' : Manager}
        → setup_jobs crypto dbx redisx mgr cron m ≡ some (s, m')
        → (m' ≡ jobs ∷ m) × (cron ≡ some s.cron) × (s.owns_cron ≡ true)
    unfolding setup_jobs new_scheduler
    setup_jobs_lem m e = (ground (arith, e), ground (arith, e), ground (arith, e))

    with_jobs-Accounts :
        (signer : Signer crypto) (options : Options) (m : Manager)
        → m ≡ owned o
        → Accounts o (
            with_jobs crypto dbx redisx mgr cron m db rdb signer options
              (setup_jobs crypto dbx redisx mgr cron m))
    unfolding with_jobs
    with_jobs-Accounts signer options m same =
        elim (Option-cases (setup_jobs crypto dbx redisx mgr cron m)) [
          | inl failed ↦
              subst
                (λ r. Accounts o (with_jobs crypto dbx redisx mgr cron m db rdb signer options r))
                (sym failed) (mgr.stop_lem m ∙ same)
          | inr ((s, m'), made) ↦
              subst
                (λ r. Accounts o (with_jobs crypto dbx redisx mgr cron m db rdb signer options r))
                (sym made)
                (let (managed, own_cron, owns) = setup_jobs_lem m made in
                  (managed ∙ ap (λ ms. jobs ∷ ms) same, takes_db, takes_redis, own_cron, owns))
        ]

    with_options-Accounts :
        (signer : Signer crypto) (r : Resolved Options) (m : Manager)
        → m ≡ owned o
        → Accounts o (with_options crypto dbx redisx mgr cron m db rdb signer r)
    unfolding with_options
    with_options-Accounts signer (rejected e) m same = mgr.stop_lem m ∙ same
    with_options-Accounts signer (resolved options) m same =
        with_jobs-Accounts signer options m same

    with_signer-Accounts :
        (cfg : Config) (r : Resolved (Signer crypto)) (m : Manager)
        → m ≡ owned o
        → Accounts o (with_signer crypto dbx redisx mgr cron cfg m db rdb r)
    unfolding with_signer
    with_signer-Accounts cfg (rejected e) m same = mgr.stop_lem m ∙ same
    with_signer-Accounts cfg (resolved signer) m same = with_options-Accounts signer _ m same

  with_redis-Accounts :
      (cfg : Config) (o : Injected Db Rdb Cron) (db : Db) (m : Manager)
      → Takes o.db db
      → m ≡ own database o.db
      → Accounts o (with_redis crypto dbx redisx mgr cron cfg db (redisx.connect o.redis m))
  unfolding with_redis
  with_redis-Accounts cfg o db m takes same = elim (connects redisx o.redis m) [
    | inl failed ↦
        subst (λ r. Accounts o (with_redis crypto dbx redisx mgr cron cfg db r)) (sym failed)
          (mgr.stop_lem m ∙ same)
    | inr (rdb, made, takes_redis) ↦
        subst (λ r. Accounts o (with_redis crypto dbx redisx mgr cron cfg db r)) (sym made)
          (with_signer-Accounts o db rdb takes takes_redis cfg _ _
            (ap (λ ms. own redis o.redis ++ ms) same))
  ]

  -- If New builds a service, the service uses the database and the Redis client that were injected
  -- and owns those that were not; its scheduler, which it owns, always runs on a cron of its own,
  -- whatever cron was injected. If New gives up, it has stopped all that was registered by then and
  -- nothing else, the last first.
  pub new_service-Accounts :
      (cfg : Config) (o : Injected Db Rdb Cron)
      → Accounts o (new_service crypto dbx redisx mgr cron cfg o)
  unfolding new_service with_db
  new_service-Accounts cfg o = elim (connects dbx o.db []) [
    | inl failed ↦
        subst (λ r. Accounts o (with_db crypto dbx redisx mgr cron cfg o r)) (sym failed)
          (mgr.stop_lem [])
    | inr (db, made, takes) ↦
        subst (λ r. Accounts o (with_db crypto dbx redisx mgr cron cfg o r)) (sym made)
          (with_redis-Accounts cfg o db _ takes (append-nil (own database o.db)))
  ]
