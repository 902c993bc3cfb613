-- ===== src/Startup/Construct/Commands.antt =====
-- cmd/server: the commands `serve` and `migrate`, and the status that the process exits with.
use license_service.Prelude.{
  ℕ, ◌≡◌, refl, ◌||◌, Bool, true, false, Text, str_eq, codes, List, [], ◌∷◌, Option, none, some,
  if◌then◌else◌, arith, subst, inl, inr, Option-cases,
}
use license_service.Cert.Payload.{Crypto}
use license_service.Store.Sql.{Sql}
use license_service.Migration.{
  Schema, Migrator, MigrateError, MigrateResult, migrated, aborted, migrate,
}
use license_service.Migration.Convergence.{Converged, migrate-Converged}
use license_service.Startup.Construct.{database, redis, Connector, Stopper, Config, ServiceRoot}
use license_service.Startup.Construct.Server.{
  NewServer, listening, no_service, no_validator, new_server,
}

-- `os.Args[1]`, or "" where there is none.
unfoldable pub subcommand : List Text → Text
subcommand [] = []
subcommand (program ∷ []) = []
subcommand (program ∷ name ∷ rest) = name

pub data CommandError : Type 0 where
  load_config_failed init_server_failed run_server_failed init_database_failed : CommandError
  migration_failed : MigrateError → CommandError

-- The command that ran, with its error.
pub data Ended : Type 0 where
  served : Option CommandError → Ended
  migration : Option CommandError → Schema → Ended
  misused : Ended

abbrev pub status_of : Option CommandError → ℕ
status_of none = 0
status_of (some e) = 1

-- The argument of `os.Exit`, or 0 where `main` returns.
unfoldable pub exit_status : Ended → ℕ
exit_status (served e) = status_of e
exit_status (migration e m) = status_of e
exit_status misused = 2

abbrev pub migration_error : MigrateResult → Option CommandError
migration_error migrated = none
migration_error (aborted e) = some (migration_failed e)

done_without_error : (r : MigrateResult) → status_of (migration_error r) ≡ 0 → r ≡ migrated
done_without_error migrated e = refl
done_without_error (aborted x) e = ground (arith, e)

module _ {Db Rdb Cron : Type 0} (crypto : Crypto) (dbx : Connector database Db)
    (redisx : Connector redis Rdb) (mgr : Stopper) (cron : Option Cron) where
  -- What `config.Load` reads, whether `protovalidate.New` and `dbx.New` succeed, and whether
  -- `signalx.RunWithForceQuit` ends without an error.
  pub record Machine : Type 0 where
    pub config : Option Config
    pub validates : Bool
    pub connects : Bool
    pub quits : ServiceRoot crypto dbx redisx mgr cron → Bool

  unfoldable pub run_until_quit :
      Machine → NewServer crypto dbx redisx mgr cron → Option CommandError
  run_until_quit p (listening root) = if p.quits root then none else some run_server_failed
  run_until_quit p (no_service e stopped) = some init_server_failed
  run_until_quit p (no_validator left) = some init_server_failed

  -- No resource is injected.
  unfoldable pub run_server : Machine → Option CommandError
  run_server p = elim p.config [
    | none ↦ some load_config_failed
    | some cfg ↦ run_until_quit p (
        new_server crypto dbx redisx mgr cron p.validates cfg
          (record { db = none; redis = none; cron = none }))
  ]

  module _ (sql : Sql) (orm : Migrator) (up : ℕ → Bool) where
    unfoldable pub migrate_connected : Bool → Schema → Ended
    migrate_connected false m = migration (some init_database_failed) m
    migrate_connected true m = let r = migrate sql orm up m in migration (migration_error r.0) r.1

    unfoldable pub run_migrate : Machine → Schema → Ended
    run_migrate p m = elim p.config [
      | none ↦ migration (some load_config_failed) m
      | some cfg ↦ migrate_connected p.connects m
    ]

    -- `main`, behind the loading of .env.
    unfoldable pub main : List Text → Machine → Schema → Ended
    main args p m =
        let name = subcommand args in
        if str_eq name [] || str_eq name (codes "serve")
        then served (run_server p)
        else if str_eq name (codes "migrate")
        then run_migrate p m
        else misused

    migrate_connected-Converged :
        (connects : Bool) (m m' : Schema) (e : Option CommandError)
        → str_eq m.dialect (codes "postgres") ≡ true
        → migrate_connected connects m ≡ migration e m'
        → status_of e ≡ 0
        → Converged m'
    unfolding migrate_connected
    migrate_connected-Converged false m m' e pg ended well = absurd (ground (arith, ended, well))
    migrate_connected-Converged true m m' e pg ended well =
        let done : (migrate sql orm up m).0 ≡ migrated =
          done_without_error (migrate sql orm up m).0 (ground (arith, ended, well)) in
        let result : (migrate sql orm up m).1 ≡ m' = ground (arith, ended) in
        subst Converged result (migrate-Converged sql orm up up m pg done).1

    run_migrate-Converged :
        (p : Machine) (m m' : Schema) (e : Option CommandError)
        → str_eq m.dialect (codes "postgres") ≡ true
        → run_migrate p m ≡ migration e m'
        → status_of e ≡ 0
        → Converged m'
    unfolding run_migrate
    run_migrate-Converged p m m' e pg ended well = elim (Option-cases p.config) [
      | inl unread ↦ absurd (ground (arith, unread, ended, well))
      | inr (cfg, read) ↦
          migrate_connected-Converged p.connects m m' e pg (ground (arith, read, ended)) well
    ]

    -- A process that has run a migration of PostgreSQL and exits with status 0 leaves each row of
    -- license_apps with a tenant key, and without the retired column.
    main-Converged :
        (args : List Text) (p : Machine) (m m' : Schema) (e : Option CommandError)
        → str_eq m.dialect (codes "postgres") ≡ true
        → main args p m ≡ migration e m'
        → exit_status (migration e m') ≡ 0
        → Converged m'
    unfolding main exit_status
    main-Converged args p m m' e pg ended well =
        run_migrate-Converged p m m' e pg (ground (arith, ended)) well
