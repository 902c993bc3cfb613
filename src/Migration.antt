-- ===== src/Migration.antt =====
-- The schema migration: pkg/handler/migrate.go. GORM's AutoMigrate and the raw UPDATE are parameters;
-- of the database the rows of license_apps and its retired column are kept, with NULL for the
-- tenant keys that a new column starts with.
pub mod Convergence
use license_service.Prelude.{
  ℕ, ◌≡◌, ◌==◌, Bool, true, false, not, Text, str_eq, codes, List, Option, none, some,
  if◌then◌else◌,
}
use license_service.Store.Models.{LicenseApp}
use license_service.Store.Rows.{count, modify}
use license_service.Store.Sql.{Sql}
use license_service.Store.Reply.{when}

-- The dialect's name, the rows of license_apps, and whether it has the column app_secret.
pub record Schema : Type 0 where
  pub dialect : Text
  pub apps : List LicenseApp
  pub app_secret : Bool

-- The steps that a migration ends at, as its errors name them.
pub data MigrateError : Type 0 where
  auto_migrate_failed backfill_failed reconcile_failed legacy_probe_failed drop_failed :
      MigrateError
  backfill_incomplete : (filled total : ℕ) → MigrateError

pub data MigrateResult : Type 0 where
  migrated : MigrateResult
  aborted : MigrateError → MigrateResult

-- `WHERE tenant_key IS NULL`
abbrev pub is_unmapped : LicenseApp → Bool
is_unmapped a = elim a.tenant_key [ none ↦ true | some _ ↦ false ]

-- `SET tenant_key = app_key`
abbrev pub mapped : LicenseApp → LicenseApp
mapped a = record a { tenant_key = some a.app_key }

-- What the migration calls: AutoMigrate, which adds and never drops or changes a row, and an UPDATE,
-- which ends with an error (a unique index that refuses it included) or writes the rows it selects.
pub record Migrator : Type 1 where
  pub auto_migrate : Schema → Option Schema
  pub exec_update :
      (LicenseApp → Bool) → (LicenseApp → LicenseApp) → List LicenseApp → Option (List LicenseApp)
  pub auto_migrate_lem : (m : Schema) {m' : Schema} → auto_migrate m ≡ some m' → m' ≡ m
  pub exec_update_lem :
      (p : LicenseApp → Bool) (f : LicenseApp → LicenseApp) (rs : List LicenseApp)
      {rs' : List LicenseApp}
      → exec_update p f rs ≡ some rs'
      → rs' ≡ modify p f rs

-- A further step, where the one before did not abort.
abbrev pub proceed :
    MigrateResult × Schema → (Schema → MigrateResult × Schema) → MigrateResult × Schema
proceed (migrated, m) next = next m
proceed (aborted e, m) next = (aborted e, m)

-- `up` says whether the n-th statement is carried out.
module _ (sql : Sql) (orm : Migrator) (up : ℕ → Bool) where
  unfoldable pub reconcile_tenant_key : Schema → MigrateResult
  reconcile_tenant_key m =
      let total = sql.count_where (λ a. true) m.apps in
      let filled = sql.count_where (λ a. not (is_unmapped a)) m.apps in
      if up 2
      then if filled == total then migrated else aborted (backfill_incomplete filled total)
      else aborted reconcile_failed

  unfoldable pub backfill : Schema → Option (List LicenseApp)
  backfill m = if up 1 then orm.exec_update is_unmapped mapped m.apps else none

  unfoldable pub post_migrate_tenant_key : Schema → MigrateResult × Schema
  post_migrate_tenant_key m =
      if str_eq m.dialect (codes "postgres")
      then elim (backfill m) [
        | none ↦ (aborted backfill_failed, m)
        | some apps ↦ let m' = record m { apps = apps } in (reconcile_tenant_key m', m')
      ]
      else (migrated, m)

  unfoldable pub post_migrate_drop_legacy : Schema → MigrateResult × Schema
  post_migrate_drop_legacy m =
      if str_eq m.dialect (codes "postgres")
      then if up 3
        then if m.app_secret
          then if up 4
            then (migrated, record m { app_secret = false })
            else (aborted drop_failed, m)
          else (migrated, m)
        else (aborted legacy_probe_failed, m)
      else (migrated, m)

  unfoldable pub auto_migrated : Schema → Option Schema
  auto_migrated m = if up 0 then orm.auto_migrate m else none

  unfoldable pub migrate : Schema → MigrateResult × Schema
  migrate m = elim (auto_migrated m) [
    | none ↦ (aborted auto_migrate_failed, m)
    | some m' ↦ proceed (post_migrate_tenant_key m') post_migrate_drop_legacy
  ]
