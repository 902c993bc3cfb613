-- ===== src/Tests/Migration.antt =====
-- The migration at a database that is half filled.
use license_service.Prelude.{
  ℕ, ◌≡◌, refl, ◌==◌, not, Bool, true, false, Text, codes, str_eq, [], ◌∷◌, some, none, Option, map,
  ap, sym,
}
use license_service.Store.Models.{LicenseApp, app_tenant_key}
use license_service.Store.Rows.{modify, count}
use license_service.Migration.{
  Schema, Migrator, migrated, migrate, backfill, reconcile_tenant_key, post_migrate_tenant_key,
  post_migrate_drop_legacy, auto_migrated,
}
use license_service.Migration.Convergence.{
  Converged, tenant_filled, migrate-Converged, migrate-tenants,
}
use license_service.Tests.Libraries.{list_sql}

some-same : {A : Type 0} {a b : A} → some a ≡ some b → b ≡ a
some-same {A} {a} e = sym (ap (λ o. elim o [ none ↦ a | some x ↦ x ]) e)

abbrev obliging : Migrator
obliging = record {
  auto_migrate = λ m. some m;
  exec_update = λ p f rs. some (modify p f rs);
  auto_migrate_lem = λ m e. some-same e;
  exec_update_lem = λ p f rs e. some-same e;
}

abbrev app : Text → Option Text → LicenseApp
app key tenant = record {
  id = 1;
  app_key = key;
  name = key;
  tenant_key = tenant;
  disabled = false;
  created_at = 0;
  updated_at = 0;
}

abbrev half_filled : Schema
half_filled = record {
  dialect = codes "postgres";
  apps = app (codes "shop") none ∷ app (codes "blog") (some (codes "ten_blog")) ∷ [];
  app_secret = true;
}

abbrev all_up : ℕ → Bool
all_up n = true

-- The statement that drops the column fails.
abbrev no_drop : ℕ → Bool
no_drop n = not (n == 4)

half_filled-migrated : (migrate list_sql obliging all_up half_filled).0 ≡ migrated
unfolding migrate auto_migrated post_migrate_tenant_key post_migrate_drop_legacy backfill
    reconcile_tenant_key modify count str_eq
half_filled-migrated = refl

abbrev full : Schema
full = (migrate list_sql obliging all_up half_filled).1

migrate-Converged_example :
    (full ≡ record half_filled { apps = map tenant_filled half_filled.apps; app_secret = false })
    × Converged full
    × ((migrate list_sql obliging no_drop full).1 ≡ full)
unfolding str_eq
migrate-Converged_example =
    migrate-Converged list_sql obliging all_up no_drop half_filled refl half_filled-migrated

migrate-tenants_example :
    map app_tenant_key (migrate list_sql obliging no_drop half_filled).1.apps
    ≡ map app_tenant_key half_filled.apps
migrate-tenants_example = migrate-tenants list_sql obliging no_drop half_filled
