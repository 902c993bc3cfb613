-- ===== src/Migration/Convergence.antt =====
-- What a migration leaves behind: pkg/handler/migrate.go.
use license_service.Prelude.{
  none, some, ℕ, ◌≡◌, refl, Bool, true, false, str_eq, str_eq_refl, codes, List, [], ◌∷◌, some,
  if◌then◌else◌, arith, map, ◌⊎◌, inl, inr, ◌≢◌, Option-cases, ap, ◌∙◌, subst, sym,
}
use license_service.Store.Models.{LicenseApp, app_tenant_key}
use license_service.Store.Rows.{count, modify}
use license_service.Store.Sql.{Sql}
use license_service.Migration.{
  Schema, MigrateResult, migrated, aborted, is_unmapped, mapped, Migrator, proceed, backfill,
  post_migrate_tenant_key, post_migrate_drop_legacy, auto_migrated, migrate,
}

-- Every row has its tenant key, and the retired column is gone.
pub record Converged (m : Schema) : Type 0 where
  pub filled : count is_unmapped m.apps ≡ 0
  pub no_secret : m.app_secret ≡ false

-- The rows once those without a tenant key have their own key for it.
abbrev pub all_mapped : List LicenseApp → List LicenseApp
all_mapped rs = modify is_unmapped mapped rs

-- A row that has a tenant key keeps it; one that has none gets its app key for one.
abbrev pub tenant_filled : LicenseApp → LicenseApp
tenant_filled a = record a {
  tenant_key = elim a.tenant_key [ none ↦ some a.app_key | some key ↦ some key ];
}

tenant_filled_lem : (a : LicenseApp) → (if is_unmapped a then mapped a else a) ≡ tenant_filled a
tenant_filled_lem a = elim (Option-cases a.tenant_key) [
  | inl missing ↦ rw (is_unmapped, missing) refl
  | inr (key, there) ↦ rw (is_unmapped, there) refl
]

all_mapped_lem : (rs : List LicenseApp) → all_mapped rs ≡ map tenant_filled rs
unfolding modify
all_mapped_lem [] = refl
all_mapped_lem (a ∷ rs) = rw (tenant_filled_lem a, all_mapped_lem rs) refl

count-all_mapped : (rs : List LicenseApp) → count is_unmapped (all_mapped rs) ≡ 0
unfolding count modify
count-all_mapped [] = refl
count-all_mapped (a ∷ rs) = ground (arith, count-all_mapped rs)

all_mapped-none : (rs : List LicenseApp) → count is_unmapped rs ≡ 0 → all_mapped rs ≡ rs
unfolding count modify
all_mapped-none [] e = refl
all_mapped-none (a ∷ rs) e = ground (arith, e, all_mapped-none rs)

app_tenant_key-mapped :
    (a : LicenseApp) → app_tenant_key (if is_unmapped a then mapped a else a) ≡ app_tenant_key a
unfolding app_tenant_key
app_tenant_key-mapped a = elim (Option-cases a.tenant_key) [
  | inl missing ↦ rw (is_unmapped, missing) (ground (arith, str_eq_refl (codes "")))
  | inr (tk, there) ↦ rw (is_unmapped, there) refl
]

map-all_mapped : (rs : List LicenseApp) → map app_tenant_key (all_mapped rs) ≡ map app_tenant_key rs
unfolding modify
map-all_mapped [] = refl
map-all_mapped (a ∷ rs) = rw (app_tenant_key-mapped a, map-all_mapped rs) refl

module _ (sql : Sql) (orm : Migrator) (up : ℕ → Bool) where
  backfill_lem :
      (m : Schema) {apps : List LicenseApp}
      → backfill sql orm up m ≡ some apps
      → apps ≡ all_mapped m.apps
  unfolding backfill
  backfill_lem m {apps} e =
      ground (arith, e, orm.exec_update_lem is_unmapped mapped m.apps {rs' = apps})

  drop_legacy-after :
      (m : Schema)
      → let m' = (post_migrate_drop_legacy sql orm up m).1 in
        (m' ≡ m) ⊎ (m' ≡ record m { app_secret = false })
  unfolding post_migrate_drop_legacy
  drop_legacy-after m = ground arith

  tenant_key-after :
      (m : Schema)
      → let m' = (post_migrate_tenant_key sql orm up m).1 in
        (m' ≡ m) ⊎ (m' ≡ record m { apps = all_mapped m.apps })
  unfolding post_migrate_tenant_key
  tenant_key-after m = elim (Option-cases (backfill sql orm up m)) [
    | inl refused ↦ ground (arith, refused)
    | inr (apps, done) ↦
        let same : apps ≡ all_mapped m.apps = backfill_lem m done in ground (arith, done, same)
  ]

  tenant_key-migrated :
      (m : Schema)
      → str_eq m.dialect (codes "postgres") ≡ true
      → (post_migrate_tenant_key sql orm up m).0 ≡ migrated
      → (post_migrate_tenant_key sql orm up m).1 ≡ record m { apps = all_mapped m.apps }
  unfolding post_migrate_tenant_key
  tenant_key-migrated m pg e = elim (Option-cases (backfill sql orm up m)) [
    | inl refused ↦ ground (arith, refused, e, pg)
    | inr (apps, done) ↦
        let same : apps ≡ all_mapped m.apps = backfill_lem m done in
        ground (arith, done, same, e, pg)
  ]

  drop_legacy-migrated :
      (m : Schema)
      → str_eq m.dialect (codes "postgres") ≡ true
      → (post_migrate_drop_legacy sql orm up m).0 ≡ migrated
      → (post_migrate_drop_legacy sql orm up m).1 ≡ record m { app_secret = false }
  unfolding post_migrate_drop_legacy
  drop_legacy-migrated m pg e = ground (arith, e, pg)

  auto_migrated_lem : (m : Schema) {m' : Schema} → auto_migrated sql orm up m ≡ some m' → m' ≡ m
  unfolding auto_migrated
  auto_migrated_lem m {m'} e = ground (arith, e, orm.auto_migrate_lem m {m' = m'})

  -- A migration aborts before it begins, or runs its two steps.
  migrate-steps :
      (m : Schema)
      → ((migrate sql orm up m).1 ≡ m) × ((migrate sql orm up m).0 ≢ migrated)
        ⊎ (migrate sql orm up m
            ≡ proceed (post_migrate_tenant_key sql orm up m) (post_migrate_drop_legacy sql orm up))
  unfolding migrate
  migrate-steps m = elim (Option-cases (auto_migrated sql orm up m)) [
    | inl refused ↦ inl (rw (migrate, refused) refl, λ e. ground (arith, refused, e))
    | inr (m', done) ↦ inr (rw (migrate, done, auto_migrated_lem m done) refl)
  ]

  proceed-keeps :
      (P : Schema → Type 0) (r : MigrateResult × Schema) (next : Schema → MigrateResult × Schema)
      → P r.1
      → ((m : Schema) → P m → P (next m).1)
      → P (proceed r next).1
  proceed-keeps P (migrated, m) next now after = after m now
  proceed-keeps P (aborted e, m) next now after = now

  -- What holds of a schema and is kept by filling the tenant keys and by dropping the column.
  migrate-keeps :
      (P : Schema → Type 0) (m : Schema)
      → P m
      → P (record m { apps = all_mapped m.apps })
      → ((m' : Schema) → P m' → P (record m' { app_secret = false }))
      → P (migrate sql orm up m).1
  migrate-keeps P m now filled dropped = elim (migrate-steps m) [
    | inl (same, _) ↦ subst P (sym same) now
    | inr steps ↦
        subst (λ r. P r.1) (sym steps)
          (proceed-keeps P (post_migrate_tenant_key sql orm up m)
            (post_migrate_drop_legacy sql orm up)
            (elim (tenant_key-after m) [
              | inl same ↦ subst P (sym same) now
              | inr done ↦ subst P (sym done) filled
            ])
            (λ m' holds. elim (drop_legacy-after m') [
              | inl same ↦ subst P (sym same) holds
              | inr done ↦ subst P (sym done) (dropped m' holds)
            ]))
  ]

  proceed-migrated :
      (r : MigrateResult × Schema) (next : Schema → MigrateResult × Schema)
      → (proceed r next).0 ≡ migrated
      → (r.0 ≡ migrated) × (proceed r next ≡ next r.1) × ((next r.1).0 ≡ migrated)
  proceed-migrated (migrated, m) next e = (refl, refl, e)
  proceed-migrated (aborted x, m) next e = ground (arith, e)

  migrate_filled :
      (m : Schema)
      → str_eq m.dialect (codes "postgres") ≡ true
      → (migrate sql orm up m).0 ≡ migrated
      → ((migrate sql orm up m).1 ≡ record m { apps = all_mapped m.apps; app_secret = false })
        × Converged (migrate sql orm up m).1
  migrate_filled m pg e = elim (migrate-steps m) [
    | inl (_, failed) ↦ absurd (failed e)
    | inr steps ↦
        let parts =
          proceed-migrated (post_migrate_tenant_key sql orm up m)
            (post_migrate_drop_legacy sql orm up) (sym (ap (λ r. r.0) steps) ∙ e) in
        let filled = tenant_key-migrated m pg parts.0 in
        let result : (migrate sql orm up m).1
            ≡ record m { apps = all_mapped m.apps; app_secret = false } =
          ap (λ r. r.1) (steps ∙ parts.1)
          ∙ ap (λ x. (post_migrate_drop_legacy sql orm up x).1) filled
          ∙ drop_legacy-migrated (record m { apps = all_mapped m.apps }) pg
              (subst (λ x. (post_migrate_drop_legacy sql orm up x).0 ≡ migrated) filled parts.2) in
        (
          result,
          subst Converged (sym result)
              (record { filled = count-all_mapped m.apps; no_secret = refl }),
        )
  ]

  -- Whatever statements fail, a migration leaves the tenant that each row of license_apps stands for
  -- as it is, and the rows in their order.
  pub migrate-tenants :
      (m : Schema) → map app_tenant_key (migrate sql orm up m).1.apps ≡ map app_tenant_key m.apps
  migrate-tenants m =
      migrate-keeps (λ m'. map app_tenant_key m'.apps ≡ map app_tenant_key m.apps) m refl
        (map-all_mapped m.apps) (λ m' same. same)

  -- A schema whose rows all have a tenant key and that has lost the column stays as it is.
  migrate-settled : (m : Schema) → Converged m → (migrate sql orm up m).1 ≡ m
  migrate-settled m settled =
      migrate-keeps (λ m'. m' ≡ m) m refl (rw (all_mapped-none m.apps settled.filled) refl)
        (λ m' same.
          ap {A = Schema} (λ x. record x { app_secret = false }) same
          ∙ ap {A = Bool} (λ b. record m { app_secret = b }) (sym settled.no_secret))

-- Whatever statements fail, a migration of PostgreSQL that succeeds has written its app key as the
-- tenant key into each row that had none, left the other rows and columns alone and dropped the
-- retired column; another migration after it changes nothing, whatever statements of that one fail.
pub migrate-Converged :
    (sql : Sql) (orm : Migrator) (up up' : ℕ → Bool) (m : Schema)
    → str_eq m.dialect (codes "postgres") ≡ true
    → (migrate sql orm up m).0 ≡ migrated
    → ((migrate sql orm up m).1 ≡ record m { apps = map tenant_filled m.apps; app_secret = false })
      × Converged (migrate sql orm up m).1
      × ((migrate sql orm up' (migrate sql orm up m).1).1 ≡ (migrate sql orm up m).1)
migrate-Converged sql orm up up' m pg e =
    let (result, converged) = migrate_filled sql orm up m pg e in
    (
      result
          ∙ ap {A = List LicenseApp} (λ rs. record m { apps = rs; app_secret = false })
              (all_mapped_lem m.apps),
      converged,
      migrate-settled sql orm up' (migrate sql orm up m).1 converged,
    )
