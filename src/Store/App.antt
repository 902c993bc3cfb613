-- ===== src/Store/App.antt =====
-- internal/store/dal/app.go. The flag `up` says whether the statement is carried out.
use license_service.Prelude.{
  ℕ, ◌≡◌, Bool, true, false, ◌||◌, ◌==◌, Text, str_eq, List, Option, none, some, if◌then◌else◌,
}
use license_service.Xcodes.{Result, ok, err, plain, Code}
use license_service.Store.Models.{Db, LicenseApp, Time}
use license_service.Store.Sql.{Sql, append_unique}
use license_service.Store.Reply.{Fetch, fetch, found, record_not_found, failed, when, internal}
use license_service.Store.Rows.{first}
use license_service.Cert.Canonical.{str_le}

-- `Where(AppKey.Eq(k))`
abbrev pub has_app_key : Text → LicenseApp → Bool
has_app_key k a = str_eq a.app_key k

-- A column that may be NULL, compared with a text.
abbrev pub column_is : Option Text → Text → Bool
column_is none t = false
column_is (some s) t = str_eq s t

-- `Where(TenantKey.Eq(tk))`
abbrev pub has_tenant : Text → LicenseApp → Bool
has_tenant tk a = column_is a.tenant_key tk

-- Two NULLs do not clash.
abbrev pub same_tenant : Option Text → LicenseApp → Bool
same_tenant none r = false
same_tenant (some tk) r = has_tenant tk r

-- The rows that the unique indexes on `app_key` and `tenant_key` do not admit beside `a`.
abbrev pub app_clashes : LicenseApp → LicenseApp → Bool
app_clashes a r = has_app_key a.app_key r || same_tenant a.tenant_key r

-- What ON CONFLICT DO NOTHING leaves.
abbrev pub apps_or_unchanged : List LicenseApp → Option (List LicenseApp) → List LicenseApp
apps_or_unchanged rs none = rs
apps_or_unchanged rs (some rs') = rs'

-- Where the second lookup of `GetAppForTenant` ends.
unfoldable pub fallback_app : Fetch LicenseApp → Result (Option LicenseApp)
fallback_app (found a) = ok (some a)
fallback_app record_not_found = ok none
fallback_app failed = err (plain Code.internal)

-- The second lookup runs where the first finds nothing.
unfoldable pub prefer_app : Fetch LicenseApp → Fetch LicenseApp → Result (Option LicenseApp)
prefer_app (found a) fallback = ok (some a)
prefer_app record_not_found fallback = fallback_app fallback
prefer_app failed fallback = err (plain Code.internal)

module _ (sql : Sql) where
  unfoldable pub create_app : Bool → LicenseApp → Db → Option Db
  create_app up a db =
      if up
      then elim (sql.create (app_clashes a) a db.apps) [
        | none ↦ none
        | some rs ↦ some (record db { apps = rs })
      ]
      else none

  -- ON CONFLICT DO NOTHING.
  unfoldable pub ensure_tenant_app : Bool → LicenseApp → Db → Result Db
  ensure_tenant_app up a db = internal (
      when up
        (record db { apps = apps_or_unchanged db.apps (sql.create (app_clashes a) a db.apps) }))

  unfoldable pub get_app_for_tenant : Bool → Bool → Text → Db → Result (Option LicenseApp)
  get_app_for_tenant up up' tk db =
      prefer_app (fetch up (sql.take (has_tenant tk) db.apps))
        (fetch up' (sql.take (has_app_key tk) db.apps))

  unfoldable pub get_app_by_key : Bool → Text → Db → Fetch LicenseApp
  get_app_by_key up k db = fetch up (sql.take (has_app_key k) db.apps)

  unfoldable pub list_apps : Bool → Db → Option (List LicenseApp)
  list_apps up db = when up (sql.find (λ a b. str_le a.app_key b.app_key) (λ _. true) db.apps)

  -- The name and the flag; gorm writes `updated_at`.
  unfoldable pub update_app : Bool → Time → LicenseApp → Db → Option Db
  update_app up stamp a db = when up (record db {
    apps =
        sql.update (λ r. r.id == a.id)
          (λ r. record r { name = a.name; disabled = a.disabled; updated_at = stamp }) db.apps;
  })

  unfoldable pub delete_app : Bool → ℕ → Db → Option Db
  delete_app up id db = when up (record db { apps = sql.delete (λ r. r.id == id) db.apps })

  -- The same on the list of rows.
  pub get_app_for_tenant_lem :
      (up up' : Bool) (tk : Text) (db : Db)
      → get_app_for_tenant up up' tk db
        ≡ prefer_app
            (fetch up (first (has_tenant tk) db.apps))
            (fetch up' (first (has_app_key tk) db.apps))
  unfolding get_app_for_tenant
  get_app_for_tenant_lem up up' tk db = rw (sql.take_lem, sql.take_lem)

  pub ensure_tenant_app_lem :
      (up : Bool) (a : LicenseApp) (db : Db)
      → ensure_tenant_app up a db
        ≡ internal (
            when up (record db {
              apps = apps_or_unchanged db.apps (append_unique (app_clashes a) a db.apps);
            }))
  unfolding ensure_tenant_app
  ensure_tenant_app_lem up a db = rw sql.create_lem
