-- ===== src/Store/Entitlement.antt =====
-- internal/store/dal/entitlement.go. The flag `up` says whether the statement is carried out.
use license_service.Prelude.{
  ◌≡◌, Bool, ◌&&◌, Text, str_eq, ℤ, eq_ℤ, leb_ℤ, List, Option, none, some,
}
use license_service.Store.Models.{Db, LicenseEntitlement, Time}
use license_service.Store.Sql.{Sql, append_unique}
use license_service.Store.Rows.{modify, remove}
use license_service.Store.Reply.{Fetch, fetch, when}

-- `Where(KeyHash.Eq(h))`
abbrev pub of_key : Text → LicenseEntitlement → Bool
of_key h e = str_eq e.key_hash h

-- `Where(KeyHash.Eq(h)).Where(Module.Eq(m))`, also the unique index of the table.
abbrev pub of_module : Text → ℤ → LicenseEntitlement → Bool
of_module h m e = str_eq e.key_hash h && eq_ℤ e.module_id m

-- The columns that the DO UPDATE arm assigns.
abbrev pub replaced : LicenseEntitlement → LicenseEntitlement → LicenseEntitlement
replaced e r = record r { kind = e.kind; expires_at = e.expires_at; granted_at = e.granted_at }

-- The rows that a refused insert leaves behind.
abbrev pub upserted :
    List LicenseEntitlement → Option (List LicenseEntitlement) → List LicenseEntitlement
upserted updated none = updated
upserted updated (some rs) = rs

module _ (sql : Sql) where
  -- Ascending by module.
  unfoldable pub list_entitlements_by_key_hash : Bool → Text → Db → Option (List LicenseEntitlement)
  list_entitlements_by_key_hash up h db =
      when up (sql.find (λ a b. leb_ℤ a.module_id b.module_id) (of_key h) db.entitlements)

  -- ON CONFLICT (key_hash, module) DO UPDATE.
  unfoldable pub upsert_entitlement : Bool → LicenseEntitlement → Db → Option Db
  upsert_entitlement up e db = when up (record db {
    entitlements =
        upserted (sql.update (of_module e.key_hash e.module_id) (replaced e) db.entitlements)
          (sql.create (of_module e.key_hash e.module_id) e db.entitlements);
  })

  unfoldable pub get_entitlement : Bool → Text → ℤ → Db → Fetch LicenseEntitlement
  get_entitlement up h m db = fetch up (sql.take (of_module h m) db.entitlements)

  unfoldable pub delete_entitlement : Bool → Text → ℤ → Db → Option Db
  delete_entitlement up h m db =
      when up (record db { entitlements = sql.delete (of_module h m) db.entitlements })

  unfoldable pub delete_entitlements_by_key_hash : Bool → Text → Db → Option Db
  delete_entitlements_by_key_hash up h db =
      when up (record db { entitlements = sql.delete (of_key h) db.entitlements })

  unfoldable pub touch_entitlement_granted : Bool → Text → ℤ → Time → Db → Option Db
  touch_entitlement_granted up h m at db = when up (record db {
    entitlements = sql.update (of_module h m) (λ e. record e { granted_at = at }) db.entitlements;
  })

  -- The same on the list of rows.
  pub upsert_entitlement_lem :
      (up : Bool) (e : LicenseEntitlement) (db : Db)
      → upsert_entitlement up e db
        ≡ when up (record db {
          entitlements =
              upserted
                (modify (of_module e.key_hash e.module_id) (replaced e) db.entitlements)
                (append_unique (of_module e.key_hash e.module_id) e db.entitlements);
        })
  unfolding upsert_entitlement
  upsert_entitlement_lem up e db = rw (sql.update_lem, sql.create_lem)

  pub delete_entitlement_lem :
      (up : Bool) (h : Text) (m : ℤ) (db : Db)
      → delete_entitlement up h m db
        ≡ when up (record db { entitlements = remove (of_module h m) db.entitlements })
  unfolding delete_entitlement
  delete_entitlement_lem up h m db = rw sql.delete_lem

  pub delete_entitlements_lem :
      (up : Bool) (h : Text) (db : Db)
      → delete_entitlements_by_key_hash up h db
        ≡ when up (record db { entitlements = remove (of_key h) db.entitlements })
  unfolding delete_entitlements_by_key_hash
  delete_entitlements_lem up h db = rw sql.delete_lem
