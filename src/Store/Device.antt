-- ===== src/Store/Device.antt =====
-- internal/store/dal/device.go. The flag `up` says whether the statement is carried out.
use license_service.Prelude.{
  ℕ, ◌≡◌, ap, leb, Bool, ◌&&◌, Text, str_eq, List, Option, none, some, if◌then◌else◌,
}
use license_service.Store.Models.{Db, LicenseDevice, Time}
use license_service.Store.Sql.{Sql, append_unique}
use license_service.Store.Reply.{Fetch, fetch, when}
use license_service.Store.Rows.{first, count, remove, modify}

-- `Where(KeyHash.Eq(h))`
abbrev pub in_key : Text → LicenseDevice → Bool
in_key h d = str_eq d.key_hash h

-- `Where(KeyHash.Eq(h)).Where(DeviceToken.Eq(t))`, also the unique index of the table.
abbrev pub is_slot : Text → Text → LicenseDevice → Bool
is_slot h t d = str_eq d.key_hash h && str_eq d.device_token t

-- The columns that `TouchDevice` assigns.
abbrev pub touched : Text → Time → Bool → LicenseDevice → LicenseDevice
touched fp now rebind d = record d {
  fingerprint_id = fp;
  last_seen_at = now;
  last_fingerprint_at = if rebind then some now else d.last_fingerprint_at;
}

module _ (sql : Sql) where
  unfoldable pub get_device : Bool → Text → Text → Db → Fetch LicenseDevice
  get_device up h t db = fetch up (sql.take (is_slot h t) db.devices)

  unfoldable pub count_devices_by_key_hash : Bool → Text → Db → Option ℕ
  count_devices_by_key_hash up h db = when up (sql.count_where (in_key h) db.devices)

  -- Oldest first.
  unfoldable pub list_devices_by_key_hash : Bool → Text → Db → Option (List LicenseDevice)
  list_devices_by_key_hash up h db =
      when up (sql.find (λ a b. leb a.created_at b.created_at) (in_key h) db.devices)

  unfoldable pub touch_device : Bool → Text → Text → Text → Time → Bool → Db → Option Db
  touch_device up h t fp now rebind db =
      when up (record db { devices = sql.update (is_slot h t) (touched fp now rebind) db.devices })

  -- Refused by the unique index, or not carried out.
  unfoldable pub insert_device : Bool → LicenseDevice → Db → Option Db
  insert_device up d db =
      if up
      then elim (sql.create (is_slot d.key_hash d.device_token) d db.devices) [
        | none ↦ none
        | some ds ↦ some (record db { devices = ds })
      ]
      else none

  unfoldable pub delete_device : Bool → Text → Text → Db → Option Db
  delete_device up h t db = when up (record db { devices = sql.delete (is_slot h t) db.devices })

  unfoldable pub delete_devices_by_key_hash : Bool → Text → Db → Option Db
  delete_devices_by_key_hash up h db =
      when up (record db { devices = sql.delete (in_key h) db.devices })

  -- The same on the lists of rows.
  pub get_device_lem :
      (up : Bool) (h t : Text) (db : Db)
      → get_device up h t db ≡ fetch up (first (is_slot h t) db.devices)
  unfolding get_device
  get_device_lem up h t db = rw sql.take_lem

  pub count_devices_lem :
      (up : Bool) (h : Text) (db : Db)
      → count_devices_by_key_hash up h db ≡ when up (count (in_key h) db.devices)
  unfolding count_devices_by_key_hash
  count_devices_lem up h db = rw sql.count_where_lem

  pub touch_device_lem :
      (up : Bool) (h t fp : Text) (now : Time) (rebind : Bool) (db : Db)
      → touch_device up h t fp now rebind db
        ≡ when up (record db { devices = modify (is_slot h t) (touched fp now rebind) db.devices })
  unfolding touch_device
  touch_device_lem up h t fp now rebind db = rw sql.update_lem

  pub insert_device_lem :
      (up : Bool) (d : LicenseDevice) (db : Db)
      → insert_device up d db ≡ (
          if up
          then elim (append_unique (is_slot d.key_hash d.device_token) d db.devices) [
            | none ↦ none
            | some ds ↦ some (record db { devices = ds })
          ]
          else none)
  unfolding insert_device
  insert_device_lem up d db =
      ap
        (λ r.
          if up then elim r [ none ↦ none | some ds ↦ some (record db { devices = ds }) ] else none)
        (sql.create_lem (is_slot d.key_hash d.device_token) d db.devices)

  pub delete_device_lem :
      (up : Bool) (h t : Text) (db : Db)
      → delete_device up h t db ≡ when up (record db { devices = remove (is_slot h t) db.devices })
  unfolding delete_device
  delete_device_lem up h t db = rw sql.delete_lem

  pub delete_devices_lem :
      (up : Bool) (h : Text) (db : Db)
      → delete_devices_by_key_hash up h db
        ≡ when up (record db { devices = remove (in_key h) db.devices })
  unfolding delete_devices_by_key_hash
  delete_devices_lem up h db = rw sql.delete_lem
