-- ===== src/Activation/Slots.antt =====
-- `occupySlot` of activation.go, and the views of the slot roster. Its statements are numbered
-- from 0 by `up`.
pub mod Effect
pub mod Counts
use license_service.Prelude.{
  ℕ, Bool, not, Text, str_eq, List, [], map, none, if◌then◌else◌, ℤ, pos, leb_ℤ, length,
}
use license_service.Xcodes.{
  Result, ok, err, plain, detailed, Code, slot_limit, DeviceSlotInfo, slot_limit_info, ◌>>=◌,
}
use license_service.Store.Models.{Db, LicenseDevice, Time}
use license_service.Store.Sql.{Sql}
use license_service.Store.Reply.{found, record_not_found, failed, internal}
use license_service.Store.Device.{
  get_device, count_devices_by_key_hash, list_devices_by_key_hash, touch_device, insert_device,
  delete_device,
}

-- `deviceToProto`
unfoldable pub device_to_proto : LicenseDevice → DeviceSlotInfo
device_to_proto d = record {
  device_token = d.device_token;
  fingerprint_id = d.fingerprint_id;
  first_seen_at = d.created_at;
  last_seen_at = d.last_seen_at;
}

-- `licensev1.SlotSummary`
pub record SlotSummary : Type 0 where
  pub used : ℕ
  pub max_slots : ℤ
  pub devices : List DeviceSlotInfo

-- `slotsSummary`
unfoldable pub slots_summary : ℤ → List LicenseDevice → SlotSummary
slots_summary max_slots devices = record {
  used = length devices;
  max_slots = max_slots;
  devices = map device_to_proto devices;
}

-- The row of a fresh slot; gorm fills in `created_at`.
abbrev pub new_slot : Text → Text → Text → Time → Time → LicenseDevice
new_slot h fp token now stamp = record {
  key_hash = h;
  device_token = token;
  fingerprint_id = fp;
  last_seen_at = now;
  last_fingerprint_at = none;
  created_at = stamp;
}

module _ (sql : Sql) (up : ℕ → Bool) (now stamp : Time) where
  unfoldable pub evict : Text → Text → Db → Result Db
  evict h token db =
      if str_eq token [] then ok db else internal (delete_device sql (up 0) h token db)

  -- SLOT_LIMIT, with the roster.
  unfoldable pub refuse_slot : Text → ℤ → Db → Result Db
  refuse_slot h max_slots db = do
    roster ← internal (list_devices_by_key_hash sql (up 3) h db)
    err (detailed slot_limit (slot_limit_info max_slots (map device_to_proto roster)))

  unfoldable pub take_slot : Text → Text → Text → ℤ → Db → Result Db
  take_slot h fp token max_slots db = do
    n ← internal (count_devices_by_key_hash sql (up 2) h db)
    if leb_ℤ max_slots (pos n)
        then refuse_slot h max_slots db
        else internal (insert_device sql (up 3) (new_slot h fp token now stamp) db)

  unfoldable pub settle : Text → Text → Text → ℤ → Db → Result Db
  settle h fp token max_slots db = elim (get_device sql (up 1) h token db) [
    | found d ↦
        internal (touch_device sql (up 2) h token fp now (not (str_eq d.fingerprint_id fp)) db)
    | record_not_found ↦ take_slot h fp token max_slots db
    | failed ↦ err (plain Code.internal)
  ]

  unfoldable pub occupy_slot : Text → Text → Text → Text → ℤ → Db → Result Db
  occupy_slot h fp token evict_token max_slots db = do
    db ← evict h evict_token db
    settle h fp token max_slots db
