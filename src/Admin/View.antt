-- ===== src/Admin/View.antt =====
-- The helpers of internal/service/admin/admin.go: finding a key, and its read-side view.
use license_service.Prelude.{ℕ, Bool, false, Text, List, [], map, Option, ℤ, if◌then◌else◌, length}
use license_service.Xcodes.{Result, ok, err, plain, Code, key_not_found, DeviceSlotInfo, ◌>>=◌}
use license_service.Store.Models.{Db, LicenseKey, LicenseEntitlement, Time}
use license_service.Store.Sql.{Sql}
use license_service.Store.Reply.{Fetch, found, record_not_found, failed, internal}
use license_service.Store.Key.{get_key_by_id_or_hash, get_key_by_key_hash}
use license_service.Store.Device.{list_devices_by_key_hash}
use license_service.Store.Entitlement.{list_entitlements_by_key_hash}
use license_service.Activation.Slots.{device_to_proto}

-- `licensev1.EntitlementInfo`
pub record EntitlementInfo : Type 0 where
  pub module_id : ℤ
  pub kind : ℤ
  pub granted_at : Time
  pub expires_at : Option Time

-- `licensev1.KeyInfo`
pub record KeyInfo : Type 0 where
  pub license_id : Text
  pub key_prefix : Text
  pub label : Text
  pub max_slots : ℤ
  pub status : ℤ
  pub created_at : Time
  pub revoked_at : Option Time
  pub entitlements : List EntitlementInfo
  pub used_slots : ℕ
  pub devices : List DeviceSlotInfo

unfoldable pub entitlement_info : LicenseEntitlement → EntitlementInfo
entitlement_info e = record {
  module_id = e.module_id;
  kind = e.kind;
  granted_at = e.granted_at;
  expires_at = e.expires_at;
}

-- A row that is read again, where not finding it is an error like any other.
unfoldable pub require_row : {A : Type 0} → Fetch A → Result A
require_row (found a) = ok a
require_row record_not_found = err (plain Code.internal)
require_row failed = err (plain Code.internal)

unfoldable pub named_key : Fetch LicenseKey → Result LicenseKey
named_key (found k) = ok k
named_key record_not_found = err (plain key_not_found)
named_key failed = err (plain Code.internal)

module _ (sql : Sql) where
  unfoldable pub resolve_key : Bool → Text → Db → Result LicenseKey
  resolve_key up id db = named_key (get_key_by_id_or_hash sql up id db)

  -- Two statements: the entitlements and the devices.
  unfoldable pub key_to_proto : Bool → Bool → LicenseKey → Bool → Db → Result KeyInfo
  key_to_proto up_ents up_devices k with_devices db = do
    ents ← internal (list_entitlements_by_key_hash sql up_ents k.key_hash db)
    devices ← internal (list_devices_by_key_hash sql up_devices k.key_hash db)
    ok (record {
      license_id = k.license_id;
      key_prefix = k.key_prefix;
      label = k.label;
      max_slots = k.max_slots;
      status = k.status;
      created_at = k.created_at;
      revoked_at = k.revoked_at;
      entitlements = map entitlement_info ents;
      used_slots = length devices;
      devices = if with_devices then map device_to_proto devices else [];
    })

  -- The row as it now is, and its view.
  unfoldable pub fresh_view : Bool → Bool → Bool → Text → Db → Result KeyInfo
  fresh_view up_key up_ents up_devices h db = do
    fresh ← require_row (get_key_by_key_hash sql up_key h db)
    key_to_proto up_ents up_devices fresh false db
