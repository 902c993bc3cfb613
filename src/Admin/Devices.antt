-- ===== src/Admin/Devices.antt =====
-- The device RPCs of internal/service/admin/admin.go. BEGIN is statement 0, COMMIT is 9.
use license_service.Prelude.{ltb, Bool, Text, List, map}
use license_service.Xcodes.{Result, ok, DeviceSlotInfo, ◌>>=◌}
use license_service.Store.Models.{Db}
use license_service.Store.Reply.{Env, internal, transaction}
use license_service.Store.Device.{
  count_devices_by_key_hash, delete_device, list_devices_by_key_hash,
}
use license_service.Activation.Service.{Deps}
use license_service.Activation.Slots.{device_to_proto}
use license_service.Admin.Scope.{Caller}
use license_service.Admin.View.{resolve_key}
use license_service.Admin.Keys.{as_operator, reading}

module _ (d : Deps) (env : Env) where
  open d use {sql}

  unfoldable pub list_key_devices_tx : Text → Db → Result (List DeviceSlotInfo)
  list_key_devices_tx id db = do
    k ← resolve_key sql (env.up 1) id db
    devices ← internal (list_devices_by_key_hash sql (env.up 2) k.key_hash db)
    ok (map device_to_proto devices)

  unfoldable pub list_key_devices : Caller → Text → Db → Result (List DeviceSlotInfo) × Db
  list_key_devices c id db =
      as_operator c (transaction (env.up 0) (env.up 9) (reading (list_key_devices_tx id))) db

  -- Whether a slot was released.
  unfoldable pub kick_device_tx : Text → Text → Db → Result (Bool × Db)
  kick_device_tx id token db = do
    k ← resolve_key sql (env.up 1) id db
    before ← internal (count_devices_by_key_hash sql (env.up 2) k.key_hash db)
    db ← internal (delete_device sql (env.up 3) k.key_hash token db)
    after ← internal (count_devices_by_key_hash sql (env.up 4) k.key_hash db)
    ok (ltb after before, db)

  unfoldable pub kick_device : Caller → Text → Text → Db → Result Bool × Db
  kick_device c id token db =
      as_operator c (transaction (env.up 0) (env.up 9) (kick_device_tx id token)) db
