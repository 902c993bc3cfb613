-- ===== src/Activation/Slots/Effect.antt =====
-- What `occupySlot` leaves behind where it succeeds: two cases, in terms of the rows.
use license_service.Prelude.{
  ℕ, ◌<◌, ◌≡◌, Bool, not, Text, str_eq, List, [], ◌∷◌, ◌++◌, none, some, if◌then◌else◌, ℤ, arith,
  inl, inr, pos_part, ◌≢◌, Option-cases,
}
use license_service.Xcodes.{ok, bind-cases}
use license_service.Store.Models.{Db, LicenseDevice, Time}
use license_service.Store.Rows.{first, remove, modify, count}
use license_service.Store.Sql.{Sql, append_unique}
use license_service.Store.Device.{
  in_key, is_slot, touched, get_device_lem, count_devices_lem, touch_device_lem, insert_device_lem,
  delete_device_lem,
}
use license_service.Activation.Slots.{new_slot, evict, settle, take_slot, refuse_slot, occupy_slot}

-- The rows once the chosen device is evicted; no token evicts nothing.
abbrev pub evicted : Text → Text → List LicenseDevice → List LicenseDevice
evicted h t ds = if str_eq t [] then ds else remove (is_slot h t) ds

-- The token's row is there and is refreshed, or there is room and a row is added.
pub data Occupied (h token fp : Text) (now stamp : Time) (max_slots : ℤ)
    (ds ds' : List LicenseDevice) : Type 0 where
  refreshed :
      (d : LicenseDevice)
      → first (is_slot h token) ds ≡ some d
      → ds' ≡ modify (is_slot h token) (touched fp now (not (str_eq d.fingerprint_id fp))) ds
      → Occupied h token fp now stamp max_slots ds ds'
  added :
      first (is_slot h token) ds ≡ none
      → count (in_key h) ds < pos_part max_slots
      → ds' ≡ ds ++ new_slot h fp token now stamp ∷ []
      → Occupied h token fp now stamp max_slots ds ds'

module _ (sql : Sql) (up : ℕ → Bool) (now stamp : Time) where
  evict_lem :
      (h t : Text) (db : Db) {db' : Db}
      → evict sql up now stamp h t db ≡ ok db'
      → db' ≡ record db { devices = evicted h t db.devices }
  unfolding evict
  evict_lem h t db {db'} e = ground (arith, delete_device_lem sql (up 0) h t db)

  refuse_slot-ne-ok :
      (h : Text) (max_slots : ℤ) (db : Db) {db' : Db}
      → refuse_slot sql up now stamp h max_slots db ≢ ok db'
  unfolding refuse_slot
  refuse_slot-ne-ok h max_slots db e = ground arith

  -- The same database but for the device rows.
  abbrev pub OnlyDevices : Db → Db → Type 0
  OnlyDevices db db' = db' ≡ record db { devices = db'.devices }

  abbrev Settled : Text → Text → Text → ℤ → Db → Db → Type 0
  Settled h fp token max_slots db db' =
      Occupied h token fp now stamp max_slots db.devices db'.devices × OnlyDevices db db'

  take_slot-Settled :
      (h fp token : Text) (max_slots : ℤ) (db : Db) {db' : Db}
      → first (is_slot h token) db.devices ≡ none
      → take_slot sql up now stamp h fp token max_slots db ≡ ok db'
      → Settled h fp token max_slots db db'
  unfolding take_slot append_unique
  take_slot-Settled h fp token max_slots db {db'} missing e =
      let row = new_slot h fp token now stamp in
      let facts : (count (in_key h) db.devices < pos_part max_slots)
          × (db' ≡ record db { devices = db.devices ++ row ∷ [] }) =
        ground (
          arith,
          count_devices_lem sql (up 2) h db,
          insert_device_lem sql (up 3) row db,
          refuse_slot-ne-ok h max_slots db {db' = db'},
        ) in
      (added missing facts.0 (ground (arith, facts.1)), ground (arith, facts.1))

  settle-Settled :
      (h fp token : Text) (max_slots : ℤ) (db : Db) {db' : Db}
      → settle sql up now stamp h fp token max_slots db ≡ ok db'
      → Settled h fp token max_slots db db'
  unfolding settle
  settle-Settled h fp token max_slots db {db'} e =
      elim (Option-cases (first (is_slot h token) db.devices)) [
        | inl missing ↦
            take_slot-Settled h fp token max_slots db missing
              (ground (arith, get_device_lem sql (up 1) h token db))
        | inr (d, held) ↦
            let rebind = not (str_eq d.fingerprint_id fp) in
            let rows = modify (is_slot h token) (touched fp now rebind) db.devices in
            let written : db' ≡ record db { devices = rows } = ground (
              arith,
              get_device_lem sql (up 1) h token db,
              touch_device_lem sql (up 2) h token fp now rebind db,
            ) in
            (refreshed d held (ground (arith, written)), ground (arith, written))
      ]

  -- Where the slot judgment succeeds, the chosen device is evicted first, the caller's slot is
  -- refreshed or added under the bound, and no other table changes.
  pub occupy_slot-Occupied :
      (h fp token evict_token : Text) (max_slots : ℤ) (db : Db) {db' : Db}
      → occupy_slot sql up now stamp h fp token evict_token max_slots db ≡ ok db'
      → Occupied h token fp now stamp max_slots (evicted h evict_token db.devices) db'.devices
        × OnlyDevices db db'
  unfolding occupy_slot
  occupy_slot-Occupied h fp token evict_token max_slots db {db'} e =
      bind-cases (evict sql up now stamp h evict_token db)
        (λ x. settle sql up now stamp h fp token max_slots x) e
        λ db₁ first_step then_step.
          let cleared = evict_lem h evict_token db first_step in
          let settled = settle-Settled h fp token max_slots db₁ then_step in
          (rw cleared at settled.0, ground (arith, cleared, settled.1))
