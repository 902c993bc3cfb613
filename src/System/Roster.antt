-- ===== src/System/Roster.antt =====
-- What the slots of one key are to its clients: a set of devices, one step at a time.
pub mod Refines
use license_service.Prelude.{
  ℕ, ◌+◌, ◌≤◌, ◌<◌, ◌≡◌, refl, Bool, true, false, not, ◌&&◌, ◌||◌, Text, str_eq, str_eq_iff,
  str_eq_refl, List, [], ◌∷◌, ◌++◌, leb, if◌then◌else◌, ℤ, arith, inl, inr, Bool-cases, pos_part,
  ap, ◌∙◌, sym,
}
use license_service.Store.Models.{LicenseDevice, Time}
use license_service.Store.Rows.{
  count, remove, count-remove_self, count-remove_apart, count-remove_within, count-modify,
  count-first-none, count-append,
}
use license_service.Store.Device.{in_key, is_slot, touched}
use license_service.Activation.Slots.{new_slot}
use license_service.Activation.Slots.Effect.{Occupied, refreshed, added, evicted}
use license_service.Activation.Slots.Counts.{
  IsDistinct, Occupied-other_key, Occupied-own, Occupied-other_slot, evicted-other_key,
  evicted-other_slot, evicted-IsDistinct,
}

-- The devices that hold a slot, and how many slots are used.
pub record Roster : Type 0 where
  pub holds : Text → Bool
  pub used : ℕ

-- A device releases its slot; or a device that holds none takes one of the slots that are left.
pub data SlotStep (slots : ℕ) (r r' : Roster) : Type 0 where
  release :
      (token : Text)
      → ((u : Text) → r'.holds u ≡ (not (str_eq token u) && r.holds u))
      → r'.used + (if r.holds token then 1 else 0) ≡ r.used
      → SlotStep slots r r'
  occupy :
      (token : Text)
      → r.holds token ≡ false
      → r.used < slots
      → ((u : Text) → r'.holds u ≡ (str_eq token u || r.holds u))
      → r'.used ≡ r.used + 1
      → SlotStep slots r r'

-- Any number of steps.
pub data SlotSteps (slots : ℕ) (r : Roster) : Roster → Type 0 where
  rest : (r' : Roster) → r ≡ r' → SlotSteps slots r r'
  step : (r' r'' : Roster) → SlotSteps slots r r' → SlotStep slots r' r'' → SlotSteps slots r r''

-- The roster of a key in the rows of the devices.
abbrev pub roster : Text → List LicenseDevice → Roster
roster h ds = record { holds = λ t. leb 1 (count (is_slot h t) ds); used = count (in_key h) ds }

slot_in_key : (h t : Text) (d : LicenseDevice) → is_slot h t d ≡ true → in_key h d ≡ true
slot_in_key h t d e = ground (arith, e)

other_slot :
    (h t u : Text)
    → str_eq t u ≡ false
    → (d : LicenseDevice) → is_slot h t d ≡ true
    → is_slot h u d ≡ false
other_slot h t u apart d e = ground (arith, e, apart, str_eq_iff d.device_token t)

-- A removed slot is released, where the rows obey the unique index.
pub removed-release :
    {slots : ℕ} (h t : Text) (ds : List LicenseDevice)
    → IsDistinct ds
    → SlotStep slots (roster h ds) (roster h (remove (is_slot h t) ds))
removed-release h t ds distinct =
    release t
      (λ u. elim (Bool-cases (str_eq t u)) [
        | inl same ↦
            rw ((str_eq_iff t u).0 same, count-remove_self (is_slot h u) ds, str_eq_refl u) refl
        | inr apart ↦
            rw (apart, count-remove_apart (is_slot h u) (is_slot h t) ds (other_slot h t u apart))
              refl
      ])
      (ground
        (arith, distinct h t, count-remove_within (in_key h) (is_slot h t) ds (slot_in_key h t)))
