-- ===== src/Activation/Slots/Counts.antt =====
-- The slot counts before and after `occupySlot`.
use license_service.Prelude.{
  ◌+◌, ◌≤◌, ◌≡◌, refl, Bool, true, false, not, ◌&&◌, Text, str_eq, str_eq_iff, str_eq_refl, List,
  [], ◌∷◌, ◌++◌, if◌then◌else◌, ℤ, arith, ◌⊎◌, inl, inr, pos_part, ◌∙◌, max, Bool-cases,
}
use license_service.Store.Models.{LicenseDevice, Time}
use license_service.Store.Rows.{
  count, count-modify, count-append, count-first-some, count-first-none, count-remove_le,
  count-remove_apart,
}
use license_service.Store.Device.{in_key, is_slot, touched}
use license_service.Activation.Slots.{new_slot}
use license_service.Activation.Slots.Effect.{Occupied, refreshed, added, evicted}

-- The unique index of license_devices.
abbrev pub IsDistinct : List LicenseDevice → Type 0
IsDistinct ds = (h t : Text) → count (is_slot h t) ds ≤ 1

slot-in_key : (h t g : Text) (d : LicenseDevice) → is_slot h t d ≡ true → in_key g d ≡ str_eq h g
slot-in_key h t g d e = ground (arith, str_eq_iff d.key_hash h)

slot-slot :
    (h t g u : Text) (d : LicenseDevice)
    → is_slot h t d ≡ true
    → is_slot g u d ≡ (str_eq h g && str_eq t u)
slot-slot h t g u d e = ground (arith, str_eq_iff d.key_hash h, str_eq_iff d.device_token t)

key_apart :
    (h t g : Text)
    → str_eq h g ≡ false
    → (d : LicenseDevice) → is_slot h t d ≡ true
    → in_key g d ≡ false
key_apart h t g apart d e = slot-in_key h t g d e ∙ apart

slot_apart :
    (h t g u : Text)
    → (str_eq h g ≡ false) ⊎ (str_eq t u ≡ false)
    → (d : LicenseDevice) → is_slot h t d ≡ true
    → is_slot g u d ≡ false
slot_apart h t g u apart d e = ground (arith, slot-slot h t g u d e)

module _ (h token fp : Text) (now stamp : Time) (max_slots : ℤ) where
  pub count-added :
      (q : LicenseDevice → Bool) (ds : List LicenseDevice)
      → count q (ds ++ new_slot h fp token now stamp ∷ [])
        ≡ count q ds + (if q (new_slot h fp token now stamp) then 1 else 0)
  unfolding count
  count-added q ds = ground (arith, count-append q ds (new_slot h fp token now stamp ∷ []))

  -- The slots of another key stay as many.
  pub Occupied-other_key :
      (g u : Text) {ds ds' : List LicenseDevice}
      → Occupied h token fp now stamp max_slots ds ds'
      → str_eq h g ≡ false
      → (count (in_key g) ds' ≡ count (in_key g) ds)
        × (count (is_slot g u) ds' ≡ count (is_slot g u) ds)
  Occupied-other_key g u {ds} (refreshed d held e) apart =
      let f = touched fp now (not (str_eq d.fingerprint_id fp)) in
      rw e (
        count-modify (in_key g) (is_slot h token) f ds (λ r _. refl),
        count-modify (is_slot g u) (is_slot h token) f ds (λ r _. refl),
      )
  Occupied-other_key g u {ds} (added missing room e) apart =
      rw (e, count-added (in_key g) ds, count-added (is_slot g u) ds) (ground arith)

  -- The caller's own slot is there.
  pub Occupied-own :
      {ds ds' : List LicenseDevice}
      → Occupied h token fp now stamp max_slots ds ds'
      → count (is_slot h token) ds' ≡ max 1 (count (is_slot h token) ds)
  Occupied-own {ds} (refreshed d held e) =
      let f = touched fp now (not (str_eq d.fingerprint_id fp)) in
      rw (e, count-modify (is_slot h token) (is_slot h token) f ds (λ r _. refl))
        (omega (arith, count-first-some (is_slot h token) ds held))
  Occupied-own {ds} (added missing room e) =
      rw (e, count-added (is_slot h token) ds)
        (ground
          (arith, count-first-none (is_slot h token) ds missing, str_eq_refl h, str_eq_refl token))

  -- The other slots of the key are untouched.
  pub Occupied-other_slot :
      (u : Text) {ds ds' : List LicenseDevice}
      → Occupied h token fp now stamp max_slots ds ds'
      → str_eq token u ≡ false
      → count (is_slot h u) ds' ≡ count (is_slot h u) ds
  Occupied-other_slot u {ds} (refreshed d held e) apart =
      let f = touched fp now (not (str_eq d.fingerprint_id fp)) in
      rw (e, count-modify (is_slot h u) (is_slot h token) f ds (λ r _. refl))
  Occupied-other_slot u {ds} (added missing room e) apart =
      rw (e, count-added (is_slot h u) ds) (ground arith)

  -- A slot is added only under the bound.
  pub Occupied-bound :
      {ds ds' : List LicenseDevice}
      → Occupied h token fp now stamp max_slots ds ds'
      → count (in_key h) ds' ≤ max (count (in_key h) ds) (pos_part max_slots)
  Occupied-bound {ds} (refreshed d held e) =
      let f = touched fp now (not (str_eq d.fingerprint_id fp)) in
      rw (e, count-modify (in_key h) (is_slot h token) f ds (λ r _. refl)) (omega arith)
  Occupied-bound {ds} (added missing room e) =
      rw (e, count-added (in_key h) ds) (ground (arith, str_eq_refl h))

  pub Occupied-IsDistinct :
      {ds ds' : List LicenseDevice}
      → Occupied h token fp now stamp max_slots ds ds'
      → IsDistinct ds
      → IsDistinct ds'
  Occupied-IsDistinct occ distinct g u = elim (Bool-cases (str_eq h g)) [
    | inr apart ↦ omega (arith, (Occupied-other_key g u occ apart).1, distinct g u)
    | inl same ↦ rw (← (str_eq_iff h g).0 same) (elim (Bool-cases (str_eq token u)) [
      | inr other ↦ omega (arith, Occupied-other_slot u occ other, distinct h u)
      | inl own ↦
          rw (← (str_eq_iff token u).0 own) (omega (arith, Occupied-own occ, distinct h token))
    ])
  ]

module _ (h t : Text) (ds : List LicenseDevice) where
  pub evicted-le : (q : LicenseDevice → Bool) → count q (evicted h t ds) ≤ count q ds
  evicted-le q = ground (arith, count-remove_le q (is_slot h t) ds)

  pub evicted-IsDistinct : IsDistinct ds → IsDistinct (evicted h t ds)
  evicted-IsDistinct distinct g u = omega (arith, evicted-le (is_slot g u), distinct g u)

  pub evicted-other_key :
      (g u : Text)
      → str_eq h g ≡ false
      → (count (in_key g) (evicted h t ds) ≡ count (in_key g) ds)
        × (count (is_slot g u) (evicted h t ds) ≡ count (is_slot g u) ds)
  evicted-other_key g u apart =
      let same_keys = count-remove_apart (in_key g) (is_slot h t) ds (key_apart h t g apart) in
      let same_slots =
        count-remove_apart (is_slot g u) (is_slot h t) ds (slot_apart h t g u (inl apart)) in
      (ground (arith, same_keys), ground (arith, same_slots))

  pub evicted-other_slot :
      (u : Text)
      → str_eq t u ≡ false
      → count (is_slot h u) (evicted h t ds) ≡ count (is_slot h u) ds
  evicted-other_slot u apart =
      let same =
        count-remove_apart (is_slot h u) (is_slot h t) ds (slot_apart h t h u (inr apart)) in
      ground (arith, same)
