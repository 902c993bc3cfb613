-- ===== src/System/Ownership.antt =====
-- Well-formed databases, and what single statements do to them.
use license_service.Prelude.{
  ◌≤◌, ◌<◌, ◌≡◌, refl, subst, Bool, true, false, Text, str_eq, str_eq_iff, List, [], ◌∷◌, ◌++◌,
  Option, none, some, not, ◌&&◌, eq_ℤ, if◌then◌else◌, ℤ, arith, ◌⊎◌, inl, inr, Bool-cases,
  Option-cases,
}
use license_service.Store.Models.{
  Db, LicenseKey, LicenseEntitlement, LicenseDevice, LicenseTrial, LicenseApp, Time,
}
use license_service.Store.Rows.{
  count, remove, modify, count-modify, count-remove_le, count-append, first, count-modify_le,
  first-counted,
}
use license_service.Store.Sql.{append_unique}
use license_service.Store.Device.{in_key, is_slot}
use license_service.Store.Key.{has_hash}
use license_service.Store.Entitlement.{of_key, of_module, replaced, upserted}
use license_service.Admin.Keys.{slots_in_range, key_status_active, key_status_revoked}
use license_service.Activation.Slots.Counts.{IsDistinct}

-- Revoked keys, and no others, have a time of revocation.
abbrev pub is_consistent : ℤ → Option Time → Bool
is_consistent status none = eq_ℤ status key_status_active
is_consistent status (some _) = eq_ℤ status key_status_revoked

-- A key that breaks its bounds.
abbrev pub is_unsound : LicenseKey → Bool
is_unsound k = not (slots_in_range k.max_slots && is_consistent k.status k.revoked_at)

-- A device has one slot of a key, no row of a device or an entitlement is without its key, and keys
-- and their slots keep to their bounds.
pub record WellFormed (db : Db) : Type 0 where
  pub distinct : IsDistinct db.devices
  pub sound : count is_unsound db.keys ≡ 0
  pub few : (h : Text) → count (in_key h) db.devices ≤ 100
  pub owned :
      (h : Text)
      → count (has_hash h) db.keys ≡ 0
      → (count (in_key h) db.devices ≡ 0) × (count (of_key h) db.entitlements ≡ 0)

-- The key has a row.
abbrev pub HasOwner : Text → Db → Type 0
HasOwner h db = 0 < count (has_hash h) db.keys

module _ (db : Db) (good : WellFormed db) where
  pub devices-WellFormed :
      (ds : List LicenseDevice)
      → IsDistinct ds
      → ((h : Text)
          → count (has_hash h) db.keys ≡ 0
          → count (in_key h) ds ≤ count (in_key h) db.devices)
      → ((h : Text) → count (in_key h) ds ≤ 100)
      → WellFormed (record db { devices = ds })
  devices-WellFormed ds distinct fewer few = record {
    distinct = distinct;
    sound = good.sound;
    few = few;
    owned = λ h lost. (omega (arith, fewer h lost, (good.owned h lost).0), (good.owned h lost).1);
  }

  pub entitlements-WellFormed :
      (es : List LicenseEntitlement)
      → ((h : Text)
          → count (has_hash h) db.keys ≡ 0
          → count (of_key h) es ≤ count (of_key h) db.entitlements)
      → WellFormed (record db { entitlements = es })
  entitlements-WellFormed es fewer = record {
    distinct = good.distinct;
    sound = good.sound;
    few = good.few;
    owned = λ h lost. ((good.owned h lost).0, omega (arith, fewer h lost, (good.owned h lost).1));
  }

  pub keys-WellFormed :
      (ks : List LicenseKey)
      → ((h : Text) → count (has_hash h) ks ≡ 0 → count (has_hash h) db.keys ≡ 0)
      → count is_unsound ks ≡ 0
      → WellFormed (record db { keys = ks })
  keys-WellFormed ks kept sound = record {
    distinct = good.distinct;
    sound = sound;
    few = good.few;
    owned = λ h lost. good.owned h (kept h lost);
  }

  pub trials-WellFormed : (ts : List LicenseTrial) → WellFormed (record db { trials = ts })
  trials-WellFormed ts = record {
    distinct = good.distinct;
    sound = good.sound;
    few = good.few;
    owned = good.owned;
  }

  pub apps-WellFormed : (rs : List LicenseApp) → WellFormed (record db { apps = rs })
  apps-WellFormed rs = record {
    distinct = good.distinct;
    sound = good.sound;
    few = good.few;
    owned = good.owned;
  }

  -- Fewer devices are well-formed.
  pub removed_devices-WellFormed :
      (p : LicenseDevice → Bool) → WellFormed (record db { devices = remove p db.devices })
  removed_devices-WellFormed p =
      devices-WellFormed (remove p db.devices)
        (λ h t. omega (arith, count-remove_le (is_slot h t) p db.devices, good.distinct h t))
        (λ h _. count-remove_le (in_key h) p db.devices)
        λ h. omega (arith, count-remove_le (in_key h) p db.devices, good.few h)

  pub removed_entitlements-WellFormed :
      (p : LicenseEntitlement → Bool)
      → WellFormed (record db { entitlements = remove p db.entitlements })
  removed_entitlements-WellFormed p =
      entitlements-WellFormed (remove p db.entitlements)
        (λ h _. count-remove_le (of_key h) p db.entitlements)

  -- Changing the other columns of a key.
  pub modified_keys-WellFormed :
      (p : LicenseKey → Bool) (f : LicenseKey → LicenseKey)
      → ((k : LicenseKey) → (f k).key_hash ≡ k.key_hash)
      → ((k : LicenseKey) → is_unsound (f k) ≡ true → is_unsound k ≡ true)
      → WellFormed (record db { keys = modify p f db.keys })
  modified_keys-WellFormed p f same keeps =
      keys-WellFormed (modify p f db.keys)
        (λ h lost. omega (arith, lost, count-modify (has_hash h) p f db.keys (λ k _. rw same refl)))
        (omega (arith, good.sound, count-modify_le is_unsound p f db.keys keeps))

  read_key :
      (p : LicenseKey → Bool) {k : LicenseKey} → first p db.keys ≡ some k → is_unsound k ≡ false
  read_key p {k} e = elim (Bool-cases (is_unsound k)) [
    | inl broken ↦ absurd (omega (arith, good.sound, first-counted p is_unsound db.keys e broken))
    | inr sound ↦ sound
  ]

  -- A key that a statement reads keeps to its bounds.
  pub read_key_sound :
      (p : LicenseKey → Bool) {k : LicenseKey}
      → first p db.keys ≡ some k
      → slots_in_range k.max_slots ≡ true
  read_key_sound p {k} e = ground (arith, read_key p e)

  pub read_key_consistent :
      (p : LicenseKey → Bool) {k : LicenseKey}
      → first p db.keys ≡ some k
      → is_consistent k.status k.revoked_at ≡ true
  read_key_consistent p {k} e = ground (arith, read_key p e)

-- A row that has an owner is not of a key that has none.
pub owner-apart :
    (h g : Text) (db : Db) → HasOwner h db → count (has_hash g) db.keys ≡ 0 → str_eq h g ≡ false
owner-apart h g db owner lost = elim (Bool-cases (str_eq h g)) [
  | inr apart ↦ apart
  | inl same ↦
      let e : h ≡ g = (str_eq_iff h g).0 same in
      absurd (omega (arith, subst (λ x. HasOwner x db) e owner, lost))
]

of_key-module :
    (h g : Text) (m : ℤ) (e : LicenseEntitlement) → of_module h m e ≡ true → of_key g e ≡ str_eq h g
of_key-module h g m e mine = ground (arith, str_eq_iff e.key_hash h)

append_unique-cases :
    {A : Type 0} (p : A → Bool) (r : A) (rs : List A)
    → (append_unique p r rs ≡ none) ⊎ (append_unique p r rs ≡ some (rs ++ r ∷ []))
unfolding append_unique
append_unique-cases p r rs = elim (Option-cases (first p rs)) [
  | inr (there, clash) ↦ inl (ground (arith, clash))
  | inl fresh ↦ inr (ground (arith, fresh))
]

count-one : {A : Type 0} (q : A → Bool) (r : A) → count q (r ∷ []) ≡ (if q r then 1 else 0)
unfolding count
count-one q r = omega arith

upserted-apart :
    (e : LicenseEntitlement) (g : Text) (es : List LicenseEntitlement)
    → str_eq e.key_hash g ≡ false
    → count (of_key g) (
        upserted
          (modify (of_module e.key_hash e.module_id) (replaced e) es)
          (append_unique (of_module e.key_hash e.module_id) e es))
      ≡ count (of_key g) es
upserted-apart e g es apart =
    let p = of_module e.key_hash e.module_id in
    elim (append_unique-cases p e es) [
      | inr added ↦
          rw added (ground (arith, count-append (of_key g) es (e ∷ []), count-one (of_key g) e))
      | inl refused ↦ rw refused (count-modify (of_key g) p (replaced e) es λ r _. refl)
    ]

-- An entitlement may be added to a key that there is.
pub upserted-WellFormed :
    (db : Db) (e : LicenseEntitlement)
    → WellFormed db
    → HasOwner e.key_hash db
    → WellFormed (record db {
      entitlements =
          upserted
            (modify (of_module e.key_hash e.module_id) (replaced e) db.entitlements)
            (append_unique (of_module e.key_hash e.module_id) e db.entitlements);
    })
upserted-WellFormed db e good owner = entitlements-WellFormed db good _ λ h lost.
    omega (arith, upserted-apart e h db.entitlements (owner-apart e.key_hash h db owner lost))
