-- ===== src/Activation/Handlers/Roster.antt =====
-- What a successful `Activate` does to the slots of its key, and of every other key.
use license_service.Prelude.{
  ℕ, ◌≤◌, ◌≡◌, refl, ◌∙◌, ap, subst, Bool, true, false, Text, List, [], some, arith, str_eq,
  pos_part, max, length, ◌∷◌, leb, sym, ◌&&◌, not, if◌then◌else◌, str_eq_refl, ℤ,
}
use license_service.Xcodes.{ok, ok-injective}
use license_service.Store.Models.{Db, LicenseDevice, LicenseKey, Time}
use license_service.Store.Rows.{
  count, first, keep, length-keep, remove, remove-modify, remove-append,
}
use license_service.Store.Reply.{Env}
use license_service.Store.Sql.{Sql}
use license_service.Store.Device.{in_key, touched, list_devices_by_key_hash}
use license_service.Activation.Service.{Deps, Service}
use license_service.Activation.Slots.{slots_summary, new_slot}
use license_service.Activation.Slots.Effect.{Occupied, refreshed, added}
use license_service.Activation.Slots.Counts.{
  IsDistinct, Occupied-own, Occupied-bound, Occupied-other_key, Occupied-other_slot,
  Occupied-IsDistinct, evicted-le, evicted-IsDistinct, evicted-other_key, evicted-other_slot,
}
use license_service.Activation.Handlers.{
  Activated, ActivateRequest, ActivateResponse, activate, normalize_request_key,
}
use license_service.Activation.Handlers.Inversion.{Activates, activate-Activates}

-- The row of a device at a key, and the rows without it; no token names none.
abbrev pub row_of : Text → Text → LicenseDevice → Bool
row_of h token r = str_eq r.key_hash h && str_eq r.device_token token

abbrev pub but_for : Text → Text → List LicenseDevice → List LicenseDevice
but_for h token ds = if str_eq token [] then ds else remove (row_of h token) ds

Occupied-but_for :
    (h token fp : Text) (now stamp : Time) (max_slots : ℤ) {ds ds' : List LicenseDevice}
    → Occupied h token fp now stamp max_slots ds ds'
    → remove (row_of h token) ds' ≡ remove (row_of h token) ds
unfolding new_slot
Occupied-but_for h token fp now stamp max_slots {ds} (refreshed d held e) = rw e (
    remove-modify (row_of h token) (touched fp now (not (str_eq d.fingerprint_id fp))) ds
      (λ r. refl))
Occupied-but_for h token fp now stamp max_slots {ds} (added missing room e) = rw e (
    remove-append (row_of h token) ds (new_slot h fp token now stamp)
      (ground (arith, str_eq_refl h, str_eq_refl token)))

-- The slots of a key, and whether a token holds one of them.
abbrev pub slots_of : Text → Db → ℕ
slots_of h db = count (λ r. str_eq r.key_hash h) db.devices

abbrev pub holds : Text → Text → Db → ℕ
holds h token db = count (row_of h token) db.devices

count-true : {A : Type 0} (rs : List A) → count (λ _. true) rs ≡ length rs
unfolding count
count-true [] = refl
count-true (r ∷ rs) = omega (arith, count-true rs)

-- A listed roster is as long as the key has slots.
pub length-list_devices :
    (sql : Sql) (up : Bool) (h : Text) (db : Db) {ds : List LicenseDevice}
    → list_devices_by_key_hash sql up h db ≡ some ds
    → length ds ≡ slots_of h db
unfolding list_devices_by_key_hash
length-list_devices sql false h db e = ground arith
length-list_devices sql true h db {ds} e =
    let order = λ (a b : LicenseDevice). leb a.created_at b.created_at in
    let listed : sql.find order (in_key h) db.devices ≡ ds = cc in
    rw (← listed) (
      omega (
        arith,
        count-true (sql.find order (in_key h) db.devices),
        sql.count-find (λ _. true) order (in_key h) db.devices,
        count-true (keep (in_key h) db.devices),
        length-keep (in_key h) db.devices,
      ))

module _ (d : Deps) (s : Service d) (env : Env) (h : Text) (req : ActivateRequest) (a : Activated)
    (db db' : Db) (did : Activates d s env h req a db db') where
  Activates-own : IsDistinct db.devices → holds h req.device_token db' ≡ 1
  Activates-own distinct = omega (
    arith,
    Occupied-own h req.device_token req.fingerprint_id (env.clock 0) env.stamp a.key.max_slots
        did.occupied,
    evicted-IsDistinct h req.evict_device_token db.devices distinct h req.device_token,
  )

  Activates-bound : slots_of h db' ≤ max (slots_of h db) (pos_part a.key.max_slots)
  Activates-bound = omega (
    arith,
    Occupied-bound h req.device_token req.fingerprint_id (env.clock 0) env.stamp a.key.max_slots
        did.occupied,
    evicted-le h req.evict_device_token db.devices (in_key h),
  )

  Activates-other_key :
      (g token : Text)
      → str_eq h g ≡ false
      → (slots_of g db' ≡ slots_of g db) × (holds g token db' ≡ holds g token db)
  Activates-other_key g token apart =
      let after =
        Occupied-other_key h req.device_token req.fingerprint_id (env.clock 0) env.stamp
          a.key.max_slots g token did.occupied apart in
      let before = evicted-other_key h req.evict_device_token db.devices g token apart in
      (after.0 ∙ before.0, after.1 ∙ before.1)

  Activates-other_slot :
      (token : Text)
      → str_eq req.device_token token ≡ false
      → str_eq req.evict_device_token token ≡ false
      → holds h token db' ≡ holds h token db
  Activates-other_slot token own other =
      Occupied-other_slot h req.device_token req.fingerprint_id (env.clock 0) env.stamp
        a.key.max_slots token did.occupied own
      ∙ evicted-other_slot h req.evict_device_token db.devices token other

module _ (d : Deps) (s : Service d) (env : Env) (req : ActivateRequest) (db : Db)
    (resp : ActivateResponse) (db' : Db) (done : activate d s env req db ≡ (ok resp, db')) where
  -- After a successful `Activate`, in a database that obeys the unique index, some key is accepted;
  -- the caller holds exactly one slot of it, the key has no more slots than before or than the bound
  -- in the row that its hash finds, whichever is more, the index is obeyed still, and the reply has
  -- that bound and counts the slots.
  pub activate_bound :
      IsDistinct db.devices
      → (h : Text) × (k : LicenseKey) × (normalize_request_key d s env req.key req.license_key
          ≡ ok h)
        × (first (λ r. str_eq r.key_hash h) db.keys ≡ some k)
        × (holds h req.device_token db' ≡ 1)
        × (slots_of h db' ≤ max (slots_of h db) (pos_part k.max_slots))
        × (resp.slots.max_slots ≡ k.max_slots)
        × (resp.slots.used ≡ slots_of h db')
        × IsDistinct db'.devices
  unfolding slots_summary
  activate_bound distinct =
      let (h, accepted, a, did, slots, _) = activate-Activates d s env req db done in
      (
        h,
        a.key,
        accepted,
        did.key_row,
        Activates-own d s env h req a db db' did distinct,
        Activates-bound d s env h req a db db' did,
        ap (λ x. x.max_slots) slots,
        ap (λ x. x.used) slots ∙ length-list_devices d.sql (env.up 6) h db' did.listed,
        Occupied-IsDistinct h req.device_token req.fingerprint_id (env.clock 0) env.stamp
            a.key.max_slots did.occupied
            (evicted-IsDistinct h req.evict_device_token db.devices distinct),
      )

  -- A successful `Activate` leaves every device row but the caller's and the evicted one of its key as
  -- it was, all columns included, and in its place among the others, so that every other key has the
  -- slots that it had; no table but the devices changes.
  pub activate_frame :
      (h : Text)
      → normalize_request_key d s env req.key req.license_key ≡ ok h
      → (remove (row_of h req.device_token) db'.devices
          ≡ remove (row_of h req.device_token) (but_for h req.evict_device_token db.devices))
        × ((g token : Text)
            → str_eq h g ≡ false
            → (slots_of g db' ≡ slots_of g db) × (holds g token db' ≡ holds g token db))
        × ((token : Text)
            → str_eq req.device_token token ≡ false
            → str_eq req.evict_device_token token ≡ false
            → holds h token db' ≡ holds h token db)
        × (db' ≡ record db { devices = db'.devices })
  activate_frame h accepted =
      let (g, same, a, did, slots, _) = activate-Activates d s env req db done in
      let did : Activates d s env h req a db db' =
        subst (λ x. Activates d s env x req a db db') (ok-injective (sym same ∙ accepted)) did in
      (
        Occupied-but_for h req.device_token req.fingerprint_id (env.clock 0) env.stamp
            a.key.max_slots did.occupied,
        Activates-other_key d s env h req a db db' did,
        Activates-other_slot d s env h req a db db' did,
        did.only_devices,
      )
