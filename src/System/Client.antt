-- ===== src/System/Client.antt =====
-- Activate and Deactivate, and the well-formedness of the database.
use license_service.Prelude.{
  ◌≡◌, refl, sym, ◌∙◌, ap, subst, Bool, Text, ◌∷◌, ◌++◌, arith, ℤ, pos_part, true, ◌≤◌, str_eq,
  str_eq_iff, inl, inr, Bool-cases,
}
use license_service.Xcodes.{Result, ok, err, bind-cases, ok-injective}
use license_service.Store.Models.{Db, Time}
use license_service.Admin.Keys.{slots_in_range}
use license_service.Store.Rows.{count, remove, count-first-some}
use license_service.Store.Atomic.{transaction-keeps, guard-keeps}
use license_service.Store.Reply.{Env, internal}
use license_service.Store.Key.{has_hash, get_key_by_key_hash}
use license_service.Store.Device.{
  count_devices_by_key_hash, delete_device, delete_device_lem, is_slot, in_key,
}
use license_service.Activation.Service.{Deps, Service, allow, purpose_activate}
use license_service.Activation.Slots.Effect.{Occupied, evicted}
use license_service.Activation.Slots.Counts.{
  Occupied-other_key, Occupied-IsDistinct, evicted-IsDistinct, evicted-other_key, evicted-le,
  Occupied-bound,
}
use license_service.Activation.Handlers.{
  ActivateRequest, Activated, DeactivateRequest, normalize_request_key, activate_tx, activate_reply,
  activate, advisory, deactivate_tx, deactivate,
}
use license_service.Activation.Handlers.Inversion.{Activates, activate_tx-Activates}
use license_service.System.Ownership.{
  WellFormed, HasOwner, devices-WellFormed, removed_devices-WellFormed, owner-apart, read_key_sound,
}

in_range-le : (slots : ℤ) → slots_in_range slots ≡ true → pos_part slots ≤ 100
unfolding slots_in_range
in_range-le slots h = ground (arith, h)

evicted-few :
    (h t : Text) (db : Db)
    → WellFormed db
    → (g : Text) → count (in_key g) (evicted h t db.devices) ≤ 100
evicted-few h t db good g = omega (arith, evicted-le h t db.devices (in_key g), good.few g)

-- A slot is taken for a key that there is.
pub Occupied-WellFormed :
    (h token fp evict_token : Text) (now stamp : Time) (max_slots : ℤ) (db db' : Db)
    → WellFormed db
    → HasOwner h db
    → slots_in_range max_slots ≡ true
    → Occupied h token fp now stamp max_slots (evicted h evict_token db.devices) db'.devices
    → db' ≡ record db { devices = db'.devices }
    → WellFormed db'
Occupied-WellFormed h token fp evict_token now stamp max_slots db db' good owner fits occupied
      only =
    let before = evicted-few h evict_token db good in
    let distinct =
      Occupied-IsDistinct h token fp now stamp max_slots occupied
        (evicted-IsDistinct h evict_token db.devices good.distinct) in
    subst WellFormed (sym only) (
      devices-WellFormed db good db'.devices distinct
        (λ g lost.
          let apart = owner-apart h g db owner lost in
          omega (
            arith,
            (Occupied-other_key h token fp now stamp max_slots g token occupied apart).0,
            (evicted-other_key h evict_token db.devices g token apart).0,
          ))
        λ g. elim (Bool-cases (str_eq h g)) [
          | inr apart ↦ omega (
            arith,
            (Occupied-other_key h token fp now stamp max_slots g token occupied apart).0,
            before g,
          )
          | inl same ↦ rw (← (str_eq_iff h g).0 same) (
              omega (
                arith,
                Occupied-bound h token fp now stamp max_slots occupied,
                before h,
                in_range-le max_slots fits,
              ))
        ])

module _ (d : Deps) (s : Service d) (env : Env) where
  open d use {sql}

  activate_tx-WellFormed :
      (h : Text) (req : ActivateRequest) (db : Db) (a : Activated) (db' : Db)
      → WellFormed db
      → activate_tx d s env h req db ≡ ok (a, db')
      → WellFormed db'
  activate_tx-WellFormed h req db a db' good e =
      let did : Activates d s env h req a db db' = activate_tx-Activates d s env h req db e in
      Occupied-WellFormed h req.device_token req.fingerprint_id req.evict_device_token (env.clock 0)
        env.stamp a.key.max_slots db db' good (count-first-some (has_hash h) db.keys did.key_row)
        (read_key_sound db good (has_hash h) did.key_row) did.occupied did.only_devices

  pub activate_reply-after :
      (h : Text) (req : ActivateRequest) (r : Result Activated × Db)
      → (activate_reply d s env h req r).1 ≡ r.1
  unfolding activate_reply
  activate_reply-after h req (err e, db) = refl
  activate_reply-after h req (ok a, db) = refl

  pub activate-WellFormed :
      (req : ActivateRequest) (db : Db) → WellFormed db → WellFormed (activate d s env req db).1
  unfolding activate
  activate-WellFormed req db good =
      guard-keeps WellFormed (normalize_request_key d s env req.key req.license_key) _ db good λ h.
        guard-keeps WellFormed (allow env s.window purpose_activate (h ++ b':' ∷ req.device_token))
          _ db good
          λ _. subst WellFormed (sym (activate_reply-after h req _)) (
            transaction-keeps WellFormed (env.up 0) (env.up 9) (activate_tx d s env h req) db good
              λ a db' e. activate_tx-WellFormed h req db a db' good e)

  -- All that a release does.
  pub deactivate_tx_only :
      (h token : Text) (db : Db) {released : Bool} {db' : Db}
      → deactivate_tx d s env h token db ≡ ok (released, db')
      → db' ≡ record db { devices = remove (is_slot h token) db.devices }
  unfolding deactivate_tx
  deactivate_tx_only h token db {released} {db'} e =
      bind-cases (advisory d s env (get_key_by_key_hash sql (env.up 1) h db)) _ e λ _ _ e₁.
        bind-cases (internal (count_devices_by_key_hash sql (env.up 2) h db)) _ e₁ λ before _ e₂.
          bind-cases (internal (delete_device sql (env.up 3) h token db)) _ e₂ λ db₁ deleted e₃.
            bind-cases (internal (count_devices_by_key_hash sql (env.up 4) h db₁)) _ e₃
              λ after _ e₄.
                let removed : db₁ ≡ record db { devices = remove (is_slot h token) db.devices } =
                  ground (arith, deleted, delete_device_lem sql (env.up 3) h token db) in
                sym (ap (λ r. r.1) (ok-injective e₄)) ∙ removed

  pub deactivate-WellFormed :
      (req : DeactivateRequest) (db : Db) → WellFormed db → WellFormed (deactivate d s env req db).1
  unfolding deactivate
  deactivate-WellFormed req db good =
      guard-keeps WellFormed (normalize_request_key d s env req.key req.license_key) _ db good λ h.
        guard-keeps WellFormed (allow env s.window purpose_activate (h ++ b':' ∷ req.device_token))
          _ db good
          λ _.
            transaction-keeps WellFormed (env.up 0) (env.up 5)
              (deactivate_tx d s env h req.device_token) db good
              λ released db' e.
                subst WellFormed (sym (deactivate_tx_only h req.device_token db e))
                  (removed_devices-WellFormed db good (is_slot h req.device_token))
