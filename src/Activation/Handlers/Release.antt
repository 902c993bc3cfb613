-- ===== src/Activation/Handlers/Release.antt =====
-- What `Deactivate` does where nothing fails outside the program.
use license_service.Prelude.{
  ℕ, ◌≡◌, Bool, true, false, ltb, Text, List, ◌∷◌, ◌++◌, arith, Option-cases, inl, inr,
}
use license_service.Xcodes.{ok}
use license_service.Store.Models.{Db, LicenseDevice}
use license_service.Store.Rows.{
  count, remove, first, count-remove_within, count-remove_self, remove-remove,
}
use license_service.Store.Reply.{Env}
use license_service.Store.Key.{has_hash, get_key_by_key_hash, get_key_lem}
use license_service.Store.Device.{in_key, is_slot, count_devices_lem, delete_device_lem}
use license_service.Activation.Service.{Deps, Service, allow, purpose_activate}
use license_service.Activation.Handlers.{
  DeactivateRequest, normalize_request_key, advisory, deactivate_tx, deactivate,
}

abbrev pub without : Text → Text → Db → Db
without h token db = record db { devices = remove (is_slot h token) db.devices }

module _ (d : Deps) (s : Service d) (env : Env) where
  open d use {sql}

  advisory_lem :
      (up : Bool) (h : Text) (db : Db)
      → up ≡ true
      → advisory d s env (get_key_by_key_hash sql up h db) ≡ ok tt
  unfolding advisory
  advisory_lem up h db yes_up = elim (Option-cases (first (has_hash h) db.keys)) [
    | inl missing ↦ ground (arith, get_key_lem sql up h db, missing)
    | inr (k, there) ↦ ground (arith, get_key_lem sql up h db, there)
  ]

  fewer :
      (h token : Text) (ds : List LicenseDevice)
      → ltb (count (in_key h) (remove (is_slot h token) ds)) (count (in_key h) ds)
        ≡ ltb 0 (count (is_slot h token) ds)
  fewer h token ds =
      ground (arith, count-remove_within (in_key h) (is_slot h token) ds λ r mine. ground arith)

  deactivate_tx_lem :
      (h token : Text) (db : Db)
      → ((n : ℕ) → env.up n ≡ true)
      → deactivate_tx d s env h token db
        ≡ ok (ltb 0 (count (is_slot h token) db.devices), without h token db)
  unfolding deactivate_tx
  deactivate_tx_lem h token db up = ground (
    arith,
    advisory_lem (env.up 1) h db (up 1),
    count_devices_lem sql (env.up 2) h db,
    delete_device_lem sql (env.up 3) h token db,
    count_devices_lem sql (env.up 4) h (without h token db),
    up 2,
    up 3,
    up 4,
    fewer h token db.devices,
  )

  -- Where every statement is carried out and the request's key is accepted and admitted, `Deactivate`
  -- succeeds, whether the key exists, is revoked or not: it reports whether the device held a slot,
  -- removes that slot and nothing else, and a second call reports that there was none and changes
  -- nothing.
  pub deactivate_releases :
      (req : DeactivateRequest) (h : Text) (db : Db)
      → ((n : ℕ) → env.up n ≡ true)
      → normalize_request_key d s env req.key req.license_key ≡ ok h
      → allow env s.window purpose_activate (h ++ b':' ∷ req.device_token) ≡ ok tt
      → (deactivate d s env req db ≡ (
        ok (ltb 0 (count (is_slot h req.device_token) db.devices)),
        without h req.device_token db,
      ))
        × (deactivate d s env req (without h req.device_token db)
            ≡ (ok false, without h req.device_token db))
  unfolding deactivate
  deactivate_releases req h db up accepted admitted =
      let token = req.device_token in
      let gone = without h token db in
      (
        ground (arith, accepted, admitted, up 0, up 5, deactivate_tx_lem h token db up),
        ground (
          arith,
          accepted,
          admitted,
          up 0,
          up 5,
          deactivate_tx_lem h token gone up,
          count-remove_self (is_slot h token) db.devices,
          remove-remove (is_slot h token) db.devices,
        ),
      )
