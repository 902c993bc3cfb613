-- ===== src/Tests/Activation.antt =====
-- The activation domain at concrete inputs.
use license_service.Prelude.{
  ◌≤◌, ◌≡◌, refl, false, some, eq_ℤ, Text, codes, [], arith, max, pos_part, pos, str_eq,
}
use license_service.Xcodes.{Result, ok}
use license_service.Store.Models.{Db}
use license_service.Activation.Handlers.{
  ActivateRequest, DeactivateRequest, deactivate, activate, ActivateResponse, normalize_request_key,
}
use license_service.Activation.Handlers.Roster.{
  row_of, but_for, activate_bound, activate_frame, slots_of, holds,
}
use license_service.Activation.Slots.Counts.{IsDistinct}
use license_service.Store.Rows.{count}
use license_service.Admin.Scope.{Caller}
use license_service.Admin.Devices.{kick_device}
use license_service.System.Roster.Refines.{Stepped, slots-refine}
use license_service.Store.Models.{LicenseKey}
use license_service.Store.Rows.{first, remove}
use license_service.Store.Key.{has_hash}
use license_service.Activation.Certificate.Described.{grants_of, trials_of}
use license_service.Activation.Handlers.{status_revoked}
use license_service.Activation.Handlers.Certified.{Certified, activate-Certifies}
use license_service.Tests.Fixtures.{
  running, deps, service, fair, typed_key, value, hash, one_slot, swap_request,
}

abbrev no_reply : ActivateResponse
no_reply = record {
  payload = [];
  signature = [];
  slots = record { used = 0; max_slots = pos 0; devices = [] };
}

abbrev swapped : Result ActivateResponse × Db
swapped = activate deps service fair swap_request one_slot

swap_succeeds : swapped ≡ (ok (value no_reply swapped.0), swapped.1)
unfolding running
swap_succeeds = refl

one_slot-IsDistinct : IsDistinct one_slot.devices
unfolding count
one_slot-IsDistinct h t = ground arith

activate_bound_example :
    (h : Text) × (k : LicenseKey) × (normalize_request_key deps service fair typed_key [] ≡ ok h)
    × (first (λ r. str_eq r.key_hash h) one_slot.keys ≡ some k)
    × (holds h (codes "d2") swapped.1 ≡ 1)
    × (slots_of h swapped.1 ≤ max (slots_of h one_slot) (pos_part k.max_slots))
    × ((value no_reply swapped.0).slots.max_slots ≡ k.max_slots)
    × ((value no_reply swapped.0).slots.used ≡ slots_of h swapped.1)
    × IsDistinct swapped.1.devices
activate_bound_example =
    activate_bound deps service fair swap_request one_slot (value no_reply swapped.0) swapped.1
      swap_succeeds one_slot-IsDistinct

swap_key : normalize_request_key deps service fair typed_key [] ≡ ok hash
unfolding running
swap_key = refl

activate_frame_example :
    (remove (row_of hash (codes "d2")) swapped.1.devices
      ≡ remove (row_of hash (codes "d2")) (but_for hash (codes "d1") one_slot.devices))
    × ((g token : Text)
        → str_eq hash g ≡ false
        → (slots_of g swapped.1 ≡ slots_of g one_slot)
          × (holds g token swapped.1 ≡ holds g token one_slot))
    × ((token : Text)
        → str_eq (codes "d2") token ≡ false
        → str_eq (codes "d1") token ≡ false
        → holds hash token swapped.1 ≡ holds hash token one_slot)
    × (swapped.1 ≡ record one_slot { devices = swapped.1.devices })
activate_frame_example =
    activate_frame deps service fair swap_request one_slot (value no_reply swapped.0) swapped.1
      swap_succeeds hash swap_key

slots-refine_example :
    ((req : ActivateRequest) → Stepped hash one_slot (activate deps service fair req one_slot).1)
    × ((req : DeactivateRequest)
        → Stepped hash one_slot (deactivate deps service fair req one_slot).1)
    × ((c : Caller) (id token : Text)
        → Stepped hash one_slot (kick_device deps fair c id token one_slot).1)
slots-refine_example = slots-refine deps service fair hash one_slot one_slot-IsDistinct

activate-Certifies_example :
    (h : Text) × (k : LicenseKey) × (normalize_request_key deps service fair typed_key [] ≡ ok h)
    × (first (has_hash h) one_slot.keys ≡ some k)
    × (eq_ℤ k.status status_revoked ≡ false)
    × Certified deps service fair
        (some h)
        (codes "d2")
        swap_request.fingerprint_id
        (grants_of deps.sql h swapped.1)
        (trials_of deps.sql swap_request.fingerprint_id swapped.1)
        (value no_reply swapped.0).payload
        (value no_reply swapped.0).signature
unfolding count
activate-Certifies_example =
    activate-Certifies deps service fair swap_request one_slot (omega arith) refl refl swap_succeeds
