-- ===== src/Tests/Revocations.antt =====
-- A key that is revoked, at concrete inputs.
use license_service.Prelude.{◌≡◌, refl, Text, codes, [], none, some, arith, eq_ℤ, pos}
use license_service.Xcodes.{Result, ok, err, plain, key_revoked}
use license_service.Store.Models.{Db, LicenseKey}
use license_service.Store.Rows.{first, count}
use license_service.Store.Key.{has_hash, get_key_by_id_or_hash, set_key_status}
use license_service.Activation.Handlers.{
  TrialStartRequest, normalize_request_key, activate, trial_start,
}
use license_service.Admin.Scope.{
  Caller, platform, require_platform_scope, scope_from_ctx, actor_scope,
}
use license_service.Admin.View.{
  KeyInfo, resolve_key, fresh_view, named_key, require_row, key_to_proto, entitlement_info,
}
use license_service.Admin.Keys.{
  as_operator, slots_in_range, set_status_tx, revoke_key, unrevoke_key,
}
use license_service.System.Reachable.{Call, deactivating, after}
use license_service.System.Ownership.{WellFormed}
use license_service.System.Operator.{names}
use license_service.System.Standing.Lasts.{Unlifted, stays, called, lifts, revoke_key-refusal}
use license_service.System.Standing.Restores.{unrevoke_key-revoke_key}
use license_service.Tests.Fixtures.{
  running, deps, service, fair, typed_key, value, hash, one_slot, swap_request,
}

-- To run the operators' calls on a key.
unfoldable operating : Unit {0}
unfolding running get_key_by_id_or_hash set_key_status require_platform_scope scope_from_ctx
    actor_scope resolve_key fresh_view named_key require_row key_to_proto entitlement_info
    as_operator set_status_tx revoke_key unrevoke_key
operating = tt

abbrev operator : Caller
operator = record { tenant = none; actor = some platform }

abbrev no_info : KeyInfo
no_info = record {
  license_id = [];
  key_prefix = [];
  label = [];
  max_slots = pos 0;
  status = pos 0;
  created_at = 0;
  revoked_at = none;
  entitlements = [];
  used_slots = 0;
  devices = [];
}

abbrev the_key : LicenseKey
the_key = record {
  key_hash = hash;
  license_id = codes "lk_1";
  key_prefix = codes "AV1D0000";
  label = [];
  max_slots = pos 1;
  status = pos 1;
  revoked_at = none;
  created_at = 1;
}

abbrev revocation : Result KeyInfo × Db
revocation = revoke_key deps fair operator (codes "lk_1") one_slot

revocation_succeeds : revocation ≡ (ok (value no_info revocation.0), revocation.1)
unfolding operating
revocation_succeeds = refl

-- The device gives its slot back.
abbrev release : Call
release =
    deactivating fair (record { key = typed_key; license_key = []; device_token = codes "d1" })

abbrev later : Db
later = after deps service release revocation.1

released : Unlifted deps service hash revocation.1 later
unfolding lifts
released = called release revocation.1 refl stays

abbrev trial : TrialStartRequest
trial = record {
  module_name = codes "tools";
  license_key = typed_key;
  fingerprint_id = codes "f3";
  device_token = codes "d3";
}

named : first (has_hash hash) one_slot.keys ≡ some the_key
unfolding running
named = refl

named_by_id : first (names (codes "lk_1")) one_slot.keys ≡ some the_key
unfolding running
named_by_id = refl

typed : normalize_request_key deps service fair typed_key [] ≡ ok hash
unfolding running
typed = refl

revoke_key-refusal_example :
    (activate deps service fair swap_request later ≡ (err (plain key_revoked), later))
    × (trial_start deps service fair trial later ≡ (err (plain key_revoked), later))
unfolding running
revoke_key-refusal_example =
    revoke_key-refusal deps service fair fair operator (codes "lk_1") one_slot revocation.1 later
      (value no_info revocation.0) the_key swap_request trial named_by_id revocation_succeeds
      released typed typed

abbrev restoration : Result KeyInfo × Db
restoration = unrevoke_key deps fair operator (codes "lk_1") revocation.1

restoration_succeeds : restoration ≡ (ok (value no_info restoration.0), restoration.1)
unfolding operating
restoration_succeeds = refl

one_slot-WellFormed : WellFormed one_slot
unfolding count eq_ℤ slots_in_range
one_slot-WellFormed = record {
  distinct = λ h t. ground arith;
  sound = refl;
  few = λ h. ground arith;
  owned = λ h lost. (ground (arith, lost), ground (arith, lost));
}

unrevoke_key-revoke_key_example :
    ((h : Text) → first (has_hash h) restoration.1.keys ≡ first (has_hash h) one_slot.keys)
    × (restoration.1 ≡ record one_slot { keys = restoration.1.keys })
unrevoke_key-revoke_key_example =
    unrevoke_key-revoke_key deps fair fair operator operator (codes "lk_1") one_slot revocation.1
      restoration.1 (value no_info revocation.0) (value no_info restoration.0) the_key the_key
      one_slot-WellFormed named_by_id named refl revocation_succeeds restoration_succeeds
