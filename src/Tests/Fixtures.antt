-- ===== src/Tests/Fixtures.antt =====
-- Concrete services, databases and requests.
use license_service.Prelude.{
  ℕ, ◌+◌, true, Text, codes, str_eq, has_prefix, List, [], ◌∷◌, none, pos, eq_ℤ,
}
use license_service.Xcodes.{Result, ok, err}
use license_service.Store.Models.{Db}
use license_service.Store.Rows.{first, keep, remove, modify, count}
use license_service.Store.Sql.{append_unique}
use license_service.Store.Reply.{Env, allowed}
use license_service.Store.Device.{
  get_device, count_devices_by_key_hash, list_devices_by_key_hash, touch_device, insert_device,
  delete_device,
}
use license_service.Store.Key.{get_key_for_update, get_key_by_key_hash}
use license_service.Store.Entitlement.{list_entitlements_by_key_hash}
use license_service.Store.Trial.{
  get_trial, insert_trial_on_conflict_do_nothing, list_trials_by_fingerprint,
}
use license_service.Cert.Payload.{format_time}
use license_service.Cert.Canonical.{
  escape_byte, str_loop, str, raw, str_le, insert_sorted, sort_strings, entitlement_at,
  write_expiry, canonical_entitlement, write_entitlements, write_license_id, marshal_canonical,
}
use license_service.Cert.Signer.{lookup, sign}
use license_service.Activation.Keys.{
  is_space, to_upper, drop_spaces, trim_space, is_alnum, has_key_shape, normalize_key, hex_encode,
  key_hash, license_id, module_wire_name, module_from_wire, kind_from_int32,
}
use license_service.Activation.Slots.{
  device_to_proto, slots_summary, evict, refuse_slot, take_slot, settle, occupy_slot,
}
use license_service.Activation.Certificate.{
  insert as put, add_trials, add_entitlement, add_entitlements, assemble, certificate, sign_cert,
}
use license_service.Activation.Handlers.{
  ActivateRequest, first_key, live_key, normalize_request_key, activate_tx, activate_reply,
  activate, advisory, deactivate_tx, deactivate, refuse_entitled, trial_key_tx, first_trial, reread,
  ledger_tx, trial_tx, trial_reply, trial_start,
}
use license_service.Activation.Service.{Deps, Service, allow, retry_after_seconds}
use license_service.Tests.Libraries.{list_sql, plain_formats, toy_crypto, insert, sort}

-- To run the handlers of the activation domain: everything that they call is open.
unfoldable pub running : Unit {0}
unfolding first keep remove modify count append_unique insert sort str_eq has_prefix eq_ℤ get_device
    count_devices_by_key_hash list_devices_by_key_hash touch_device insert_device delete_device
    get_key_for_update get_key_by_key_hash list_entitlements_by_key_hash get_trial
    insert_trial_on_conflict_do_nothing list_trials_by_fingerprint format_time escape_byte str_loop
    str raw str_le insert_sorted sort_strings entitlement_at write_expiry canonical_entitlement
    write_entitlements write_license_id marshal_canonical lookup sign is_space to_upper drop_spaces
    trim_space is_alnum has_key_shape normalize_key hex_encode key_hash license_id module_wire_name
    module_from_wire kind_from_int32 device_to_proto slots_summary evict refuse_slot take_slot
    settle occupy_slot put add_trials add_entitlement add_entitlements assemble certificate
    sign_cert first_key live_key normalize_request_key activate_tx activate_reply activate advisory
    deactivate_tx deactivate refuse_entitled trial_key_tx first_trial reread ledger_tx trial_tx
    trial_reply trial_start allow retry_after_seconds
running = tt

abbrev pub deps : Deps
deps = record { sql = list_sql; crypto = toy_crypto; formats = plain_formats; sum256 = λ s. s }

abbrev pub service : Service deps
service = record {
  signer = record { keys = (codes "k1", codes "seed") ∷ []; active = codes "k1" };
  trial_days = pos 14;
  window = 60_000_000_000;
}

-- Every statement is carried out, and every request is admitted.
abbrev pub fair : Env
fair = record {
  up = λ _. true;
  clock = λ n. 1000 + n;
  stamp = 999;
  limit = λ _ _. allowed;
  uuid = codes "u";
}

abbrev pub typed_key : List ℕ
typed_key = codes " av1d-00000-11111-22222-3333z "

abbrev pub normal_key : Text
normal_key = codes "AV1D0000011111222223333Z"

abbrev pub value {ℓ} : {A : Type ℓ} → A → Result A → A
value default (ok a) = a
value default (err e) = default

abbrev pub hash : Text
hash = key_hash (λ s. s) normal_key

-- A live key with one slot, which the device "d1" holds, and one trial.
abbrev pub one_slot : Db
one_slot = record {
  keys =
      record {
        key_hash = hash;
        license_id = codes "lk_1";
        key_prefix = codes "AV1D0000";
        label = [];
        max_slots = pos 1;
        status = pos 1;
        revoked_at = none;
        created_at = 1;
      }
      ∷ [];
  entitlements =
      record {
        key_hash = hash;
        module_id = pos 1;
        kind = pos 1;
        expires_at = none;
        granted_at = 1;
        created_at = 1;
      }
      ∷ [];
  devices =
      record {
        key_hash = hash;
        device_token = codes "d1";
        fingerprint_id = codes "f1";
        last_seen_at = 5;
        last_fingerprint_at = none;
        created_at = 5;
      }
      ∷ [];
  trials =
      record {
        fingerprint_id = codes "f2";
        module_id = pos 2;
        started_at = 7;
        first_device_token = codes "d2";
        created_at = 7;
      }
      ∷ [];
  apps = [];
}

-- The device "d2" evicts "d1".
abbrev pub swap_request : ActivateRequest
swap_request = record {
  key = typed_key;
  license_key = [];
  fingerprint_id = codes "f2";
  device_token = codes "d2";
  evict_device_token = codes "d1";
}

-- Twenty random bytes.
abbrev pub noise : List ℕ
noise =
    0 ∷ 1 ∷ 31 ∷ 32 ∷ 255 ∷ 7 ∷ 9 ∷ 100 ∷ 101 ∷ 102 ∷ 0 ∷ 1 ∷ 31 ∷ 32 ∷ 255 ∷ 7 ∷ 9 ∷ 100 ∷ 101
    ∷ 102 ∷ []
