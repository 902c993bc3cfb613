-- ===== src/Tests/Races.antt =====
-- Calls of the activation domain that other transactions interrupt.
use license_service.Prelude.{
  ℕ, ◌≤◌, ◌==◌, ◌≡◌, refl, Bool, true, codes, List, [], ◌∷◌, none, some, arith, pos, pos_part,
  if◌then◌else◌, inl, inr, Bool-cases, Option-cases,
}
use license_service.Xcodes.{Result, ok}
use license_service.Store.Models.{Db, LicenseTrial}
use license_service.Store.Rows.{first, count, count-append, count-first-none}
use license_service.Store.Sql.{append_unique}
use license_service.Store.Key.{has_hash}
use license_service.Store.Device.{is_slot}
use license_service.Store.Trial.{is_trial, or_unchanged}
use license_service.Activation.Handlers.{ActivateRequest, Activated, TrialStartRequest}
use license_service.Activation.Concurrent.{
  evict_among, take_among, settle_among, activate_among, ledger_among,
}
use license_service.Activation.Concurrent.Bound.{Within, activate_among-Within}
use license_service.Activation.Concurrent.Collapse.{
  Indexed, OnlyStarts, Collapses, ledger_among-one,
}
use license_service.Activation.Handlers.Ledger.{started_now}
use license_service.System.Releases.{Release, deactivates, releases, releases-Held}
use license_service.Tests.Fixtures.{
  running, deps, service, fair, typed_key, value, hash, one_slot, swap_request,
}

-- The device "d1" gives its slot back between the lock and the lookup of "d2", which evicts nobody.
abbrev schedule : ℕ → List (Release deps service)
schedule n =
    if n == 3
    then deactivates fair (record { key = typed_key; license_key = []; device_token = codes "d1" })
      ∷ []
    else []

abbrev latecomer : ActivateRequest
latecomer = record swap_request { evict_device_token = [] }

abbrev raced : Result (Activated × Db)
raced =
    activate_among deps service fair (λ n. releases deps service (schedule n)) hash latecomer
      one_slot

abbrev nothing : Activated × Db
nothing = (
  record {
    key = record {
      key_hash = [];
      license_id = [];
      key_prefix = [];
      label = [];
      max_slots = pos 0;
      status = pos 0;
      revoked_at = none;
      created_at = 0;
    };
    devices = [];
    ents = [];
    trials = [];
  },
  one_slot,
)

race_succeeds : raced ≡ ok ((value nothing raced).0, (value nothing raced).1)
unfolding running activate_among evict_among settle_among take_among releases
race_succeeds = refl

activate_among-Within_example :
    (first (has_hash hash) one_slot.keys ≡ some (value nothing raced).0.key)
    × Within hash (pos_part (value nothing raced).0.key.max_slots) one_slot (value nothing raced).1
unfolding releases
activate_among-Within_example =
    activate_among-Within deps service fair (λ n. releases deps service (schedule n)) hash
      (releases-Held deps service hash schedule) latecomer one_slot race_succeeds

-- Another device starts the same trial just before the insert.
abbrev start_tools : TrialStartRequest
start_tools = record {
  module_name = codes "tools";
  license_key = [];
  fingerprint_id = codes "f3";
  device_token = codes "d3";
}

abbrev rival_row : LicenseTrial
rival_row = record {
  fingerprint_id = codes "f3";
  module_id = pos 2;
  started_at = 7;
  first_device_token = codes "d4";
  created_at = 7;
}

abbrev rival : ℕ → Db → Db
rival n db =
    if n == 8
    then record db {
      trials =
          or_unchanged db.trials
            (append_unique (is_trial (codes "f3") (pos 2)) rival_row db.trials);
    }
    else db

unique_rival :
    (rows : List LicenseTrial)
    → count (is_trial (codes "f3") (pos 2)) rows ≤ 1
    → count
        (is_trial (codes "f3") (pos 2))
        (or_unchanged rows (append_unique (is_trial (codes "f3") (pos 2)) rival_row rows))
      ≤ 1
unfolding append_unique count
unique_rival rows single = elim (Option-cases (first (is_trial (codes "f3") (pos 2)) rows)) [
  | inl missing ↦ ground (
    arith,
    missing,
    count-first-none (is_trial (codes "f3") (pos 2)) rows missing,
    count-append (is_trial (codes "f3") (pos 2)) rows (rival_row ∷ []),
  )
  | inr (t, there) ↦ ground (arith, there)
]

rival-Indexed : Indexed (codes "f3") (pos 2) rival
rival-Indexed n db single = elim (Bool-cases (n == 8)) [
  | inl at_insert ↦ rw at_insert (unique_rival db.trials single)
  | inr before ↦ rw before single
]

rival-OnlyStarts : OnlyStarts (codes "f3") (pos 2) rival
unfolding append_unique
rival-OnlyStarts n db t there = elim (Bool-cases (n == 8)) [
  | inl at_insert ↦ rw at_insert (ground (arith, there))
  | inr before ↦ rw before there
]

abbrev outcome : Result (LicenseTrial × Bool × Db)
outcome = ledger_among deps service fair rival (pos 2) start_tools one_slot

abbrev told : LicenseTrial × Bool × Db
told = value (rival_row, true, one_slot) outcome

start_succeeds : outcome ≡ ok (told.0, told.1, told.2)
unfolding running ledger_among
start_succeeds = refl

no_row : count (is_trial (codes "f3") (pos 2)) one_slot.trials ≤ 1
unfolding running
no_row = omega arith

ledger_among-one_example :
    Collapses
      (codes "f3")
      (pos 2)
      (started_now fair (codes "f3") (codes "d3") (pos 2))
      rival
      one_slot
      told.2
      told.0
      told.1
    × (first (is_trial (codes "f3") (pos 2)) told.2.trials ≡ some told.0)
    × (count (is_trial (codes "f3") (pos 2)) told.2.trials ≡ 1)
ledger_among-one_example =
    ledger_among-one deps service fair rival (pos 2) start_tools one_slot no_row rival-Indexed
      rival-OnlyStarts start_succeeds

-- The loser of the race answers with the winner's row.
rival_wins : told.0 ≡ rival_row
unfolding running ledger_among
rival_wins = refl

-- The device "d1" activates once more, and gives its slot back between the lookup and the update.
abbrev late_schedule : ℕ → List (Release deps service)
late_schedule n =
    if n == 4
    then deactivates fair (record { key = typed_key; license_key = []; device_token = codes "d1" })
      ∷ []
    else []

abbrev holder : ActivateRequest
holder = record latecomer { device_token = codes "d1"; fingerprint_id = codes "f1" }

-- The update finds no row: the call goes on, though the device holds no slot.
no_slot_left :
    count
      (is_slot hash (codes "d1"))
      (value nothing (
        activate_among deps service fair
          (λ n. releases deps service (late_schedule n))
          hash
          holder
          one_slot)).1.devices
    ≡ 0
unfolding running activate_among evict_among settle_among take_among releases
no_slot_left = refl

no_slot_succeeds :
    activate_among deps service fair
      (λ n. releases deps service (late_schedule n))
      hash
      holder
      one_slot
    ≡ ok (
        value nothing (
          activate_among deps service fair
            (λ n. releases deps service (late_schedule n))
            hash
            holder
            one_slot))
unfolding running activate_among evict_among settle_among take_among releases
no_slot_succeeds = refl
