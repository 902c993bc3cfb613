-- ===== src/System/Deletion.antt =====
-- DeleteKey and the well-formedness of the database.
use license_service.Prelude.{
  ◌≡◌, refl, sym, ◌∙◌, ap, subst, Bool, true, false, Text, Option, none, some, arith, inl, inr,
  str_eq_iff, str_eq, Bool-cases,
}
use license_service.Xcodes.{ok, bind-cases, ok-injective}
use license_service.Store.Models.{Db, LicenseKey}
use license_service.Store.Rows.{
  first, remove, count, count-remove_le, count-remove_apart, count-remove_self,
}
use license_service.Store.Atomic.{transaction-keeps}
use license_service.Store.Reply.{Env, internal}
use license_service.Store.Key.{
  Created, Created-cases, created, unique_violation, has_hash, has_license_id, create_key-created,
  get_key_by_id_or_hash, get_key_by_id_or_hash_lem, update_key_label, update_key_label_lem,
  update_key_slots, update_key_slots_lem, set_key_status, set_key_status_lem, delete_key_lem,
}
use license_service.Store.Key
use license_service.Store.Device.{in_key, is_slot, delete_devices_by_key_hash, delete_devices_lem}
use license_service.Store.Entitlement.{
  of_key, delete_entitlements_by_key_hash, delete_entitlements_lem,
}
use license_service.Activation.Service.{Deps}
use license_service.Admin.Scope.{Caller}
use license_service.Admin.View.{resolve_key}
use license_service.Admin.Keys.{delete_key_tx, delete_key}
use license_service.System.Ownership.{is_unsound, WellFormed}
use license_service.System.Operator.{as_operator-WellFormed, names, resolve_key-first}

pub other_hash :
    (h g : Text)
    → str_eq h g ≡ false
    → (k : LicenseKey) → has_hash h k ≡ true
    → has_hash g k ≡ false
other_hash h g apart k mine = ground (arith, str_eq_iff k.key_hash h)

module _ (d : Deps) (env : Env) where
  open d use {sql}

  -- The rows of the key go with it.
  deleted-WellFormed :
      (h : Text) (db : Db)
      → WellFormed db
      → WellFormed (record db {
        keys = remove (has_hash h) db.keys;
        devices = remove (in_key h) db.devices;
        entitlements = remove (of_key h) db.entitlements;
      })
  deleted-WellFormed h db good = record {
    distinct = λ g t.
        omega (arith, count-remove_le (is_slot g t) (in_key h) db.devices, good.distinct g t);
    sound = omega (arith, count-remove_le is_unsound (has_hash h) db.keys, good.sound);
    few = λ g. omega (arith, count-remove_le (in_key g) (in_key h) db.devices, good.few g);
    owned = λ g lost. elim (Bool-cases (str_eq h g)) [
      | inl same ↦
          subst
            (λ x.
              (count (in_key x) (remove (in_key h) db.devices) ≡ 0)
              × (count (of_key x) (remove (of_key h) db.entitlements) ≡ 0))
            ((str_eq_iff h g).0 same)
            (count-remove_self (in_key h) db.devices, count-remove_self (of_key h) db.entitlements)
      | inr apart ↦
          let others =
            count-remove_apart (has_hash g) (has_hash h) db.keys (other_hash h g apart) in
          let gone = good.owned g (omega (arith, lost, others)) in
          (
            omega (arith, count-remove_le (in_key g) (in_key h) db.devices, gone.0),
            omega (arith, count-remove_le (of_key g) (of_key h) db.entitlements, gone.1),
          )
    ];
  }

  -- All that a deletion that goes through has found and removed.
  pub delete_key_tx_only :
      (id : Text) (db : Db) {name : Text} {db' : Db}
      → delete_key_tx d env id db ≡ ok (name, db')
      → (k : LicenseKey) × (first (names id) db.keys ≡ some k)
        × (db' ≡ record db {
          keys = remove (has_hash k.key_hash) db.keys;
          devices = remove (in_key k.key_hash) db.devices;
          entitlements = remove (of_key k.key_hash) db.entitlements;
        })
  unfolding delete_key_tx
  delete_key_tx_only id db e = bind-cases (resolve_key sql (env.up 1) id db) _ e λ k named e₁.
      let h = k.key_hash in
      bind-cases (internal (delete_entitlements_by_key_hash sql (env.up 2) h db)) _ e₁
        λ db₁ first_step e₂.
          bind-cases (internal (delete_devices_by_key_hash sql (env.up 3) h db₁)) _ e₂
            λ db₂ second_step e₃.
              bind-cases (internal (Key.delete_key sql (env.up 4) h db₂)) _ e₃ λ db₃ third_step e₄.
                let one : db₁ ≡ record db { entitlements = remove (of_key h) db.entitlements } =
                  ground (arith, first_step, delete_entitlements_lem sql (env.up 2) h db) in
                let two : db₂ ≡ record db₁ { devices = remove (in_key h) db₁.devices } =
                  ground (arith, second_step, delete_devices_lem sql (env.up 3) h db₁) in
                let three : db₃ ≡ record db₂ { keys = remove (has_hash h) db₂.keys } =
                  ground (arith, third_step, delete_key_lem sql (env.up 4) h db₂) in
                (
                  k,
                  resolve_key-first d env (env.up 1) id db named,
                  sym (ap (λ r. r.1) (ok-injective e₄)) ∙ rw (three, two, one) refl,
                )

  pub delete_key-WellFormed :
      (c : Caller) (id : Text) (confirm : Option Bool) (db : Db)
      → WellFormed db
      → WellFormed (delete_key d env c id confirm db).1
  unfolding delete_key
  delete_key-WellFormed c id (some true) db good = as_operator-WellFormed c _ db good (
      transaction-keeps WellFormed (env.up 0) (env.up 9) (delete_key_tx d env id) db good
        λ name db' e.
          let (k, _, only) = delete_key_tx_only id db e in
          subst WellFormed (sym only) (deleted-WellFormed k.key_hash db good))
  delete_key-WellFormed c id (some false) db good = as_operator-WellFormed c _ db good good
  delete_key-WellFormed c id none db good = as_operator-WellFormed c _ db good good
