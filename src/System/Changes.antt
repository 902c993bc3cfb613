-- ===== src/System/Changes.antt =====
-- UpdateKey, RevokeKey and UnrevokeKey, and the well-formedness of the database.
use license_service.Prelude.{
  eq_ℤ, ◌≡◌, refl, ◌∙◌, sym, ap, subst, Bool, true, false, Text, Option, none, some, arith, ℤ,
  if◌then◌else◌,
}
use license_service.Xcodes.{ok, err, bind-cases, ok-injective, plain, Code}
use license_service.Store.Models.{Db, LicenseKey, Time}
use license_service.Store.Rows.{first, modify}
use license_service.Store.Atomic.{transaction-keeps, internal-ok}
use license_service.Store.Reply.{Env, transaction, internal}
use license_service.Store.Key.{
  has_hash, update_key_label, update_key_label_lem, update_key_slots, update_key_slots_lem,
  set_key_status, set_key_status_lem,
}
use license_service.Activation.Service.{Deps}
use license_service.Admin.Scope.{Caller}
use license_service.Admin.View.{KeyInfo, resolve_key, fresh_view}
use license_service.Admin.Keys.{
  slots_in_range, UpdateKeyRequest, set_label, set_slots, update_key_tx, is_update, update_key,
  set_status_tx, revoke_key, unrevoke_key, key_status_active, key_status_revoked,
}
use license_service.System.Ownership.{is_consistent, WellFormed, modified_keys-WellFormed}
use license_service.System.Operator.{as_operator-WellFormed, names, resolve_key-first}

abbrev pub set_status : ℤ → Option Time → LicenseKey → LicenseKey
set_status status at k = record k { status = status; revoked_at = at }

abbrev all_in_range : Option ℤ → Bool
all_in_range none = true
all_in_range (some slots) = slots_in_range slots

active : is_consistent key_status_active none ≡ true
unfolding eq_ℤ
active = refl

revoked : (t : Time) → is_consistent key_status_revoked (some t) ≡ true
unfolding eq_ℤ
revoked t = refl

module _ (d : Deps) (env : Env) where
  open d use {sql}

  set_label-WellFormed :
      (h : Text) (label : Option Text) (db : Db) {db' : Db}
      → WellFormed db
      → set_label d env h label db ≡ ok db'
      → WellFormed db'
  unfolding set_label
  set_label-WellFormed h none db good e = subst WellFormed (ok-injective e) good
  set_label-WellFormed h (some label) db {db'} good e =
      let done = internal-ok (update_key_label sql (env.up 2) h label db) e in
      let written = update_key_label_lem sql (env.up 2) h label db in
      subst WellFormed (ground (arith, done, written)) (
        modified_keys-WellFormed db good (has_hash h) (λ k. record k { label = label }) (λ _. refl)
          λ _ h. h)

  set_slots-WellFormed :
      (h : Text) (slots : Option ℤ) (db : Db) {db' : Db}
      → all_in_range slots ≡ true
      → WellFormed db
      → set_slots d env h slots db ≡ ok db'
      → WellFormed db'
  unfolding set_slots
  set_slots-WellFormed h none db fits good e = subst WellFormed (ok-injective e) good
  set_slots-WellFormed h (some slots) db {db'} fits good e =
      let done = internal-ok (update_key_slots sql (env.up 3) h slots db) e in
      let written = update_key_slots_lem sql (env.up 3) h slots db in
      subst WellFormed (ground (arith, done, written)) (
        modified_keys-WellFormed db good (has_hash h) (λ k. record k { max_slots = slots })
          (λ _. refl) λ k broken. ground (arith, fits, broken))

  update-in_range :
      (label : Option Text) (slots : Option ℤ)
      → is_update d env label slots ≡ true
      → all_in_range slots ≡ true
  unfolding is_update
  update-in_range label none h = refl
  update-in_range none (some slots) h = h
  update-in_range (some label) (some slots) h = h

  update_key_tx-WellFormed :
      (req : UpdateKeyRequest) (db : Db) {info : KeyInfo} {db' : Db}
      → all_in_range req.slots ≡ true
      → WellFormed db
      → update_key_tx d env req db ≡ ok (info, db')
      → WellFormed db'
  unfolding update_key_tx
  update_key_tx-WellFormed req db fits good e =
      bind-cases (resolve_key sql (env.up 1) req.key_id db) _ e λ k _ e₁.
        bind-cases (set_label d env k.key_hash req.label db) _ e₁ λ db₁ labelled e₂.
          bind-cases (set_slots d env k.key_hash req.slots db₁) _ e₂ λ db₂ resized e₃.
            bind-cases (fresh_view sql (env.up 4) (env.up 5) (env.up 6) k.key_hash db₂) _ e₃
              λ info _ e₄. subst WellFormed (ap (λ r. r.1) (ok-injective e₄)) (
                set_slots-WellFormed k.key_hash req.slots db₁ fits
                  (set_label-WellFormed k.key_hash req.label db good labelled) resized)

  updated_or_refused :
      (req : UpdateKeyRequest) (accepted : Bool) (db : Db)
      → is_update d env req.label req.slots ≡ accepted
      → WellFormed db
      → WellFormed
          (if accepted
            then transaction (env.up 0) (env.up 9) (update_key_tx d env req) db
            else (err (plain Code.bad_request), db)).1
  updated_or_refused req false db e good = good
  updated_or_refused req true db fits good =
      transaction-keeps WellFormed (env.up 0) (env.up 9) (update_key_tx d env req) db good
        λ info db' e.
          update_key_tx-WellFormed req db (update-in_range req.label req.slots fits) good e

  pub update_key-WellFormed :
      (c : Caller) (req : UpdateKeyRequest) (db : Db)
      → WellFormed db
      → WellFormed (update_key d env c req db).1
  unfolding update_key
  update_key-WellFormed c req db good =
      as_operator-WellFormed c _ db good
        (updated_or_refused req (is_update d env req.label req.slots) db refl good)

  -- What a change of status that goes through has found and written.
  pub set_status_tx_writes :
      (id : Text) (status : ℤ) (at : Option Time) (db : Db) {info : KeyInfo} {db' : Db}
      → set_status_tx d env id status at db ≡ ok (info, db')
      → (k : LicenseKey) × (first (names id) db.keys ≡ some k)
        × (db' ≡ record db { keys = modify (has_hash k.key_hash) (set_status status at) db.keys })
  unfolding set_status_tx
  set_status_tx_writes id status at db {info} {db'} e =
      bind-cases (resolve_key sql (env.up 1) id db) _ e λ k named e₁.
        bind-cases (internal (set_key_status sql (env.up 2) k.key_hash status at db)) _ e₁
          λ db₁ set e₂.
            bind-cases (fresh_view sql (env.up 3) (env.up 4) (env.up 5) k.key_hash db₁) _ e₂
              λ info _ e₃.
                let done =
                  internal-ok (set_key_status sql (env.up 2) k.key_hash status at db) set in
                let written = set_key_status_lem sql (env.up 2) k.key_hash status at db in
                let step : db₁ ≡ record db {
                  keys = modify (has_hash k.key_hash) (set_status status at) db.keys;
                } =
                  ground (arith, done, written) in
                (
                  k,
                  resolve_key-first d env (env.up 1) id db named,
                  sym (ap (λ r. r.1) (ok-injective e₃)) ∙ step,
                )

  status_changed :
      (id : Text) (status : ℤ) (at : Option Time) (db : Db)
      → is_consistent status at ≡ true
      → WellFormed db
      → WellFormed (transaction (env.up 0) (env.up 9) (set_status_tx d env id status at) db).1
  status_changed id status at db fits good =
      transaction-keeps WellFormed (env.up 0) (env.up 9) (set_status_tx d env id status at) db good
        λ info db' e.
          let (k, _, wrote) = set_status_tx_writes id status at db e in
          subst WellFormed (sym wrote) (
            modified_keys-WellFormed db good (has_hash k.key_hash) (set_status status at)
              (λ _. refl) λ k broken. ground (arith, fits, broken))

  pub revoke_key-WellFormed :
      (c : Caller) (id : Text) (db : Db) → WellFormed db → WellFormed (revoke_key d env c id db).1
  unfolding revoke_key
  revoke_key-WellFormed c id db good =
      as_operator-WellFormed c _ db good
        (status_changed id key_status_revoked (some (env.clock 0)) db (revoked (env.clock 0)) good)

  pub unrevoke_key-WellFormed :
      (c : Caller) (id : Text) (db : Db) → WellFormed db → WellFormed (unrevoke_key d env c id db).1
  unfolding unrevoke_key
  unrevoke_key-WellFormed c id db good =
      as_operator-WellFormed c _ db good (status_changed id key_status_active none db active good)
