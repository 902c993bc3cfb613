-- ===== src/System/Lifecycle.antt =====
-- CreateKey and the well-formedness of the database.
use license_service.Prelude.{
  ℕ, zero, suc, ◌+◌, ◌≡◌, refl, sym, ap, subst, Bool, true, false, Text, List, Option, arith, ℤ,
  inl, inr, if◌then◌else◌, Bool-cases, eq_ℤ, Option-cases, ltb,
}
use license_service.Xcodes.{Result, ok, err, bind-cases, ok-injective, plain, Code, Result-cases}
use license_service.Store.Models.{Db, LicenseKey}
use license_service.Store.Atomic.{transaction-keeps}
use license_service.Store.Reply.{Env, transaction}
use license_service.Store.Key.{
  Created, Created-cases, created, unique_violation, has_hash, has_license_id, create_key-created,
  get_key_by_id_or_hash, get_key_by_id_or_hash_lem, update_key_label, update_key_label_lem,
  update_key_slots, update_key_slots_lem, set_key_status, set_key_status_lem, delete_key_lem,
}
use license_service.Store.Key
use license_service.Activation.Keys.{generate_key, normalize_key}
use license_service.Activation.Service.{Deps}
use license_service.Admin.Scope.{Caller}
use license_service.Admin.Keys.{
  CreateKeyRequest, new_key, after_create, mint_key, add_grants, create_key_tx, create_key_reply,
  create_key, slots_in_range, default_slots, key_gen_attempts,
}
use license_service.System.Ownership.{WellFormed, HasOwner, is_unsound}
use license_service.System.Operator.{
  as_operator-WellFormed, add_grants-WellFormed, created-WellFormed,
}

module _ (d : Deps) (env : Env) where
  open d use {sql}

  abbrev Minted : Text × LicenseKey → Db → Type 0
  Minted m db = WellFormed db × HasOwner m.1.key_hash db

  after_create-Minted :
      (up : Bool) (plain_key : Text) (k : LicenseKey) (attempt : ℕ) (db : Db)
      (retry : Result ((Text × LicenseKey) × Db)) {m : Text × LicenseKey} {db' : Db}
      → WellFormed db
      → is_unsound k ≡ false
      → ((m : Text × LicenseKey) (db' : Db) → retry ≡ ok (m, db') → Minted m db')
      → after_create d env (Key.create_key sql up k db) attempt (plain_key, k) retry ≡ ok (m, db')
      → Minted m db'
  unfolding after_create
  after_create-Minted up plain_key k attempt db retry {m} {db'} good sound next e =
      elim (Created-cases (Key.create_key sql up k db)) [
        | inl (db₁, made) ↦
            let step = created-WellFormed d env up k db good sound made in
            let same : ok ((plain_key, k), db₁) ≡ ok (m, db') = rw (made, after_create) at e in
            subst (λ r. Minted r.0 r.1) (ok-injective same) step
        | inr (inl clash) ↦ elim (Bool-cases (ltb (attempt + 1) key_gen_attempts)) [
          | inl again ↦ next m db' (ground (arith, clash, again))
          | inr last ↦ absurd (ground (arith, clash, last))
        ]
        | inr (inr broken) ↦ absurd (ground (arith, broken))
      ]

  new_key_sound :
      (norm label : Text) (slots : ℤ)
      → slots_in_range slots ≡ true
      → is_unsound (new_key d env norm label slots) ≡ false
  unfolding new_key eq_ℤ
  new_key_sound norm label slots fits = rw fits refl

  mint_key-Minted :
      (random : ℕ → Option (List ℕ)) (req : CreateKeyRequest) (slots : ℤ) (attempt left : ℕ)
      (db : Db) (m : Text × LicenseKey) (db' : Db)
      → slots_in_range slots ≡ true
      → WellFormed db
      → mint_key d env random req slots attempt left db ≡ ok (m, db')
      → Minted m db'
  unfolding mint_key
  mint_key-Minted random req slots attempt zero db m db' fits good e = absurd cc
  mint_key-Minted random req slots attempt (suc left) db m db' fits good e =
      elim (Option-cases (random attempt)) [
        | inl dry ↦ absurd (ground (arith, dry))
        | inr (groups, drawn) ↦ elim (Result-cases (normalize_key (generate_key groups))) [
          | inr (x, refused) ↦ absurd (ground (arith, drawn, refused))
          | inl (norm, accepted) ↦
              after_create-Minted (env.up (1 + attempt)) (generate_key groups)
                (new_key d env norm req.label slots) attempt db
                (mint_key d env random req slots (attempt + 1) left db) {m = m} {db' = db'} good
                (new_key_sound norm req.label slots fits)
                (λ m db' again.
                  mint_key-Minted random req slots (attempt + 1) left db m db' fits good again)
                (ground (arith, drawn, accepted))
        ]
      ]

  create_key_tx-WellFormed :
      (random : ℕ → Option (List ℕ)) (req : CreateKeyRequest) (slots : ℤ) (db : Db)
      {m : Text × LicenseKey} {db' : Db}
      → slots_in_range slots ≡ true
      → WellFormed db
      → create_key_tx d env random req slots db ≡ ok (m, db')
      → WellFormed db'
  unfolding create_key_tx
  create_key_tx-WellFormed random req slots db fits good e =
      bind-cases (mint_key d env random req slots 0 key_gen_attempts db) _ e λ minted made e₁.
        bind-cases (add_grants d env 20 minted.0.1.key_hash (env.clock 0) req.grants minted.1) _ e₁
          λ db₁ granted e₂.
            let step =
              mint_key-Minted random req slots 0 key_gen_attempts db minted.0 minted.1 fits good
                made in
            subst WellFormed (ap (λ r. r.1) (ok-injective e₂)) (
              add_grants-WellFormed d env 20 minted.0.1.key_hash (env.clock 0) req.grants minted.1
                step.0 step.1 granted)

  reply-after : (r : Result (Text × LicenseKey) × Db) → (create_key_reply d env r).1 ≡ r.1
  unfolding create_key_reply
  reply-after (err e, db) = refl
  reply-after (ok m, db) = refl

  created_or_refused :
      (random : ℕ → Option (List ℕ)) (req : CreateKeyRequest) (slots : ℤ) (in_range : Bool)
      (db : Db)
      → slots_in_range slots ≡ in_range
      → WellFormed db
      → WellFormed
          (if in_range
            then create_key_reply d env
                (transaction (env.up 0) (env.up 9) (create_key_tx d env random req slots) db)
            else (err (plain Code.bad_request), db)).1
  created_or_refused random req slots false db fits good = good
  created_or_refused random req slots true db fits good = subst WellFormed (sym (reply-after _)) (
      transaction-keeps WellFormed (env.up 0) (env.up 9) (create_key_tx d env random req slots) db
        good λ m db' e. create_key_tx-WellFormed random req slots db fits good e)

  pub create_key-WellFormed :
      (random : ℕ → Option (List ℕ)) (c : Caller) (req : CreateKeyRequest) (db : Db)
      → WellFormed db
      → WellFormed (create_key d env random c req db).1
  unfolding create_key
  create_key-WellFormed random c req db good = as_operator-WellFormed c _ db good (
      created_or_refused random req (default_slots req.slots)
        (slots_in_range (default_slots req.slots)) db refl good)
