-- ===== src/System/Standing/Operators.antt =====
-- CreateKey and UpdateKey leave a revocation as it is, and so do UnrevokeKey and DeleteKey of
-- another key.
use license_service.Prelude.{
  ℕ, ◌≡◌, refl, sym, ◌∙◌, ap, subst, Bool, true, false, Text, List, [], ◌∷◌, Option, none, some,
  arith, ℤ, if◌then◌else◌, str_eq, str_eq_iff,
}
use license_service.Xcodes.{Result, Error, ok, err, bind-cases, ok-injective}
use license_service.Store.Models.{Db, LicenseKey}
use license_service.Store.Rows.{first, modify}
use license_service.Store.Atomic.{transaction-keeps, internal-ok}
use license_service.Store.Reply.{Env}
use license_service.Store.Key.{
  has_hash, update_key_label, update_key_label_lem, update_key_slots, update_key_slots_lem,
}
use license_service.Activation.Service.{Deps}
use license_service.Admin.Scope.{Caller}
use license_service.Admin.View.{KeyInfo, resolve_key, fresh_view}
use license_service.Admin.Keys.{
  CreateKeyRequest, UpdateKeyRequest, mint_key, add_grants, create_key_tx, create_key_reply,
  create_key, slots_in_range, default_slots, key_gen_attempts, set_label, set_slots, update_key_tx,
  is_update, update_key, key_status_active, key_status_revoked, set_status_tx, revoke_key,
  unrevoke_key, delete_key_tx, delete_key,
}
use license_service.System.Operator.{names, as_operator-keeps}
use license_service.System.Changes.{set_status, set_status_tx_writes}
use license_service.System.Deletion.{delete_key_tx_only}
use license_service.System.Standing.Minting.{add_grants_only, mint_key_only}
use license_service.System.Standing.{Banned, revoked_is_revoked}
use license_service.System.Standing.Kept.{modified-Banned, appended-Banned, removed-Banned}

-- Whether the key that an operator names has this hash.
unfoldable pub concerns : Text → Text → Db → Bool
concerns h id db = elim (first (names id) db.keys) [ none ↦ false | some k ↦ str_eq k.key_hash h ]

module _ (d : Deps) (env : Env) where
  open d use {sql}

  module _ (h : Text) where
    create_key_tx-Banned :
        (random : ℕ → Option (List ℕ)) (req : CreateKeyRequest) (slots : ℤ) (db : Db)
        {minted : Text × LicenseKey} {db' : Db}
        → Banned h db
        → create_key_tx d env random req slots db ≡ ok (minted, db')
        → Banned h db'
    unfolding create_key_tx
    create_key_tx-Banned random req slots db {db' = db'} banned e =
        bind-cases (mint_key d env random req slots 0 key_gen_attempts db) _ e λ minted made e₁.
          bind-cases (add_grants d env 20 minted.0.1.key_hash (env.clock 0) req.grants minted.1) _
            e₁
            λ db₁ granted e₂.
              appended-Banned h db db' (minted.0.1 ∷ [])
                (sym (ap (λ r. r.1.keys) (ok-injective e₂))
                  ∙ add_grants_only d env 20 minted.0.1.key_hash (env.clock 0) req.grants minted.1
                      granted
                  ∙ mint_key_only d env random req slots 0 key_gen_attempts db minted.0 minted.1
                      made)
                banned

    set_label-Banned :
        (g : Text) (label : Option Text) (db : Db) {db' : Db}
        → Banned h db
        → set_label d env g label db ≡ ok db'
        → Banned h db'
    unfolding set_label
    set_label-Banned g none db banned e = subst (Banned h) (ok-injective e) banned
    set_label-Banned g (some label) db {db' = db'} banned e =
        let done = internal-ok (update_key_label sql (env.up 2) g label db) e in
        let written = update_key_label_lem sql (env.up 2) g label db in
        let f = λ (k : LicenseKey). record k { label = label } in
        let step : record db { keys = modify (has_hash g) f db.keys } ≡ db' =
          ground (arith, done, written) in
        subst (Banned h) step
          (modified-Banned h (has_hash g) f db (λ _. refl) (λ _ _ _ b. b) banned)

    set_slots-Banned :
        (g : Text) (slots : Option ℤ) (db : Db) {db' : Db}
        → Banned h db
        → set_slots d env g slots db ≡ ok db'
        → Banned h db'
    unfolding set_slots
    set_slots-Banned g none db banned e = subst (Banned h) (ok-injective e) banned
    set_slots-Banned g (some slots) db {db' = db'} banned e =
        let done = internal-ok (update_key_slots sql (env.up 3) g slots db) e in
        let written = update_key_slots_lem sql (env.up 3) g slots db in
        let f = λ (k : LicenseKey). record k { max_slots = slots } in
        let step : record db { keys = modify (has_hash g) f db.keys } ≡ db' =
          ground (arith, done, written) in
        subst (Banned h) step
          (modified-Banned h (has_hash g) f db (λ _. refl) (λ _ _ _ b. b) banned)

    update_key_tx-Banned :
        (req : UpdateKeyRequest) (db : Db) {info : KeyInfo} {db' : Db}
        → Banned h db
        → update_key_tx d env req db ≡ ok (info, db')
        → Banned h db'
    unfolding update_key_tx
    update_key_tx-Banned req db banned e =
        bind-cases (resolve_key sql (env.up 1) req.key_id db) _ e λ k _ e₁.
          bind-cases (set_label d env k.key_hash req.label db) _ e₁ λ db₁ labelled e₂.
            bind-cases (set_slots d env k.key_hash req.slots db₁) _ e₂ λ db₂ resized e₃.
              bind-cases (fresh_view sql (env.up 4) (env.up 5) (env.up 6) k.key_hash db₂) _ e₃
                λ info _ e₄. subst (Banned h) (ap (λ r. r.1) (ok-injective e₄)) (
                  set_slots-Banned k.key_hash req.slots db₁
                    (set_label-Banned k.key_hash req.label db banned labelled) resized)

    reply_after : (r : Result (Text × LicenseKey) × Db) → (create_key_reply d env r).1 ≡ r.1
    unfolding create_key_reply
    reply_after (err e, db) = refl
    reply_after (ok m, db) = refl

    accepted-Banned :
        {A : Type 0} (accepted : Bool) (e : Error) (done : Result A × Db) (db : Db)
        → Banned h db
        → Banned h done.1
        → Banned h (if accepted then done else (err e, db)).1
    accepted-Banned true e done db now after = after
    accepted-Banned false e done db now after = now

    pub create_key-Banned :
        (random : ℕ → Option (List ℕ)) (c : Caller) (req : CreateKeyRequest) (db : Db)
        → Banned h db
        → Banned h (create_key d env random c req db).1
    unfolding create_key
    create_key-Banned random c req db banned = as_operator-keeps (Banned h) c _ db banned (
        accepted-Banned (slots_in_range (default_slots req.slots)) _ _ db banned (
          subst (Banned h) (sym (reply_after _)) (
            transaction-keeps (Banned h) (env.up 0) (env.up 9)
              (create_key_tx d env random req (default_slots req.slots)) db banned
              λ m db' e. create_key_tx-Banned random req (default_slots req.slots) db banned e)))

    pub update_key-Banned :
        (c : Caller) (req : UpdateKeyRequest) (db : Db)
        → Banned h db
        → Banned h (update_key d env c req db).1
    unfolding update_key
    update_key-Banned c req db banned = as_operator-keeps (Banned h) c _ db banned (
        accepted-Banned (is_update d env req.label req.slots) _ _ db banned (
          transaction-keeps (Banned h) (env.up 0) (env.up 9) (update_key_tx d env req) db banned
            λ info db' e. update_key_tx-Banned req db banned e))

    -- A second revocation is one too.
    pub revoke_again-Banned :
        (c : Caller) (id : Text) (db : Db) → Banned h db → Banned h (revoke_key d env c id db).1
    unfolding revoke_key
    revoke_again-Banned c id db banned = as_operator-keeps (Banned h) c _ db banned (
        transaction-keeps (Banned h) (env.up 0) (env.up 9)
          (set_status_tx d env id key_status_revoked (some (env.clock 0))) db banned
          λ info db' e.
            let (k, _, wrote) =
              set_status_tx_writes d env id key_status_revoked (some (env.clock 0)) db e in
            subst (Banned h) (sym wrote) (
              modified-Banned h (has_hash k.key_hash)
                (set_status key_status_revoked (some (env.clock 0))) db (λ _. refl)
                (λ _ _ _ _. revoked_is_revoked) banned))

    pub unrevoke_other-Banned :
        (c : Caller) (id : Text) (db : Db)
        → concerns h id db ≡ false
        → Banned h db
        → Banned h (unrevoke_key d env c id db).1
    unfolding unrevoke_key concerns
    unrevoke_other-Banned c id db apart banned = as_operator-keeps (Banned h) c _ db banned (
        transaction-keeps (Banned h) (env.up 0) (env.up 9)
          (set_status_tx d env id key_status_active none) db banned
          λ info db' e.
            let (k, named, wrote) = set_status_tx_writes d env id key_status_active none db e in
            let other : str_eq k.key_hash h ≡ false = ground (arith, apart, named) in
            subst (Banned h) (sym wrote) (
              modified-Banned h (has_hash k.key_hash) (set_status key_status_active none) db
                (λ _. refl)
                (λ r mine hit _. absurd (
                  ground (
                    arith,
                    other,
                    str_eq_iff r.key_hash h,
                    str_eq_iff r.key_hash k.key_hash,
                    str_eq_iff k.key_hash h,
                  )))
                banned))

    pub delete_other-Banned :
        (c : Caller) (id : Text) (confirm : Option Bool) (db : Db)
        → concerns h id db ≡ false
        → Banned h db
        → Banned h (delete_key d env c id confirm db).1
    unfolding delete_key concerns
    delete_other-Banned c id (some true) db apart banned =
        as_operator-keeps (Banned h) c _ db banned (
          transaction-keeps (Banned h) (env.up 0) (env.up 9) (delete_key_tx d env id) db banned
            λ name db' e.
              let (k, named, only) = delete_key_tx_only d env id db e in
              removed-Banned h k.key_hash db db' (ground (arith, apart, named))
                (ap (λ x. x.keys) only) banned)
    delete_other-Banned c id (some false) db apart banned =
        as_operator-keeps (Banned h) c _ db banned banned
    delete_other-Banned c id none db apart banned =
        as_operator-keeps (Banned h) c _ db banned banned
