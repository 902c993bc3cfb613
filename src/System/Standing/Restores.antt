-- ===== src/System/Standing/Restores.antt =====
-- RevokeKey followed by UnrevokeKey.
use license_service.Prelude.{
  ◌≡◌, refl, sym, ◌∙◌, ap, subst, true, Text, List, Option, none, some, arith, inl, inr, Bool-cases,
  Option-cases, str_eq, str_eq_iff, str_eq_refl, eq_ℤ, eq_ℤ_iff, ℤ,
}
use license_service.Xcodes.{ok}
use license_service.Store.Models.{Db, LicenseKey, Time}
use license_service.Store.Rows.{
  first, modify, first-modify, first-modify-none, first-satisfies, modify-modify,
}
use license_service.Store.Atomic.{transaction-ok}
use license_service.Store.Reply.{Env}
use license_service.Store.Key.{has_hash}
use license_service.Activation.Service.{Deps}
use license_service.Admin.Scope.{Caller}
use license_service.Admin.View.{KeyInfo}
use license_service.Admin.Keys.{
  set_status_tx, revoke_key, unrevoke_key, key_status_active, key_status_revoked,
}
use license_service.System.Ownership.{is_consistent, WellFormed, read_key_consistent}
use license_service.System.Operator.{names}
use license_service.System.Changes.{set_status, set_status_tx_writes}
use license_service.System.Standing.{as_operator-ok}

names-set_status :
    (id : Text) (status : ℤ) (at : Option Time) (k : LicenseKey)
    → names id (set_status status at k) ≡ names id k
names-set_status id status at k = ground arith

-- A change of the rows of one key that does nothing to its first row.
untouched :
    (h g : Text) (f : LicenseKey → LicenseKey) (ks : List LicenseKey)
    → ((r : LicenseKey) → (f r).key_hash ≡ r.key_hash)
    → ((r : LicenseKey) → first (has_hash h) ks ≡ some r → f r ≡ r)
    → first (has_hash g) (modify (has_hash h) f ks) ≡ first (has_hash g) ks
untouched h g f ks kept still = elim (Option-cases (first (has_hash g) ks)) [
  | inl nobody ↦
      first-modify-none (has_hash g) (has_hash h) f ks (λ r. ap (λ x. str_eq x g) (kept r)) nobody
      ∙ sym nobody
  | inr (r, row) ↦
      let changed =
        first-modify (has_hash g) (has_hash h) f ks (λ r. ap (λ x. str_eq x g) (kept r)) row in
      elim (Bool-cases (has_hash h r)) [
        | inr other ↦ changed ∙ rw other (sym row)
        | inl mine ↦
            let same : g ≡ h =
              sym ((str_eq_iff r.key_hash g).0 (first-satisfies (has_hash g) ks row))
              ∙ (str_eq_iff r.key_hash h).0 mine in
            changed
            ∙ rw (mine, still r (subst (λ x. first (has_hash x) ks ≡ some r) same row)) (sym row)
      ]
]

-- A consistent row that is active has no time of revocation to lose.
active_again :
    (k : LicenseKey)
    → is_consistent k.status k.revoked_at ≡ true
    → k.status ≡ key_status_active
    → set_status key_status_active none k ≡ k
active_again k consistent active = go k.revoked_at refl
  where
    go : (at : Option Time) → k.revoked_at ≡ at → set_status key_status_active none k ≡ k
    go none e =
        ap {A = ℤ} (λ x. record k { status = x; revoked_at = none }) (sym active)
        ∙ ap {A = Option Time} (λ x. record k { revoked_at = x }) (sym e)
    go (some t) e = absurd (
        let other : eq_ℤ k.status key_status_revoked ≡ true = rw e at consistent in
        ground (arith, active, (eq_ℤ_iff k.status key_status_revoked).0 other))

module _ (d : Deps) (env env' : Env) (c c' : Caller) (id : Text) where
  -- Both calls, on the rows.
  revoked_unrevoked :
      (db db₁ db₂ : Db) (info info' : KeyInfo)
      → revoke_key d env c id db ≡ (ok info, db₁)
      → unrevoke_key d env' c' id db₁ ≡ (ok info', db₂)
      → (k : LicenseKey) × (first (names id) db.keys ≡ some k)
        × (db₂ ≡ record db {
          keys = modify (has_hash k.key_hash) (set_status key_status_active none) db.keys;
        })
  unfolding revoke_key unrevoke_key
  revoked_unrevoked db db₁ db₂ info info' revoked unrevoked =
      let f = set_status key_status_revoked (some (env.clock 0)) in
      let g = set_status key_status_active none in
      let (k, named, wrote) =
        set_status_tx_writes d env id key_status_revoked (some (env.clock 0)) db (
          transaction-ok (env.up 0) (env.up 9)
            (set_status_tx d env id key_status_revoked (some (env.clock 0))) db
            (as_operator-ok d env c _ db revoked)) in
      let (k₁, named₁, wrote₁) = set_status_tx_writes d env' id key_status_active none db₁ (
        transaction-ok (env'.up 0) (env'.up 9) (set_status_tx d env' id key_status_active none) db₁
          (as_operator-ok d env' c' _ db₁ unrevoked)) in
      let mine = has_hash k.key_hash in
      let moved : first (names id) (modify mine f db.keys) ≡ some (f k) =
        first-modify (names id) mine f db.keys
          (names-set_status id key_status_revoked (some (env.clock 0))) named
        ∙ rw (str_eq_refl k.key_hash) refl in
      let there : first (names id) (modify mine f db.keys) ≡ some k₁ = rw wrote at named₁ in
      let same : k₁.key_hash ≡ k.key_hash = ground (arith, moved, there) in
      let keys : modify (has_hash k₁.key_hash) g (modify mine f db.keys) ≡ modify mine g db.keys =
        rw same (modify-modify mine f g db.keys (λ _. refl) (λ _. refl)) in
      (
        k,
        named,
        wrote₁
            ∙ ap {A = Db} (λ x. record x { keys = modify (has_hash k₁.key_hash) g x.keys }) wrote
            ∙ ap {A = List LicenseKey} (λ ks. record db { keys = ks }) keys,
      )

  -- A RevokeKey that succeeds, followed by an UnrevokeKey of the same id that succeeds, leaves a
  -- well-formed database in which the key is active as it was for every lookup: each key hash finds
  -- the row that it found before, or none as before, and nothing but the table of keys was written.
  pub unrevoke_key-revoke_key :
      (db db₁ db₂ : Db) (info info' : KeyInfo) (k r : LicenseKey)
      → WellFormed db
      → first (names id) db.keys ≡ some k
      → first (has_hash k.key_hash) db.keys ≡ some r
      → r.status ≡ key_status_active
      → revoke_key d env c id db ≡ (ok info, db₁)
      → unrevoke_key d env' c' id db₁ ≡ (ok info', db₂)
      → ((h : Text) → first (has_hash h) db₂.keys ≡ first (has_hash h) db.keys)
        × (db₂ ≡ record db { keys = db₂.keys })
  unrevoke_key-revoke_key db db₁ db₂ info info' k r good named row active revoked unrevoked =
      let (k', named', wrote) = revoked_unrevoked db db₁ db₂ info info' revoked unrevoked in
      let g = set_status key_status_active none in
      let same : k'.key_hash ≡ k.key_hash = ground (arith, named, named') in
      let back : g r ≡ r =
        active_again r (read_key_consistent db good (has_hash k.key_hash) row) active in
      (
        λ h.
            ap (λ x. first (has_hash h) x.keys) wrote
            ∙ untouched k'.key_hash h g db.keys (λ _. refl)
                λ x found_row.
                  let one : r ≡ x = ground (arith, row, rw same at found_row) in
                  subst (λ y. g y ≡ y) one back,
        wrote
            ∙ ap {A = List LicenseKey} (λ ks. record db { keys = ks })
                (sym (ap (λ x. x.keys) wrote)),
      )
