-- ===== src/System/Standing/Minting.antt =====
-- What CreateKey does to the table of keys.
use license_service.Prelude.{
  ℕ, zero, suc, ◌+◌, ltb, ◌≡◌, sym, ◌∙◌, ap, subst, Bool, Text, List, [], ◌∷◌, ◌++◌, Option, none,
  arith, ℤ, inl, inr, Bool-cases, Option-cases,
}
use license_service.Xcodes.{Result, Result-cases, ok, bind-cases, ok-injective}
use license_service.Store.Models.{Db, LicenseKey, Time}
use license_service.Store.Reply.{Env, internal}
use license_service.Store.Key.{
  Created, Created-cases, created, has_hash, create_key-created, update_key_label,
  update_key_label_lem, update_key_slots, update_key_slots_lem,
}
use license_service.Store.Key
use license_service.Store.Entitlement.{upsert_entitlement, upsert_entitlement_lem}
use license_service.Activation.Keys.{generate_key, normalize_key}
use license_service.Activation.Service.{Deps}
use license_service.Admin.Expiry.{Grant, grant_row}
use license_service.Admin.Keys.{
  CreateKeyRequest, new_key, after_create, mint_key, add_grants, key_gen_attempts,
}

module _ (d : Deps) (env : Env) where
  open d use {sql}

  after_create_only :
      (up : Bool) (plain_key : Text) (k : LicenseKey) (attempt : ℕ) (db : Db)
      (retry : Result ((Text × LicenseKey) × Db)) (m : Text × LicenseKey) (db' : Db)
      → (retry ≡ ok (m, db') → db'.keys ≡ db.keys ++ m.1 ∷ [])
      → after_create d env (Key.create_key sql up k db) attempt (plain_key, k) retry ≡ ok (m, db')
      → db'.keys ≡ db.keys ++ m.1 ∷ []
  unfolding after_create
  after_create_only up plain_key k attempt db retry m db' next e =
      elim (Created-cases (Key.create_key sql up k db)) [
        | inl (db₁, made) ↦
            let same : ok ((plain_key, k), db₁) ≡ ok (m, db') = rw (made, after_create) at e in
            subst (λ r. r.1.keys ≡ db.keys ++ r.0.1 ∷ []) (ok-injective same)
              (ap (λ x. x.keys) (create_key-created sql up k db made))
        | inr (inl clash) ↦ elim (Bool-cases (ltb (attempt + 1) key_gen_attempts)) [
          | inl again ↦ next (ground (arith, clash, again))
          | inr last ↦ absurd (ground (arith, clash, last))
        ]
        | inr (inr broken) ↦ absurd (ground (arith, broken))
      ]

  pub mint_key_only :
      (random : ℕ → Option (List ℕ)) (req : CreateKeyRequest) (slots : ℤ) (attempt left : ℕ)
      (db : Db) (m : Text × LicenseKey) (db' : Db)
      → mint_key d env random req slots attempt left db ≡ ok (m, db')
      → db'.keys ≡ db.keys ++ m.1 ∷ []
  unfolding mint_key
  mint_key_only random req slots attempt zero db m db' e = absurd cc
  mint_key_only random req slots attempt (suc left) db m db' e =
      elim (Option-cases (random attempt)) [
        | inl dry ↦ absurd (ground (arith, dry))
        | inr (groups, drawn) ↦ elim (Result-cases (normalize_key (generate_key groups))) [
          | inr (x, refused) ↦ absurd (ground (arith, drawn, refused))
          | inl (norm, accepted) ↦
              after_create_only (env.up (1 + attempt)) (generate_key groups)
                (new_key d env norm req.label slots) attempt db
                (mint_key d env random req slots (attempt + 1) left db) m db'
                (mint_key_only random req slots (attempt + 1) left db m db')
                (rw (drawn, accepted, mint_key) at e)
        ]
      ]

  pub add_grants_only :
      (i : ℕ) (h : Text) (now : Time) (gs : List Grant) (db : Db) {db' : Db}
      → add_grants d env i h now gs db ≡ ok db'
      → db'.keys ≡ db.keys
  unfolding add_grants
  add_grants_only i h now [] db e = sym (ap (λ x. x.keys) (ok-injective e))
  add_grants_only i h now (g ∷ gs) db e =
      bind-cases (grant_row h g none now env.stamp) _ e λ row _ e₁.
        bind-cases (internal (upsert_entitlement sql (env.up i) row db)) _ e₁ λ db₁ written e₂.
          let step : db₁.keys ≡ db.keys =
            ground (arith, written, upsert_entitlement_lem sql (env.up i) row db) in
          add_grants_only (i + 1) h now gs db₁ e₂ ∙ step
