-- ===== src/System/Standing.antt =====
-- RevokeKey and UnrevokeKey, and what the client meets after them.
pub mod Refusal
pub mod Kept
pub mod Minting
pub mod Operators
pub mod Lasts
pub mod Restores
use license_service.Prelude.{
  eq_ℤ, ◌≡◌, refl, sym, ◌∙◌, ap, subst, Bool, true, false, Text, Option, none, some, arith, ℤ,
  if◌then◌else◌, codes, has_prefix, List, ℕ, ◌∷◌, ◌++◌, inl, inr, Option-cases, str_eq_refl,
}
use license_service.Xcodes.{
  Result, Result-cases, ok, err, bind-cases, ok-injective, plain, Code, key_revoked,
}
use license_service.Store.Models.{Db, LicenseKey, Time}
use license_service.Store.Rows.{
  first, modify, first-modify, first-satisfies, first-counted, count-first-none,
}
use license_service.Store.Atomic.{transaction-ok, internal-ok}
use license_service.Store.Reply.{Env, transaction, internal}
use license_service.Store.Key.{
  has_hash, has_license_id, get_key_by_id_or_hash, get_key_by_id_or_hash_lem, set_key_status,
  set_key_status_lem, get_key_for_update, get_key_for_update_lem,
}
use license_service.Activation.Service.{Deps, Service, allow, purpose_activate}
use license_service.Activation.Handlers.{
  status_revoked, ActivateRequest, Activated, normalize_request_key, activate_tx, activate_reply,
  activate, live_key,
}
use license_service.Admin.Scope.{Caller, require_platform_scope}
use license_service.Admin.View.{KeyInfo, resolve_key, fresh_view, named_key}
use license_service.Admin.Keys.{
  as_operator, set_status_tx, revoke_key, unrevoke_key, key_status_active, key_status_revoked,
}
use license_service.System.Operator.{names}
use license_service.System.Changes.{set_status, set_status_tx_writes}

-- The row that a client's key hash finds, revoked.
abbrev pub Banned : Text → Db → Type 0
Banned h db =
    (k : LicenseKey) × (first (has_hash h) db.keys ≡ some k) × (eq_ℤ k.status status_revoked ≡ true)

-- A row that passes another test: that test finds a row too.
first_other :
    {A : Type 0} (p q : A → Bool) (rs : List A) {r : A}
    → first p rs ≡ some r
    → q r ≡ true
    → (x : A) × (first q rs ≡ some x)
first_other p q rs {r} here passes = elim (Option-cases (first q rs)) [
  | inl nobody ↦
      absurd (omega (arith, count-first-none q rs nobody, first-counted p q rs here passes))
  | inr there ↦ there
]

pub revoked_is_revoked : eq_ℤ key_status_revoked status_revoked ≡ true
unfolding eq_ℤ
revoked_is_revoked = refl

module _ (d : Deps) (env : Env) where
  open d use {sql}

  pub as_operator-ok :
      {A : Type 0} (c : Caller) (body : Db → Result A × Db) (db : Db) {a : A} {db' : Db}
      → as_operator c body db ≡ (ok a, db')
      → body db ≡ (ok a, db')
  unfolding as_operator
  as_operator-ok c body db {a} {db'} e = elim (Result-cases (require_platform_scope c)) [
    | inl (u, allowed) ↦ ground (arith, allowed)
    | inr (x, denied) ↦ absurd (ground (arith, denied))
  ]

  pub revoke_key-Banned :
      (c : Caller) (id : Text) (db : Db) {info : KeyInfo} {db' : Db}
      → revoke_key d env c id db ≡ (ok info, db')
      → (k : LicenseKey) × (first (names id) db.keys ≡ some k) × Banned k.key_hash db'
  unfolding revoke_key
  revoke_key-Banned c id db {db' = db'} e =
      let tx = set_status_tx d env id key_status_revoked (some (env.clock 0)) in
      let (k, named, wrote) =
        set_status_tx_writes d env id key_status_revoked (some (env.clock 0)) db
          (transaction-ok (env.up 0) (env.up 9) tx db (as_operator-ok c _ db e)) in
      let (r, found_row) =
        first_other (names id) (has_hash k.key_hash) db.keys named (str_eq_refl k.key_hash) in
      let mine = first-satisfies (has_hash k.key_hash) db.keys found_row in
      let changed =
        first-modify (has_hash k.key_hash) (has_hash k.key_hash)
          (set_status key_status_revoked (some (env.clock 0))) db.keys (λ x. refl) found_row in
      (
        k,
        named,
        (
          set_status key_status_revoked (some (env.clock 0)) r,
          ap (λ x. first (has_hash k.key_hash) x.keys) wrote ∙ changed ∙ rw mine refl,
          revoked_is_revoked,
        ),
      )
