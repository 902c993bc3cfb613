-- ===== src/Tenant/Gate.antt =====
-- Who passes the gate, and what a first call leaves behind.
use license_service.Prelude.{
  ℕ, ◌≡◌, refl, sym, ◌∙◌, ap, Bool, true, false, ◌||◌, Text, str_eq, str_eq_refl, List, [], ◌∷◌,
  ◌++◌, Option, none, some, arith, ◌⊎◌, inl, inr, Option-cases,
}
use license_service.Xcodes.{ok, Result-cases}
use license_service.Store.Models.{Db, LicenseApp}
use license_service.Store.Sql.{Sql, append_unique}
use license_service.Store.Rows.{first, first-append}
use license_service.Store.Reply.{Env}
use license_service.Store.App.{
  get_app_for_tenant, get_app_for_tenant_lem, ensure_tenant_app, ensure_tenant_app_lem, has_tenant,
  has_app_key, prefer_app, fallback_app, app_clashes,
}
use license_service.Tenant.{
  Caller, open_gate, gate_row, admit_again, after_insert, ensure_trusted, require,
}

-- The row of a tenant: by its tenant key, else by its app key.
abbrev pub gate_of : Text → List LicenseApp → Option LicenseApp
gate_of tk rs = elim (first (has_tenant tk) rs) [
  | none ↦ first (has_app_key tk) rs
  | some a ↦ some a
]

looked-gate_of :
    (sql : Sql) (up up' : Bool) (tk : Text) (db : Db) {o : Option LicenseApp}
    → get_app_for_tenant sql up up' tk db ≡ ok o
    → o ≡ gate_of tk db.apps
unfolding prefer_app fallback_app
looked-gate_of sql up up' tk db {o} h = ground (arith, get_app_for_tenant_lem sql up up' tk db)

-- The gate row as it must be.
pub record Passes (tk : Text) (caller : Caller) (db' : Db) : Type 0 where
  pub tenant : caller.tenant_key ≡ tk
  pub row : gate_of tk db'.apps ≡ some caller.app
  pub enabled : caller.app.disabled ≡ false

open_gate-Passes :
    (tk : Text) (app : LicenseApp) (db' : Db) {caller : Caller}
    → open_gate tk app ≡ ok caller
    → some app ≡ gate_of tk db'.apps
    → Passes tk caller db'
unfolding open_gate
open_gate-Passes tk app db' {caller} h row = record {
  tenant = ground arith;
  row = sym row ∙ ground arith;
  enabled = ground arith;
}

-- Nothing changes, or the gate row of the tenant is added.
abbrev pub Grown : Db → Db → LicenseApp → Type 0
Grown db db' row =
    (db' ≡ db)
    ⊎ (append_unique (app_clashes row) row db.apps ≡ some db'.apps)
      × (db' ≡ record db { apps = db'.apps })

module _ (sql : Sql) (env : Env) where
  ensure_Grown :
      (row : LicenseApp) (up : Bool) (db : Db) {db' : Db}
      → ensure_tenant_app sql up row db ≡ ok db'
      → Grown db db' row
  ensure_Grown row up db {db'} h =
      elim (Option-cases (append_unique (app_clashes row) row db.apps)) [
        | inl refused ↦ inl (ground (arith, refused, ensure_tenant_app_lem sql up row db))
        | inr (rs, grown) ↦
            let written : db' ≡ record db { apps = rs } =
              ground (arith, grown, ensure_tenant_app_lem sql up row db) in
            inr (grown ∙ ap (λ x. some x.apps) (sym written), ground (arith, written))
      ]

  admit_again-Passes :
      (tk : Text) (db' : Db) {caller : Caller}
      → admit_again sql env tk (get_app_for_tenant sql (env.up 3) (env.up 4) tk db') ≡ ok caller
      → Passes tk caller db'
  unfolding admit_again
  admit_again-Passes tk db' {caller} h =
      elim (Result-cases (get_app_for_tenant sql (env.up 3) (env.up 4) tk db')) [
        | inr (e, broken) ↦ absurd (ground (arith, broken))
        | inl (o, looked) ↦ elim (Option-cases o) [
          | inl missing ↦ absurd (ground (arith, looked, missing))
          | inr (app, there) ↦
              open_gate-Passes tk app db' (ground (arith, looked, there))
                (sym there ∙ looked-gate_of sql (env.up 3) (env.up 4) tk db' looked)
        ]
      ]

  after_insert-Passes :
      (tk : Text) (row : LicenseApp) (up : Bool) (db : Db) {caller : Caller} {db' : Db}
      → after_insert sql env tk (ensure_tenant_app sql up row db) db ≡ (ok caller, db')
      → Passes tk caller db' × Grown db db' row
  unfolding after_insert
  after_insert-Passes tk row up db {caller} {db'} h =
      elim (Result-cases (ensure_tenant_app sql up row db)) [
        | inr (e, broken) ↦ absurd (ground (arith, broken))
        | inl (grown, inserted) ↦
            let same : grown ≡ db' = ground (arith, inserted) in
            (
              admit_again-Passes tk db' (ground (arith, inserted)),
              ensure_Grown row up db (inserted ∙ ap ok same),
            )
      ]

  ensure_trusted-Passes :
      (id : ℕ) (tk : Text) (db : Db) {caller : Caller} {db' : Db}
      → ensure_trusted sql env id tk db ≡ (ok caller, db')
      → Passes tk caller db' × Grown db db' (gate_row sql env id tk)
  unfolding ensure_trusted
  ensure_trusted-Passes id tk db {caller} {db'} h =
      elim (Result-cases (get_app_for_tenant sql (env.up 0) (env.up 1) tk db)) [
        | inr (e, broken) ↦ absurd (ground (arith, broken))
        | inl (o, looked) ↦ elim (Option-cases o) [
          | inl missing ↦
              after_insert-Passes tk (gate_row sql env id tk) (env.up 2) db
                (ground (arith, looked, missing))
          | inr (app, there) ↦
              let same : db' ≡ db = ground (arith, looked, there) in
              let row = looked-gate_of sql (env.up 0) (env.up 1) tk db looked in
              (
                open_gate-Passes tk app db' (ground (arith, looked, there))
                    (sym there ∙ row ∙ ap (λ x. gate_of tk x.apps) (sym same)),
                inl same,
              )
        ]
      ]

  -- Whoever passes the gate has a trusted, well-formed tenant key, and the row that the tenant now
  -- has is not disabled; the database is unchanged but for the tenant's gate row, which a first call
  -- may add under the unique indexes.
  pub require-Passes :
      (valid : Text → Bool) (tenant : Option Text) (id : ℕ) (db : Db) {caller : Caller} {db' : Db}
      → require sql env valid tenant id db ≡ (ok caller, db')
      → (tk : Text) × (tenant ≡ some tk)
        × (valid tk ≡ true)
        × Passes tk caller db'
        × Grown db db' (gate_row sql env id tk)
  unfolding require
  require-Passes valid none id db h = absurd (ground arith)
  require-Passes valid (some tk) id db {caller} {db'} h =
      let ran : ensure_trusted sql env id tk db ≡ (ok caller, db') = ground arith in
      let (passes, grown) = ensure_trusted-Passes id tk db ran in
      (tk, refl, ground arith, passes, grown)

  -- Where every statement is carried out, a tenant whose row is there and is not disabled passes,
  -- and nothing changes.
  pub require-open :
      (valid : Text → Bool) (tk : Text) (id : ℕ) (db : Db) {app : LicenseApp}
      → ((n : ℕ) → env.up n ≡ true)
      → valid tk ≡ true
      → gate_of tk db.apps ≡ some app
      → app.disabled ≡ false
      → require sql env valid (some tk) id db ≡ (ok (record { tenant_key = tk; app = app }), db)
  unfolding require ensure_trusted open_gate prefer_app fallback_app
  require-open valid tk id db {app} up well_formed row enabled =
      ground (arith, get_app_for_tenant_lem sql (env.up 0) (env.up 1) tk db, up 0, up 1)

  -- One pass leads to the next: a caller that passes once passes again with the same row, whatever
  -- identifier the database would give a row now, and the second call changes nothing.
  pub require_again :
      (valid : Text → Bool) (tenant : Option Text) (id id' : ℕ) (db : Db) {caller : Caller}
      {db' : Db}
      → ((n : ℕ) → env.up n ≡ true)
      → require sql env valid tenant id db ≡ (ok caller, db')
      → require sql env valid tenant id' db' ≡ (ok caller, db')
  require_again valid tenant id id' db {caller} {db'} up h =
      let (tk, named, well_formed, passes, _) = require-Passes valid tenant id db h in
      let again = require-open valid tk id' db' up well_formed passes.row passes.enabled in
      let same : ◌≡◌ {A = Caller} (record { tenant_key = tk; app = caller.app }) caller =
        ground (arith, passes.tenant) in
      rw named (again ∙ ap (λ x. (ok x, db')) same)

  first-none_or :
      (p q : LicenseApp → Bool) (rs : List LicenseApp)
      → first p rs ≡ none
      → first q rs ≡ none
      → first (λ r. p r || q r) rs ≡ none
  unfolding first
  first-none_or p q [] h g = refl
  first-none_or p q (r ∷ rs) h g = ground (arith, first-none_or p q rs)

  fresh_row :
      (row : LicenseApp) (rs : List LicenseApp)
      → first (app_clashes row) rs ≡ none
      → append_unique (app_clashes row) row rs ≡ some (rs ++ row ∷ [])
  unfolding append_unique
  fresh_row row rs h = ground (arith, h)

  gate_row-fresh :
      (id c : ℕ) (key : Text) (rs : List LicenseApp)
      → first (has_app_key (c ∷ key)) rs ≡ none
      → first (has_tenant (c ∷ key)) rs ≡ none
      → first (app_clashes (gate_row sql env id (c ∷ key))) rs ≡ none
  unfolding gate_row str_eq
  gate_row-fresh id c key rs h g =
      first-none_or (has_app_key (c ∷ key)) (has_tenant (c ∷ key)) rs h g

  -- Where every statement is carried out, a tenant with a well-formed, non-empty key and no row
  -- passes at its first call, with a fresh row that is added behind the others.
  pub require_first :
      (valid : Text → Bool) (c : ℕ) (key : Text) (id : ℕ) (db : Db)
      → ((n : ℕ) → env.up n ≡ true)
      → valid (c ∷ key) ≡ true
      → gate_of (c ∷ key) db.apps ≡ none
      → require sql env valid (some (c ∷ key)) id db ≡ (
        ok (record { tenant_key = c ∷ key; app = gate_row sql env id (c ∷ key) }),
        record db { apps = db.apps ++ gate_row sql env id (c ∷ key) ∷ [] },
      )
  unfolding require ensure_trusted after_insert admit_again open_gate prefer_app fallback_app
      gate_row first str_eq
  require_first valid c key id db up well_formed missing =
      let tk = c ∷ key in
      let row = gate_row sql env id tk in
      let by_tenant : first (has_tenant tk) db.apps ≡ none = ground (arith, missing) in
      let by_key : first (has_app_key tk) db.apps ≡ none = ground (arith, missing) in
      let fresh : append_unique (app_clashes row) row db.apps ≡ some (db.apps ++ row ∷ []) =
        fresh_row row db.apps (gate_row-fresh id c key db.apps by_key by_tenant) in
      let db' : Db = record db { apps = db.apps ++ row ∷ [] } in
      let then_found : first (has_tenant tk) (db.apps ++ row ∷ []) ≡ some row =
        first-append (has_tenant tk) db.apps (row ∷ []) by_tenant
        ∙ ground (arith, str_eq_refl tk) in
      ground (
        arith,
        get_app_for_tenant_lem sql (env.up 0) (env.up 1) tk db,
        ensure_tenant_app_lem sql (env.up 2) row db,
        get_app_for_tenant_lem sql (env.up 3) (env.up 4) tk db',
        fresh,
        then_found,
        up 0,
        up 1,
        up 2,
        up 3,
        up 4,
      )
