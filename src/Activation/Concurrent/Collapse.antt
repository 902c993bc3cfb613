-- ===== src/Activation/Concurrent/Collapse.antt =====
-- Starts of one trial that race: ON CONFLICT DO NOTHING and the second lookup of `TrialStart`.
use license_service.Prelude.{
  ℕ, ◌≤◌, ◌≡◌, sym, ◌∙◌, ap, Bool, true, false, Text, [], ◌∷◌, ◌++◌, none, some, arith, ℤ, inl, inr,
  Option-cases, Option, List, refl, str_eq_refl, eq_ℤ_iff,
}
use license_service.Xcodes.{ok, bind-cases, ok-injective}
use license_service.Store.Models.{Db, LicenseTrial}
use license_service.Store.Rows.{
  first, first-append, count, count-append, count-first-none, count-first-some,
}
use license_service.Store.Sql.{append_unique}
use license_service.Store.Reply.{Env, Fetch-cases, internal}
use license_service.Store.Trial.{
  is_trial, get_trial, get_trial_lem, insert_trial_on_conflict_do_nothing, insert_trial_lem,
}
use license_service.Activation.Service.{Deps, Service}
use license_service.Activation.Handlers.{TrialStartRequest, first_trial, reread}
use license_service.Activation.Handlers.Ledger.{trial_of, started_now}
use license_service.Activation.Concurrent.{ledger_among}

-- Nobody else breaks the unique index of license_trials.
abbrev pub Indexed : Text → ℤ → (ℕ → Db → Db) → Type 0
Indexed fp m others =
    (n : ℕ) (db : Db)
    → count (trial_of fp m) db.trials ≤ 1
    → count (trial_of fp m) (others n db).trials ≤ 1

-- Nobody else takes the trial's row away or changes it: the others are starts, not resets.
abbrev pub OnlyStarts : Text → ℤ → (ℕ → Db → Db) → Type 0
OnlyStarts fp m others =
    (n : ℕ) (db : Db) (t : LicenseTrial)
    → first (trial_of fp m) db.trials ≡ some t
    → first (trial_of fp m) (others n db).trials ≡ some t

-- The answered row was there at the first lookup; or another start has put it there by the insert, and
-- nothing is written; or this start is the first, and its fresh row is added and answered. Each time
-- with what others do then.
pub data Collapses (fp : Text) (m : ℤ) (fresh : LicenseTrial) (others : ℕ → Db → Db) (db db' : Db)
    (row : LicenseTrial) (already : Bool) : Type 0 where
  resumed :
      first (trial_of fp m) (others 7 db).trials ≡ some row
      → db' ≡ others 7 db
      → already ≡ true
      → Collapses fp m fresh others db db' row already
  outrun :
      first (trial_of fp m) (others 7 db).trials ≡ none
      → first (trial_of fp m) (others 8 (others 7 db)).trials ≡ some row
      → db' ≡ others 9 (others 8 (others 7 db))
      → already ≡ false
      → Collapses fp m fresh others db db' row already
  began :
      first (trial_of fp m) (others 7 db).trials ≡ none
      → first (trial_of fp m) (others 8 (others 7 db)).trials ≡ none
      → db'
        ≡ others 9 (record (others 8 (others 7 db)) {
          trials = (others 8 (others 7 db)).trials ++ fresh ∷ [];
        })
      → row ≡ fresh
      → already ≡ false
      → Collapses fp m fresh others db db' row already

first_same : {t r : LicenseTrial} (o : Option LicenseTrial) → o ≡ some t → o ≡ some r → t ≡ r
first_same {t} {r} o e g = ground (arith, e, g)

module _ (d : Deps) (s : Service d) (env : Env) (others : ℕ → Db → Db) where
  open d use {sql}

  -- The insert, on whether a row is there.
  inserted_there :
      (up : Bool) (t : LicenseTrial) (db : Db) {there : LicenseTrial} {db' : Db}
      → first (is_trial t.fingerprint_id t.module_id) db.trials ≡ some there
      → internal (insert_trial_on_conflict_do_nothing sql up t db) ≡ ok db'
      → db' ≡ db
  unfolding append_unique
  inserted_there up t db {there} {db'} held e =
      ground (arith, e, insert_trial_lem sql up t db, held)

  inserted_missing :
      (up : Bool) (t : LicenseTrial) (db : Db) {db' : Db}
      → first (is_trial t.fingerprint_id t.module_id) db.trials ≡ none
      → internal (insert_trial_on_conflict_do_nothing sql up t db) ≡ ok db'
      → db' ≡ record db { trials = db.trials ++ t ∷ [] }
  unfolding append_unique
  inserted_missing up t db {db'} missing e =
      ground (arith, e, insert_trial_lem sql up t db, missing)

  reread_inv :
      (fp : Text) (m : ℤ) (db : Db) {row : LicenseTrial} {already : Bool} {db' : Db}
      → reread d s env (get_trial sql (env.up 9) fp m db) db ≡ ok (row, already, db')
      → (already ≡ false) × (db' ≡ db) × (first (is_trial fp m) db.trials ≡ some row)
  unfolding reread
  reread_inv fp m db {row} {already} {db'} e =
      elim (Fetch-cases (get_trial sql (env.up 9) fp m db)) [
        | inl (t, there) ↦
            let told : (t, false, db) ≡ (row, already, db') =
              ok-injective (ap (λ r. reread d s env r db) (sym there) ∙ e) in
            (
              sym (ap (λ r. r.1) told),
              sym (ap (λ r. r.2) told),
              ground (arith, there, get_trial_lem sql (env.up 9) fp m db, ap (λ r. r.0) told),
            )
        | inr (inl missing) ↦ absurd (ground (arith, missing, e))
        | inr (inr broken) ↦ absurd (ground (arith, broken, e))
      ]

  own_row :
      (m : ℤ) (req : TrialStartRequest) (rows : List LicenseTrial)
      → let fresh = started_now env req.fingerprint_id req.device_token m in
        first (is_trial req.fingerprint_id m) rows ≡ none
        → first (is_trial req.fingerprint_id m) (rows ++ fresh ∷ []) ≡ some fresh
  unfolding first
  own_row m req rows missing =
      let fresh = started_now env req.fingerprint_id req.device_token m in
      ground (
        arith,
        first-append (is_trial req.fingerprint_id m) rows (fresh ∷ []) missing,
        str_eq_refl req.fingerprint_id,
        (eq_ℤ_iff m m).1 refl,
      )

  written :
      (m : ℤ) (req : TrialStartRequest) (db : Db) {db₁ db' : Db} {row : LicenseTrial}
      {already : Bool}
      → OnlyStarts req.fingerprint_id m others
      → first (is_trial req.fingerprint_id m) (others 7 db).trials ≡ none
      → internal (
          insert_trial_on_conflict_do_nothing sql
            (env.up 8)
            (first_trial d s env m req)
            (others 8 (others 7 db)))
        ≡ ok db₁
      → db' ≡ others 9 db₁
      → first (is_trial req.fingerprint_id m) (others 9 db₁).trials ≡ some row
      → already ≡ false
      → Collapses req.fingerprint_id m
          (started_now env req.fingerprint_id req.device_token m)
          others
          db
          db'
          row
          already
  unfolding first_trial
  written m req db {db₁} {db'} {row} starts lacks inserted end there fresh =
      let fp = req.fingerprint_id in
      let seen = others 8 (others 7 db) in
      elim (Option-cases (first (is_trial fp m) seen.trials)) [
        | inl missing ↦
            let made =
              inserted_missing (env.up 8) (first_trial d s env m req) seen missing inserted in
            let added : first (is_trial fp m) db₁.trials
                ≡ some (started_now env fp req.device_token m) =
              ap (λ x. first (is_trial fp m) x.trials) made ∙ own_row m req seen.trials missing in
            began lacks missing (end ∙ ap (others 9) made)
              (first_same (first (is_trial fp m) (others 9 db₁).trials) there
                (starts 9 db₁ (started_now env fp req.device_token m) added))
              fresh
        | inr (t, held) ↦
            let same = inserted_there (env.up 8) (first_trial d s env m req) seen held inserted in
            let kept : first (is_trial fp m) (others 9 db₁).trials ≡ some t =
              starts 9 db₁ t (ap (λ x. first (is_trial fp m) x.trials) same ∙ held) in
            let one : t ≡ row =
              first_same (first (is_trial fp m) (others 9 db₁).trials) kept there in
            outrun lacks (held ∙ ap some one) (end ∙ ap (others 9) same) fresh
      ]

  pub ledger_among-Collapses :
      (m : ℤ) (req : TrialStartRequest) (db : Db) {row : LicenseTrial} {already : Bool} {db' : Db}
      → OnlyStarts req.fingerprint_id m others
      → ledger_among d s env others m req db ≡ ok (row, already, db')
      → Collapses req.fingerprint_id m
          (started_now env req.fingerprint_id req.device_token m)
          others
          db
          db'
          row
          already
        × (first (is_trial req.fingerprint_id m) db'.trials ≡ some row)
  unfolding ledger_among
  ledger_among-Collapses m req db {row} {already} {db'} starts e =
      let fp = req.fingerprint_id in
      let looked = get_trial_lem sql (env.up 7) fp m (others 7 db) in
      elim (Fetch-cases (get_trial sql (env.up 7) fp m (others 7 db))) [
        | inl (t, there) ↦
            let held : first (is_trial fp m) (others 7 db).trials ≡ some t =
              ground (arith, there, looked) in
            let told : (t, true, others 7 db) ≡ (row, already, db') =
              ok-injective (rw (there, ledger_among) at e) in
            let seen : db' ≡ others 7 db = sym (ap (λ r. r.2) told) in
            (
              resumed (held ∙ ap (λ r. some r.0) told) seen (sym (ap (λ r. r.1) told)),
              rw seen (held ∙ ap (λ r. some r.0) told),
            )
        | inr (inl missing) ↦
            let lacks : first (is_trial fp m) (others 7 db).trials ≡ none =
              ground (arith, missing, looked) in
            let seen = others 8 (others 7 db) in
            bind-cases
              (internal (
                insert_trial_on_conflict_do_nothing sql (env.up 8) (first_trial d s env m req)
                  seen))
              _ (rw (missing, ledger_among) at e)
              λ db₁ inserted e₁.
                let told = reread_inv fp m (others 9 db₁) e₁ in
                (written m req db starts lacks inserted told.1 told.2 told.0, rw told.1 told.2)
        | inr (inr broken) ↦ absurd (ground (arith, broken))
      ]

  Collapses-le :
      (m : ℤ) (req : TrialStartRequest) (db : Db) {db' : Db} {row : LicenseTrial} {already : Bool}
      → count (is_trial req.fingerprint_id m) db.trials ≤ 1
      → Indexed req.fingerprint_id m others
      → Collapses req.fingerprint_id m
          (started_now env req.fingerprint_id req.device_token m)
          others
          db
          db'
          row
          already
      → count (is_trial req.fingerprint_id m) db'.trials ≤ 1
  unfolding count
  Collapses-le m req db single index (resumed held seen _) = rw seen (index 7 db single)
  Collapses-le m req db single index (outrun lacks held seen _) =
      rw seen (index 9 _ (index 8 _ (index 7 db single)))
  Collapses-le m req db single index (began lacks missing seen _ _) =
      let fp = req.fingerprint_id in
      let before = (others 8 (others 7 db)).trials in
      let grown : count (is_trial fp m) (before ++ started_now env fp req.device_token m ∷ []) ≤ 1 =
        ground (
          arith,
          count-append (is_trial fp m) before (started_now env fp req.device_token m ∷ []),
          count-first-none (is_trial fp m) before missing,
        ) in
      rw seen (index 9 _ grown)

  -- In a ledger that obeys its unique index, and however other commits interleave with a start of a
  -- trial that obey the index too and leave a row of the trial as it is, if the start succeeds then
  -- the ledger has one row of the fingerprint and the module, and it answers with that row: one
  -- that was there at its first lookup, which it reports as already started; or one that another
  -- start has added by its insert, which then writes nothing, and which it reports as not started
  -- before, against what TestTrialConcurrentStart and the design document ask for; or else its own,
  -- started now by the caller's device, behind the others.
  pub ledger_among-one :
      (m : ℤ) (req : TrialStartRequest) (db : Db) {row : LicenseTrial} {already : Bool} {db' : Db}
      → count (trial_of req.fingerprint_id m) db.trials ≤ 1
      → Indexed req.fingerprint_id m others
      → OnlyStarts req.fingerprint_id m others
      → ledger_among d s env others m req db ≡ ok (row, already, db')
      → Collapses req.fingerprint_id m
          (started_now env req.fingerprint_id req.device_token m)
          others
          db
          db'
          row
          already
        × (first (trial_of req.fingerprint_id m) db'.trials ≡ some row)
        × (count (trial_of req.fingerprint_id m) db'.trials ≡ 1)
  ledger_among-one m req db {row} {already} {db'} single index starts e =
      let fp = req.fingerprint_id in
      let (how, there) = ledger_among-Collapses m req db starts e in
      (
        how,
        there,
        omega (
          arith,
          Collapses-le m req db single index how,
          count-first-some (is_trial fp m) db'.trials there,
        ),
      )
