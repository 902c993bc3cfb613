-- ===== src/Store/Trial.antt =====
-- internal/store/dal/trial.go. The flag `up` says whether the statement is carried out.
use license_service.Prelude.{
  ◌≡◌, Bool, ◌&&◌, Text, str_eq, ℤ, eq_ℤ, leb_ℤ, List, Option, none, some,
}
use license_service.Store.Models.{Db, LicenseTrial}
use license_service.Store.Sql.{Sql, append_unique}
use license_service.Store.Reply.{Fetch, fetch, when}
use license_service.Store.Rows.{first, remove}

-- `Where(FingerprintID.Eq(fp))`
abbrev pub of_fingerprint : Text → LicenseTrial → Bool
of_fingerprint fp t = str_eq t.fingerprint_id fp

-- `Where(FingerprintID.Eq(fp)).Where(Module.Eq(m))`, also the unique index of the table.
abbrev pub is_trial : Text → ℤ → LicenseTrial → Bool
is_trial fp m t = str_eq t.fingerprint_id fp && eq_ℤ t.module_id m

-- What ON CONFLICT DO NOTHING leaves.
abbrev pub or_unchanged : List LicenseTrial → Option (List LicenseTrial) → List LicenseTrial
or_unchanged rs none = rs
or_unchanged rs (some rs') = rs'

module _ (sql : Sql) where
  unfoldable pub get_trial : Bool → Text → ℤ → Db → Fetch LicenseTrial
  get_trial up fp m db = fetch up (sql.take (is_trial fp m) db.trials)

  unfoldable pub insert_trial_on_conflict_do_nothing : Bool → LicenseTrial → Db → Option Db
  insert_trial_on_conflict_do_nothing up t db = when up (record db {
    trials =
        or_unchanged db.trials (sql.create (is_trial t.fingerprint_id t.module_id) t db.trials);
  })

  -- Ascending by module.
  unfoldable pub list_trials_by_fingerprint : Bool → Text → Db → Option (List LicenseTrial)
  list_trials_by_fingerprint up fp db =
      when up (sql.find (λ a b. leb_ℤ a.module_id b.module_id) (of_fingerprint fp) db.trials)

  unfoldable pub delete_trial : Bool → Text → ℤ → Db → Option Db
  delete_trial up fp m db = when up (record db { trials = sql.delete (is_trial fp m) db.trials })

  pub get_trial_lem :
      (up : Bool) (fp : Text) (m : ℤ) (db : Db)
      → get_trial up fp m db ≡ fetch up (first (is_trial fp m) db.trials)
  unfolding get_trial
  get_trial_lem up fp m db = rw sql.take_lem

  pub insert_trial_lem :
      (up : Bool) (t : LicenseTrial) (db : Db)
      → insert_trial_on_conflict_do_nothing up t db
        ≡ when up (record db {
          trials =
              or_unchanged db.trials
                (append_unique (is_trial t.fingerprint_id t.module_id) t db.trials);
        })
  unfolding insert_trial_on_conflict_do_nothing
  insert_trial_lem up t db = rw sql.create_lem

  pub delete_trial_lem :
      (up : Bool) (fp : Text) (m : ℤ) (db : Db)
      → delete_trial up fp m db ≡ when up (record db { trials = remove (is_trial fp m) db.trials })
  unfolding delete_trial
  delete_trial_lem up fp m db = rw sql.delete_lem
