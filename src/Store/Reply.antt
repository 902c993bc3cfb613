-- ===== src/Store/Reply.antt =====
-- How a statement comes back to internal/store/dal and its callers, and what a call meets outside
-- the program: the database's health, the clock, the rate limiter's answer, a fresh identifier.
use license_service.Prelude.{
  ℕ, ◌≡◌, refl, ◌⊎◌, inl, inr, Bool, true, false, Text, Option, none, some, if◌then◌else◌,
}
use license_service.Xcodes.{unwrapped, plain, Code, Result, ok, err}
use license_service.Store.Models.{Db, Time}

-- A `Take`: a row, gorm.ErrRecordNotFound, or another error.
pub data Fetch (A : Type 0) : Type 0 where
  found : A → Fetch A
  record_not_found : Fetch A
  failed : Fetch A

-- What the rate limiter answers to `Allow`, or that it is unavailable.
pub data LimitReply : Type 0 where
  allowed denied unavailable : LimitReply

pub record Env : Type 0 where
  -- Whether the n-th statement of the call is carried out.
  pub up : ℕ → Bool
  -- The reading of `time.Now()` at the n-th place of the code that makes one.
  pub clock : ℕ → Time
  -- What gorm writes into `CreatedAt`.
  pub stamp : Time
  -- `Allow(purpose, target)`.
  pub limit : Text → Text → LimitReply
  -- `uuid.NewString()`.
  pub uuid : Text

module _ {A : Type 0} where
  pub Fetch-cases :
      (r : Fetch A) → ((a : A) × (r ≡ found a)) ⊎ (r ≡ record_not_found) ⊎ (r ≡ failed)
  Fetch-cases (found a) = inl (a, refl)
  Fetch-cases record_not_found = inr (inl refl)
  Fetch-cases failed = inr (inr refl)

  abbrev pub fetch : Bool → Option A → Fetch A
  fetch true (some a) = found a
  fetch true none = record_not_found
  fetch false o = failed

  -- The value of a statement that is carried out.
  abbrev pub when : Bool → A → Option A
  when true a = some a
  when false a = none

  -- `xcodes.ErrInternal.Wrap`
  abbrev pub internal : Option A → Result A
  internal none = err (plain Code.internal)
  internal (some a) = ok a

  -- The end of `db.Transaction`: an error of the body, or a commit that is not carried out, rolls
  -- everything back.
  abbrev pub conclude : Bool → Db → Result (A × Db) → Result A × Db
  conclude commits db (err e) = (err e, db)
  conclude true db (ok (a, db')) = (ok a, db')
  conclude false db (ok (a, db')) = (err unwrapped, db)

  -- `db.Transaction(body)`: `begins` and `commits` say whether BEGIN and COMMIT are carried out.
  abbrev pub transaction : Bool → Bool → (Db → Result (A × Db)) → Db → Result A × Db
  transaction begins commits body db =
      if begins then conclude commits db (body db) else (err unwrapped, db)
