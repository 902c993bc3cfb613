-- ===== src/Store/Atomic.antt =====
-- Transactions: all or nothing.
use license_service.Prelude.{
  ◌≡◌, sym, subst, inl, inr, Bool, true, false, arith, Option, none, some,
}
use license_service.Xcodes.{Result, ok, err, Error, Result-cases}
use license_service.Store.Models.{Db}
use license_service.Store.Reply.{transaction, internal, conclude}

module _ {A : Type 0} (begins commits : Bool) (body : Db → Result (A × Db)) (db : Db) where
  pub transaction-ok :
      {a : A} {db' : Db} → transaction begins commits body db ≡ (ok a, db') → body db ≡ ok (a, db')
  transaction-ok {a} {db'} e = ground arith

  pub transaction-err :
      (e : Error) {db' : Db} → transaction begins commits body db ≡ (err e, db') → db' ≡ db
  transaction-err e h = ground arith

pub internal-ok : {A : Type 0} (o : Option A) {a : A} → internal o ≡ ok a → o ≡ some a
internal-ok none e = ground arith
internal-ok (some x) e = ground arith

conclude_keeps :
    {A : Type 0} {db : Db} (P : Db → Type 0) (commits : Bool) (r : A × Db)
    → P db
    → P r.1
    → P (conclude commits db (ok r)).1
conclude_keeps P true r now after = after
conclude_keeps P false r now after = now

-- A transaction keeps what its body keeps where the body succeeds.
pub transaction-keeps :
    {A : Type 0} (P : Db → Type 0) (begins commits : Bool) (body : Db → Result (A × Db)) (db : Db)
    → P db
    → ((a : A) (db' : Db) → body db ≡ ok (a, db') → P db')
    → P (transaction begins commits body db).1
transaction-keeps P false commits body db now after = now
transaction-keeps {A} P true commits body db now after = elim (Result-cases (body db)) [
  | inr (e, failed) ↦ subst (λ r. P (conclude commits db r).1) (sym failed) now
  | inl (r, done) ↦
      let go : (c : Bool) → P (conclude c db (ok r)).1 =
        λ c. conclude_keeps P c r now (after r.0 r.1 done) in
      subst (λ x. P (conclude commits db x).1) (sym done) (go commits)
]

-- A check that ends a call with an error, or lets it go on.
abbrev pub guarded : {A B : Type 0} → Result A → (A → Result B × Db) → Db → Result B × Db
guarded r call db = elim r [ err e ↦ (err e, db) | ok a ↦ call a ]

-- What comes before a call, and ends it with an error, changes nothing.
pub guard-keeps :
    {A B : Type 0} (P : Db → Type 0) (r : Result A) (call : A → Result B × Db) (db : Db)
    → P db
    → ((a : A) → P (call a).1)
    → P (guarded r call db).1
guard-keeps P (err e) call db now after = now
guard-keeps P (ok a) call db now after = after a
