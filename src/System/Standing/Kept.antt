-- ===== src/System/Standing/Kept.antt =====
-- What a change of the table of keys leaves of a revocation.
use license_service.Prelude.{
  eq_ℤ, ◌≡◌, refl, ◌∙◌, ap, Bool, true, false, Text, List, ◌++◌, arith, inl, inr, Bool-cases,
  str_eq, str_eq_iff,
}
use license_service.Store.Models.{Db, LicenseKey}
use license_service.Store.Rows.{
  first, modify, remove, first-modify, first-satisfies, first-append-some, first-remove_apart,
}
use license_service.Store.Key.{has_hash}
use license_service.Activation.Handlers.{status_revoked}
use license_service.System.Deletion.{other_hash}
use license_service.System.Standing.{Banned}

-- A change that does not lift the revocation of the row of the key.
pub modified-Banned :
    (h : Text) (q : LicenseKey → Bool) (f : LicenseKey → LicenseKey) (db : Db)
    → ((r : LicenseKey) → has_hash h (f r) ≡ has_hash h r)
    → ((r : LicenseKey)
        → has_hash h r ≡ true
        → q r ≡ true
        → eq_ℤ r.status status_revoked ≡ true
        → eq_ℤ (f r).status status_revoked ≡ true)
    → Banned h db
    → Banned h (record db { keys = modify q f db.keys })
modified-Banned h q f db kept stays (k, row, banned) =
    let changed = first-modify (has_hash h) q f db.keys kept row in
    let mine = first-satisfies (has_hash h) db.keys row in
    elim (Bool-cases (q k)) [
      | inl hit ↦ (f k, changed ∙ rw hit refl, stays k mine hit banned)
      | inr missed ↦ (k, changed ∙ rw missed refl, banned)
    ]

pub SameKeys-Banned : (h : Text) (db db' : Db) → db'.keys ≡ db.keys → Banned h db → Banned h db'
SameKeys-Banned h db db' same (k, row, banned) = (k, ap (first (has_hash h)) same ∙ row, banned)

pub appended-Banned :
    (h : Text) (db db' : Db) (ks : List LicenseKey)
    → db'.keys ≡ db.keys ++ ks
    → Banned h db
    → Banned h db'
appended-Banned h db db' ks more (k, row, banned) =
    (k, ap (first (has_hash h)) more ∙ first-append-some (has_hash h) db.keys ks row, banned)

pub removed-Banned :
    (h g : Text) (db db' : Db)
    → str_eq g h ≡ false
    → db'.keys ≡ remove (has_hash g) db.keys
    → Banned h db
    → Banned h db'
removed-Banned h g db db' apart less (k, row, banned) = (
  k,
  ap (first (has_hash h)) less
      ∙ first-remove_apart (has_hash h) (has_hash g) db.keys
          (λ x mine. other_hash h g (ground (arith, str_eq_iff g h, str_eq_iff h g, apart)) x mine)
          row,
  banned,
)
