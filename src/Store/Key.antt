-- ===== src/Store/Key.antt =====
-- internal/store/dal/key.go. The flag `up` says whether the statement is carried out.
use license_service.Prelude.{
  ℕ, refl, ◌⊎◌, inl, inr, [], ◌∷◌, ◌++◌, arith, ◌≡◌, leb, Bool, ◌||◌, Text, codes, str_eq,
  has_prefix, ℤ, pos, eq_ℤ, List, Option, none, some, if◌then◌else◌, take,
}
use license_service.Store.Models.{Db, LicenseKey, Time}
use license_service.Store.Sql.{Sql, append_unique}
use license_service.Store.Reply.{Fetch, fetch, when}
use license_service.Store.Rows.{first, modify, remove}

-- `Where(KeyHash.Eq(h))`
abbrev pub has_hash : Text → LicenseKey → Bool
has_hash h k = str_eq k.key_hash h

-- `Where(LicenseID.Eq(id))`
abbrev pub has_license_id : Text → LicenseKey → Bool
has_license_id id k = str_eq k.license_id id

-- The rows that the unique indexes on `key_hash` and `license_id` do not admit beside `k`.
abbrev pub clashes : LicenseKey → LicenseKey → Bool
clashes k r = has_hash k.key_hash r || has_license_id k.license_id r

-- `CreateKey`: the row, a unique violation (SQLSTATE 23505), or another error.
pub data Created : Type 0 where
  created : Db → Created
  unique_violation : Created
  failed : Created

pub Created-cases :
    (r : Created) → ((db : Db) × (r ≡ created db)) ⊎ (r ≡ unique_violation) ⊎ (r ≡ failed)
Created-cases (created db) = inl (db, refl)
Created-cases unique_violation = inr (inl refl)
Created-cases failed = inr (inr refl)

module _ (sql : Sql) where
  unfoldable pub create_key : Bool → LicenseKey → Db → Created
  create_key up k db =
      if up
      then elim (sql.create (clashes k) k db.keys) [
        | none ↦ unique_violation
        | some ks ↦ created (record db { keys = ks })
      ]
      else failed

  unfoldable pub get_key_by_key_hash : Bool → Text → Db → Fetch LicenseKey
  get_key_by_key_hash up h db = fetch up (sql.take (has_hash h) db.keys)

  -- With the row locked: transactions on one key run one after another.
  unfoldable pub get_key_for_update : Bool → Text → Db → Fetch LicenseKey
  get_key_for_update up h db = fetch up (sql.take (has_hash h) db.keys)

  -- "lk_…" is a license id, anything else a full hash.
  unfoldable pub get_key_by_id_or_hash : Bool → Text → Db → Fetch LicenseKey
  get_key_by_id_or_hash up id db =
      fetch up
        (sql.take (if has_prefix id (codes "lk_") then has_license_id id else has_hash id) db.keys)

  -- Newest first; status 0 is every status.
  unfoldable pub list_keys : Bool → ℤ → ℕ → Db → Option (List LicenseKey)
  list_keys up status limit db = when up (
      take limit (
        sql.find (λ a b. leb b.created_at a.created_at)
          (λ k. eq_ℤ status (pos 0) || eq_ℤ k.status status) db.keys))

  unfoldable pub update_key_label : Bool → Text → Text → Db → Option Db
  update_key_label up h label db =
      when up
        (record db { keys = sql.update (has_hash h) (λ k. record k { label = label }) db.keys })

  unfoldable pub update_key_slots : Bool → Text → ℤ → Db → Option Db
  update_key_slots up h slots db =
      when up
        (record db { keys = sql.update (has_hash h) (λ k. record k { max_slots = slots }) db.keys })

  unfoldable pub set_key_status : Bool → Text → ℤ → Option Time → Db → Option Db
  set_key_status up h status at db = when up (record db {
    keys = sql.update (has_hash h) (λ k. record k { status = status; revoked_at = at }) db.keys;
  })

  unfoldable pub delete_key : Bool → Text → Db → Option Db
  delete_key up h db = when up (record db { keys = sql.delete (has_hash h) db.keys })

  -- The same on the list of rows.
  pub get_key_lem :
      (up : Bool) (h : Text) (db : Db)
      → get_key_by_key_hash up h db ≡ fetch up (first (has_hash h) db.keys)
  unfolding get_key_by_key_hash
  get_key_lem up h db = rw sql.take_lem

  pub get_key_for_update_lem :
      (up : Bool) (h : Text) (db : Db)
      → get_key_for_update up h db ≡ fetch up (first (has_hash h) db.keys)
  unfolding get_key_for_update
  get_key_for_update_lem up h db = rw sql.take_lem

  pub get_key_by_id_or_hash_lem :
      (up : Bool) (id : Text) (db : Db)
      → get_key_by_id_or_hash up id db
        ≡ fetch up
            (first (if has_prefix id (codes "lk_") then has_license_id id else has_hash id) db.keys)
  unfolding get_key_by_id_or_hash
  get_key_by_id_or_hash_lem up id db = rw sql.take_lem

  pub set_key_status_lem :
      (up : Bool) (h : Text) (status : ℤ) (at : Option Time) (db : Db)
      → set_key_status up h status at db
        ≡ when up (record db {
          keys = modify (has_hash h) (λ k. record k { status = status; revoked_at = at }) db.keys;
        })
  unfolding set_key_status
  set_key_status_lem up h status at db = rw sql.update_lem

  pub update_key_label_lem :
      (up : Bool) (h label : Text) (db : Db)
      → update_key_label up h label db
        ≡ when up
            (record db { keys = modify (has_hash h) (λ k. record k { label = label }) db.keys })
  unfolding update_key_label
  update_key_label_lem up h label db = rw sql.update_lem

  pub update_key_slots_lem :
      (up : Bool) (h : Text) (slots : ℤ) (db : Db)
      → update_key_slots up h slots db
        ≡ when up
            (record db { keys = modify (has_hash h) (λ k. record k { max_slots = slots }) db.keys })
  unfolding update_key_slots
  update_key_slots_lem up h slots db = rw sql.update_lem

  pub delete_key_lem :
      (up : Bool) (h : Text) (db : Db)
      → delete_key up h db ≡ when up (record db { keys = remove (has_hash h) db.keys })
  unfolding delete_key
  delete_key_lem up h db = rw sql.delete_lem

  pub create_key-created :
      (up : Bool) (k : LicenseKey) (db : Db) {db' : Db}
      → create_key up k db ≡ created db'
      → db' ≡ record db { keys = db.keys ++ k ∷ [] }
  unfolding create_key append_unique
  create_key-created up k db {db'} h = ground (arith, sql.create_lem (clashes k) k db.keys)
