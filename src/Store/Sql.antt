-- ===== src/Store/Sql.antt =====
-- The statements that internal/store/dal hands to gorm, as an interface: gorm and PostgreSQL are
-- not part of the repository. A table is the list of its rows; the laws state what the statements
-- are documented to do. A statement that is not carried out is `broken` in Store/Reply.
use license_service.Prelude.{ℕ, ◌≡◌, Bool, List, [], ◌∷◌, ◌++◌, Option, none, some}
use license_service.Store.Rows.{first, keep, remove, modify, count}

-- A new row, behind the others; `none` where a unique index refuses it.
unfoldable pub append_unique : {A : Type 0} → (A → Bool) → A → List A → Option (List A)
append_unique clashes r rs = elim (first clashes rs) [ none ↦ some (rs ++ r ∷ []) | some _ ↦ none ]

pub record Sql : Type 1 where
  -- `Where(p).Take`: `none` is gorm.ErrRecordNotFound.
  pub take : {A : Type 0} → (A → Bool) → List A → Option A
  -- `Where(p).Order(key).Find`: the rows that satisfy `p`, ordered by `le`.
  pub find : {A : Type 0} → (A → A → Bool) → (A → Bool) → List A → List A
  -- `Where(p).Count`.
  pub count_where : {A : Type 0} → (A → Bool) → List A → ℕ
  -- `Create(r)`, under unique indexes: the rows that clash with `r` are those of the first argument.
  pub create : {A : Type 0} → (A → Bool) → A → List A → Option (List A)
  -- `Where(p).Updates`.
  pub update : {A : Type 0} → (A → Bool) → (A → A) → List A → List A
  -- `Where(p).Delete`.
  pub delete : {A : Type 0} → (A → Bool) → List A → List A
  pub take_lem : {A : Type 0} (p : A → Bool) (rs : List A) → take p rs ≡ first p rs
  -- The same rows as those that satisfy `p`, each as often.
  pub count-find :
      {A : Type 0} (q : A → Bool) (le : A → A → Bool) (p : A → Bool) (rs : List A)
      → count q (find le p rs) ≡ count q (keep p rs)
  pub count_where_lem : {A : Type 0} (p : A → Bool) (rs : List A) → count_where p rs ≡ count p rs
  pub create_lem :
      {A : Type 0} (clashes : A → Bool) (r : A) (rs : List A)
      → create clashes r rs ≡ append_unique clashes r rs
  pub update_lem :
      {A : Type 0} (p : A → Bool) (f : A → A) (rs : List A) → update p f rs ≡ modify p f rs
  pub delete_lem : {A : Type 0} (p : A → Bool) (rs : List A) → delete p rs ≡ remove p rs
