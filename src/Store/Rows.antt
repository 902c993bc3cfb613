-- ===== src/Store/Rows.antt =====
-- What the statements of the store mean on the rows of one table, with the laws of counting.
use license_service.Prelude.{
  ℕ, ◌+◌, ◌≤◌, ◌<◌, ◌≡◌, refl, Bool, true, false, List, [], ◌∷◌, ◌++◌, Option, none, some, arith,
  if◌then◌else◌, length, Bool-cases, inl, inr,
}

module _ {A : Type 0} where
  unfoldable pub first : (A → Bool) → List A → Option A
  first p [] = none
  first p (r ∷ rs) = if p r then some r else first p rs

  abbrev pub or_else : Option A → Option A → Option A
  or_else none o = o
  or_else (some r) o = some r

  -- The last row that passes a test.
  unfoldable pub latest : (A → Bool) → List A → Option A
  latest p [] = none
  latest p (r ∷ rs) = or_else (latest p rs) (if p r then some r else none)

  unfoldable pub keep : (A → Bool) → List A → List A
  keep p [] = []
  keep p (r ∷ rs) = let rest = keep p rs in if p r then r ∷ rest else rest

  unfoldable pub remove : (A → Bool) → List A → List A
  remove p [] = []
  remove p (r ∷ rs) = let rest = remove p rs in if p r then rest else r ∷ rest

  unfoldable pub modify : (A → Bool) → (A → A) → List A → List A
  modify p f [] = []
  modify p f (r ∷ rs) = (if p r then f r else r) ∷ modify p f rs

  unfoldable pub count : (A → Bool) → List A → ℕ
  count p [] = 0
  count p (r ∷ rs) = (if p r then 1 else 0) + count p rs

  pub first-satisfies : (p : A → Bool) (rs : List A) {r : A} → first p rs ≡ some r → p r ≡ true
  unfolding first
  first-satisfies p [] h = cc
  first-satisfies p (x ∷ rs) {r} h = ground (arith, first-satisfies p rs {r = r})

  pub count-first-none : (p : A → Bool) (rs : List A) → first p rs ≡ none → count p rs ≡ 0
  unfolding first count
  count-first-none p [] h = refl
  count-first-none p (x ∷ rs) h = ground (arith, count-first-none p rs)

  pub count-first-some : (p : A → Bool) (rs : List A) {r : A} → first p rs ≡ some r → 0 < count p rs
  unfolding first count
  count-first-some p [] h = cc
  count-first-some p (x ∷ rs) {r} h = ground (arith, count-first-some p rs {r = r})

  pub first-counted :
      (p q : A → Bool) (rs : List A) {r : A} → first p rs ≡ some r → q r ≡ true → 0 < count q rs
  unfolding first count
  first-counted p q [] h g = absurd cc
  first-counted p q (x ∷ rs) {r} h g = ground (arith, first-counted p q rs {r = r})

  pub first-none-count : (p : A → Bool) (rs : List A) → count p rs ≡ 0 → first p rs ≡ none
  unfolding first count
  first-none-count p [] h = refl
  first-none-count p (x ∷ rs) h = ground (arith, first-none-count p rs)

  pub length-keep : (p : A → Bool) (rs : List A) → length (keep p rs) ≡ count p rs
  unfolding keep count
  length-keep p [] = refl
  length-keep p (x ∷ rs) = ground (arith, length-keep p rs)

  pub count-append : (p : A → Bool) (rs ss : List A) → count p (rs ++ ss) ≡ count p rs + count p ss
  unfolding count
  count-append p [] ss = omega arith
  count-append p (x ∷ rs) ss = omega (arith, count-append p rs ss)

  pub first-append :
      (p : A → Bool) (rs ss : List A) → first p rs ≡ none → first p (rs ++ ss) ≡ first p ss
  unfolding first
  first-append p [] ss h = refl
  first-append p (x ∷ rs) ss h = ground (arith, first-append p rs ss)

  pub first-append-some :
      (p : A → Bool) (rs ss : List A) {r : A} → first p rs ≡ some r → first p (rs ++ ss) ≡ some r
  unfolding first
  first-append-some p [] ss e = absurd cc
  first-append-some p (x ∷ rs) ss {r} e = ground (arith, first-append-some p rs ss {r = r})

  -- The removal of rows that fail a test leaves the first row that passes it in its place.
  pub first-remove_apart :
      (p q : A → Bool) (rs : List A) {r : A}
      → ((x : A) → p x ≡ true → q x ≡ false)
      → first p rs ≡ some r
      → first p (remove q rs) ≡ some r
  unfolding first remove
  first-remove_apart p q [] h e = absurd cc
  first-remove_apart p q (x ∷ rs) {r} h e = ground (arith, h x, first-remove_apart p q rs {r = r} h)

  -- Removal takes away exactly the rows that pass its test.
  pub count-remove_self : (p : A → Bool) (rs : List A) → count p (remove p rs) ≡ 0
  unfolding remove count
  count-remove_self p [] = refl
  count-remove_self p (x ∷ rs) = ground (arith, count-remove_self p rs)

  pub remove-remove : (p : A → Bool) (rs : List A) → remove p (remove p rs) ≡ remove p rs
  unfolding remove
  remove-remove p [] = refl
  remove-remove p (x ∷ rs) = ground (arith, remove-remove p rs)

  pub count-remove_le : (q p : A → Bool) (rs : List A) → count q (remove p rs) ≤ count q rs
  unfolding remove count
  count-remove_le q p [] = omega arith
  count-remove_le q p (x ∷ rs) = ground (arith, count-remove_le q p rs)

  pub count-remove_within :
      (q p : A → Bool) (rs : List A)
      → ((r : A) → p r ≡ true → q r ≡ true)
      → count q (remove p rs) + count p rs ≡ count q rs
  unfolding remove count
  count-remove_within q p [] h = omega arith
  count-remove_within q p (x ∷ rs) h = ground (arith, h x, count-remove_within q p rs h)

  pub count-remove_apart :
      (q p : A → Bool) (rs : List A)
      → ((r : A) → p r ≡ true → q r ≡ false)
      → count q (remove p rs) ≡ count q rs
  unfolding remove count
  count-remove_apart q p [] h = omega arith
  count-remove_apart q p (x ∷ rs) h = ground (arith, h x, count-remove_apart q p rs h)

  pub count-modify :
      (q p : A → Bool) (f : A → A) (rs : List A)
      → ((r : A) → p r ≡ true → q (f r) ≡ q r)
      → count q (modify p f rs) ≡ count q rs
  unfolding modify count
  count-modify q p f [] h = omega arith
  count-modify q p f (x ∷ rs) h = ground (arith, h x, count-modify q p f rs h)

  pub count-modify_le :
      (q p : A → Bool) (f : A → A) (rs : List A)
      → ((r : A) → q (f r) ≡ true → q r ≡ true)
      → count q (modify p f rs) ≤ count q rs
  unfolding modify count
  count-modify_le q p f [] h = omega arith
  count-modify_le q p f (x ∷ rs) h = ground (arith, h x, count-modify_le q p f rs h)

  -- An update of rows that keeps a test leaves the first row that passes it in its place.
  pub first-modify :
      (p q : A → Bool) (f : A → A) (rs : List A) {r : A}
      → ((r : A) → p (f r) ≡ p r)
      → first p rs ≡ some r
      → first p (modify q f rs) ≡ some (if q r then f r else r)
  unfolding first modify
  first-modify p q f [] h e = absurd cc
  first-modify p q f (x ∷ rs) {r} h e =
      let kept : p (if q x then f x else x) ≡ p x = elim (Bool-cases (q x)) [
        | inl hit ↦ rw hit (h x)
        | inr missed ↦ rw missed refl
      ] in
      ground (arith, kept, first-modify p q f rs {r = r} h)

  pub first-modify-none :
      (p q : A → Bool) (f : A → A) (rs : List A)
      → ((r : A) → p (f r) ≡ p r)
      → first p rs ≡ none
      → first p (modify q f rs) ≡ none
  unfolding first modify
  first-modify-none p q f [] h e = refl
  first-modify-none p q f (x ∷ rs) h e =
      let kept : p (if q x then f x else x) ≡ p x = elim (Bool-cases (q x)) [
        | inl hit ↦ rw hit (h x)
        | inr missed ↦ rw missed refl
      ] in
      ground (arith, kept, first-modify-none p q f rs h)

  -- An update that overwrites what another one has written.
  pub modify-modify :
      (q : A → Bool) (f g : A → A) (rs : List A)
      → ((r : A) → q (f r) ≡ q r)
      → ((r : A) → g (f r) ≡ g r)
      → modify q g (modify q f rs) ≡ modify q g rs
  unfolding modify
  modify-modify q f g [] h over = refl
  modify-modify q f g (x ∷ rs) h over = ground (arith, h x, over x, modify-modify q f g rs h over)

  pub remove-modify :
      (p : A → Bool) (f : A → A) (rs : List A)
      → ((r : A) → p (f r) ≡ p r)
      → remove p (modify p f rs) ≡ remove p rs
  unfolding remove modify
  remove-modify p f [] h = refl
  remove-modify p f (x ∷ rs) h = ground (arith, h x, remove-modify p f rs h)

  pub remove-append :
      (p : A → Bool) (rs : List A) (x : A) → p x ≡ true → remove p (rs ++ x ∷ []) ≡ remove p rs
  unfolding remove
  remove-append p [] x h = ground (arith, h)
  remove-append p (r ∷ rs) x h = ground (arith, remove-append p rs x h)

  pub count_mono :
      (p q : A → Bool) (rs : List A) → ((r : A) → p r ≡ true → q r ≡ true) → count p rs ≤ count q rs
  unfolding count
  count_mono p q [] h = omega arith
  count_mono p q (x ∷ rs) h = ground (arith, h x, count_mono p q rs h)

  pub count-keep : (q p : A → Bool) (rs : List A) → count q (keep p rs) ≤ count q rs
  unfolding keep count
  count-keep q p [] = omega arith
  count-keep q p (x ∷ rs) = ground (arith, count-keep q p rs)
