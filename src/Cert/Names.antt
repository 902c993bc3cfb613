-- ===== src/Cert/Names.antt =====
-- The names of a Go map's entries: each stands there once, sorted or not.
use license_service.Prelude.{
  ◌≡◌, refl, ◌∙◌, ap, Bool, true, false, not, ◌&&◌, Text, str_eq, str_eq_iff, List, [], ◌∷◌, ◌++◌,
  arith,
}
use license_service.Cert.Canonical.{insert_sorted, sort_strings}
use license_service.Cert.Canonical.Order.{insert-insert}

abbrev pub absent : Text → List Text → Bool
absent k [] = true
absent k (x ∷ xs) = not (str_eq x k) && absent k xs

abbrev pub distinct : List Text → Bool
distinct [] = true
distinct (x ∷ xs) = absent x xs && distinct xs

absent-insert :
    (k x : Text) (xs : List Text)
    → absent k (insert_sorted x xs) ≡ (not (str_eq x k) && absent k xs)
unfolding insert_sorted
absent-insert k x [] = refl
absent-insert k x (y ∷ ys) = ground (arith, absent-insert k x ys)

pub absent-sort : (k : Text) (xs : List Text) → absent k (sort_strings xs) ≡ absent k xs
unfolding sort_strings
absent-sort k [] = refl
absent-sort k (x ∷ xs) = ground (arith, absent-insert k x (sort_strings xs), absent-sort k xs)

str_eq_sym : (a b : Text) → str_eq a b ≡ str_eq b a
str_eq_sym a b = ground (arith, str_eq_iff a b, str_eq_iff b a)

distinct-insert :
    (x : Text) (xs : List Text) → distinct (insert_sorted x xs) ≡ (absent x xs && distinct xs)
unfolding insert_sorted
distinct-insert x [] = refl
distinct-insert x (y ∷ ys) =
    ground (arith, distinct-insert x ys, absent-insert y x ys, str_eq_sym x y)

pub distinct-sort : (xs : List Text) → distinct (sort_strings xs) ≡ distinct xs
unfolding sort_strings
distinct-sort [] = refl
distinct-sort (x ∷ xs) =
    ground (arith, distinct-insert x (sort_strings xs), absent-sort x xs, distinct-sort xs)

-- A name that comes behind others is none of them.
pub distinct-absent :
    (xs : List Text) (m : Text) (ms : List Text)
    → distinct (xs ++ m ∷ ms) ≡ true
    → absent m xs ≡ true
distinct-absent [] m ms h = refl
distinct-absent (x ∷ xs) m ms h =
    ground (arith, h, distinct-absent xs m ms, absent-middle x xs m ms, str_eq_sym x m)
  where
    absent-middle :
        (k : Text) (xs : List Text) (m : Text) (ms : List Text)
        → absent k (xs ++ m ∷ ms) ≡ true
        → str_eq m k ≡ false
    absent-middle k [] m ms h = ground (arith, h)
    absent-middle k (y ∷ ys) m ms h = ground (arith, h, absent-middle k ys m ms)

sort-insert :
    (x : Text) (xs : List Text)
    → sort_strings (insert_sorted x xs) ≡ insert_sorted x (sort_strings xs)
unfolding sort_strings insert_sorted
sort-insert x [] = refl
sort-insert x (y ∷ ys) = ground (arith, sort-insert x ys, insert-insert x y (sort_strings ys))

pub sort-sort : (xs : List Text) → sort_strings (sort_strings xs) ≡ sort_strings xs
unfolding sort_strings
sort-sort [] = refl
sort-sort (x ∷ xs) = sort-insert x (sort_strings xs) ∙ ap (insert_sorted x) (sort-sort xs)
