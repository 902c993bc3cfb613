-- ===== src/Activation/Keys/Normalize.antt =====
-- What `NormalizeKey` accepts.
use license_service.Prelude.{
  ℕ, ◌≡◌, refl, ◌∙◌, ap, subst, Bool, true, false, Text, List, [], ◌∷◌, map, all, arith,
  if◌then◌else◌, take, length, ◌==◌, ◌&&◌, ◌||◌, leb, ◌-◌, codes, str_eq, has_prefix, ◌++◌,
}
use license_service.Store.Rows.{keep}
use license_service.Xcodes.{ok, err, plain, bad_key_format}
use license_service.Activation.Keys.{
  is_space, to_upper, drop_spaces, trim_space, is_alnum, has_key_shape, normalize_key,
}
use mathlib.Core.List.{reverse, reverse-cons, reverse-reverse, map-append, append-nil}

-- The upper-case letters and digits of a text, in order.
abbrev pub content : List ℕ → Text
content s = keep is_alnum (map to_upper s)

pub keep-append : (p : ℕ → Bool) (xs ys : List ℕ) → keep p (xs ++ ys) ≡ keep p xs ++ keep p ys
unfolding keep
keep-append p [] ys = refl
keep-append p (x ∷ xs) ys = ground (arith, keep-append p xs ys)

space-not-alnum : (c : ℕ) → is_space c ≡ true → is_alnum (to_upper c) ≡ false
unfolding is_space to_upper is_alnum
space-not-alnum c h = ground arith

pub content-append : (xs ys : List ℕ) → content (xs ++ ys) ≡ content xs ++ content ys
content-append xs ys = rw (map-append to_upper xs ys) (keep-append is_alnum (map to_upper xs) _)

content-drop_spaces : (s : List ℕ) → content (drop_spaces s) ≡ content s
unfolding drop_spaces keep
content-drop_spaces [] = refl
content-drop_spaces (c ∷ cs) = ground (arith, space-not-alnum c, content-drop_spaces cs)

keep-reverse : (p : ℕ → Bool) (s : List ℕ) → keep p (reverse s) ≡ reverse (keep p s)
unfolding keep
keep-reverse p [] = refl
keep-reverse p (c ∷ cs) =
    rw (reverse-cons c cs, keep-append p (reverse cs) (c ∷ []), keep-reverse p cs)
      (ground (arith, reverse-cons c (keep p cs), append-nil (reverse (keep p cs))))

map-reverse : (s : List ℕ) → map to_upper (reverse s) ≡ reverse (map to_upper s)
map-reverse [] = refl
map-reverse (c ∷ cs) =
    rw (reverse-cons c cs, reverse-cons (to_upper c) (map to_upper cs), ← map-reverse cs)
      (map-append to_upper (reverse cs) (c ∷ []))

content-reverse : (s : List ℕ) → content (reverse s) ≡ reverse (content s)
content-reverse s = rw map-reverse (keep-reverse is_alnum (map to_upper s))

content-trim_space : (s : List ℕ) → content (trim_space s) ≡ content s
unfolding trim_space
content-trim_space s =
    content-reverse (drop_spaces (reverse (drop_spaces s)))
    ∙ ap reverse (content-drop_spaces (reverse (drop_spaces s)) ∙ content-reverse (drop_spaces s))
    ∙ reverse-reverse (content (drop_spaces s))
    ∙ content-drop_spaces s

pub normalize_key_shaped :
    (raw : List ℕ)
    → normalize_key raw
      ≡ (if has_key_shape (content raw) then ok (content raw) else err (plain bad_key_format))
unfolding normalize_key
normalize_key_shaped raw = rw content-trim_space

-- What a rune adds to a key: a digit or an upper-case letter itself, a lower-case letter its upper
-- case, as which the dotless i and the long s count too, and any other rune nothing.
abbrev pub written_as : ℕ → Text
written_as c =
    if (leb 48 c && leb c 57) || (leb 65 c && leb c 90)
    then c ∷ []
    else if leb 97 c && leb c 122
    then (c - 32) ∷ []
    else if c == 305
    then 73 ∷ []
    else if c == 383
    then 83 ∷ []
    else []

abbrev pub letters_digits : List ℕ → Text
letters_digits [] = []
letters_digits (c ∷ cs) = written_as c ++ letters_digits cs

content_lem : (s : List ℕ) → content s ≡ letters_digits s
unfolding keep is_alnum to_upper
content_lem [] = refl
content_lem (c ∷ cs) = ground (arith, content_lem cs)

all-keep : (p : ℕ → Bool) (s : List ℕ) → all p (keep p s) ≡ true
unfolding keep
all-keep p [] = refl
all-keep p (c ∷ cs) = ground (arith, all-keep p cs)

has_prefix-take : (s p : Text) → has_prefix s p ≡ str_eq (take (length p) s) p
unfolding has_prefix str_eq
has_prefix-take s [] = refl
has_prefix-take [] (x ∷ p) = refl
has_prefix-take (c ∷ s) (x ∷ p) = ap (λ b. c == x && b) (has_prefix-take s p)

-- AV1D and twenty more.
abbrev pub has_mark : Text → Bool
has_mark t = str_eq (take 4 t) (codes "AV1D") && length t == 24

-- A key is accepted exactly if its letters, made upper-case, and its digits, every other rune left
-- out, are 24, the first four of them AV1D; they are then the result. What is refused is refused as
-- BAD_KEY_FORMAT.
pub normalize_key-content :
    (raw : List ℕ)
    → let t = letters_digits raw in
      normalize_key raw ≡ (if has_mark t then ok t else err (plain bad_key_format))
unfolding has_key_shape
normalize_key-content raw =
    let runes : all is_alnum (content raw) ≡ true = all-keep is_alnum (map to_upper raw) in
    let shape : has_key_shape (content raw) ≡ has_mark (content raw) =
      ground (arith, has_prefix-take (content raw) (codes "AV1D"), runes) in
    subst (λ t. normalize_key raw ≡ (if has_mark t then ok t else err (plain bad_key_format)))
      (content_lem raw)
      (normalize_key_shaped raw
        ∙ ap {A = Bool} (λ b. if b then ok (content raw) else err (plain bad_key_format)) shape)

content-alnum : (s : Text) → all is_alnum s ≡ true → content s ≡ s
unfolding keep is_alnum to_upper
content-alnum [] h = refl
content-alnum (c ∷ cs) h = ground (arith, content-alnum cs)

shape-alnum : (s : Text) → has_key_shape s ≡ true → all is_alnum s ≡ true
unfolding has_key_shape
shape-alnum s h = ground arith

-- What was accepted once is accepted again, unchanged.
pub normalize_key_idem :
    (raw : List ℕ) {norm : Text} → normalize_key raw ≡ ok norm → normalize_key norm ≡ ok norm
normalize_key_idem raw {norm} h = ground (
  arith,
  normalize_key_shaped raw,
  normalize_key_shaped norm,
  shape-alnum norm,
  content-alnum norm,
)
