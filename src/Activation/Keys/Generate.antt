-- ===== src/Activation/Keys/Generate.antt =====
-- The keys that `GenerateKey` makes.
use license_service.Prelude.{
  ℕ, zero, suc, false, leb, ◌≤◌, Bool-cases, inl, inr, ◌+◌, ◌%◌, ◌<◌, ◌≡◌, refl, ◌∙◌, Bool, true,
  ◌&&◌, Text, List, [], ◌∷◌, ◌++◌, map, all, arith, if◌then◌else◌, length, length-map, has_prefix,
  ◌==◌,
}
use license_service.Store.Rows.{keep}
use license_service.Xcodes.{ok}
use license_service.Activation.Keys.{
  is_alnum, has_key_shape, normalize_key, crockford, key_groups, generate_key, key_mark, to_upper,
  symbol,
}
use license_service.Activation.Keys.Normalize.{content, content-append, normalize_key_shaped}

-- A test that every number up to a bound passes.
passes : (ℕ → Bool) → ℕ → Bool
passes test zero = test 0
passes test (suc top) = let rest = passes test top in if test (suc top) then rest else false

passes_sound :
    (test : ℕ → Bool) (top : ℕ) {k : ℕ} → passes test top ≡ true → k ≤ top → test k ≡ true
unfolding passes
passes_sound test zero {k} table bound = let only : k ≡ 0 = omega arith in rw only table
passes_sound test (suc top) {k} table bound = elim (Bool-cases (leb k top)) [
  | inl below ↦ ground (arith, passes_sound test top {k = k})
  | inr above ↦ let last : k ≡ suc top = grind arith in rw last (ground arith)
]

-- The value that a symbol of the alphabet stands for.
position : Text → ℕ → ℕ
position [] c = 0
position (x ∷ xs) c = if x == c then 0 else 1 + position xs c

symbol_test : ℕ → Bool
symbol_test n =
    is_alnum (symbol n) && (to_upper (symbol n) == symbol n && position crockford (symbol n) == n)

symbols_table : passes symbol_test 31 ≡ true
unfolding passes is_alnum to_upper position symbol_test symbol
symbols_table = refl

symbol_facts :
    (n : ℕ)
    → n < 32
    → (is_alnum (symbol n) ≡ true)
      × (to_upper (symbol n) ≡ symbol n)
      × (position crockford (symbol n) ≡ n)
unfolding symbol_test
symbol_facts n lt =
    let h = passes_sound symbol_test 31 {k = n} symbols_table (omega arith) in
    (ground arith, ground arith, ground arith)

abbrev pub symbols : List ℕ → Text
symbols = map (λ g. symbol (g % 32))

content-nil : content [] ≡ []
unfolding keep
content-nil = refl

content-symbol :
    (n : ℕ) (rest : List ℕ) → n < 32 → content (symbol n ∷ rest) ≡ symbol n ∷ content rest
unfolding keep
content-symbol n rest lt = ground (arith, symbol_facts n lt)

content-mark : content key_mark ≡ key_mark
unfolding keep is_alnum to_upper
content-mark = refl

content-dash : (rest : List ℕ) → content (b'-' ∷ rest) ≡ content rest
unfolding keep is_alnum to_upper
content-dash rest = refl

content-key_groups : (i : ℕ) (gs : List ℕ) → content (key_groups i gs) ≡ symbols gs
unfolding key_groups
content-key_groups i [] = rw content-nil
content-key_groups i (g ∷ gs) =
    let rest = key_groups (i + 1) gs in
    let step = content-symbol (g % 32) rest (omega arith) in
    ground (arith, step, content-dash (symbol (g % 32) ∷ rest), content-key_groups (i + 1) gs)

content-generate_key :
    (groups : List ℕ) → content (generate_key groups) ≡ key_mark ++ symbols groups
unfolding generate_key
content-generate_key groups =
    content-append key_mark (key_groups 0 groups) ∙ rw (content-mark, content-key_groups 0 groups)

all-symbols : (gs : List ℕ) → all is_alnum (symbols gs) ≡ true
all-symbols [] = refl
all-symbols (g ∷ gs) = ground (arith, symbol_facts (g % 32) (omega arith), all-symbols gs)

key_shape :
    (s : Text) → length s ≡ 20 → all is_alnum s ≡ true → has_key_shape (key_mark ++ s) ≡ true
unfolding has_key_shape is_alnum has_prefix
key_shape s n h = ground arith

-- A generated key is always accepted: it normalizes to the mark and the twenty symbols.
pub normalize_key-generate_key :
    (groups : List ℕ)
    → length groups ≡ 20
    → normalize_key (generate_key groups) ≡ ok (key_mark ++ symbols groups)
normalize_key-generate_key groups n = ground (
  arith,
  normalize_key_shaped (generate_key groups),
  content-generate_key groups,
  key_shape (symbols groups) (length-map _ groups ∙ n) (all-symbols groups),
)

symbols_inj :
    (gs hs : List ℕ) → symbols gs ≡ symbols hs → map (λ g. g % 32) gs ≡ map (λ g. g % 32) hs
symbols_inj (g ∷ gs) (h ∷ hs) e = ground (
  arith,
  symbols_inj gs hs,
  symbol_facts (g % 32) (omega arith),
  symbol_facts (h % 32) (omega arith),
)
symbols_inj [] [] e = refl
symbols_inj [] (h ∷ hs) e = ground arith
symbols_inj (g ∷ gs) [] e = ground arith

-- Two runs of the generator give keys that normalize alike only where all low five bits of the
-- random bytes agree: no other of the 2 ^ 100 choices collides.
generate_key_inj :
    (gs hs : List ℕ)
    → length gs ≡ 20
    → length hs ≡ 20
    → normalize_key (generate_key gs) ≡ normalize_key (generate_key hs)
    → map (λ g. g % 32) gs ≡ map (λ g. g % 32) hs
generate_key_inj gs hs n m e =
    symbols_inj gs hs
      (ground (arith, normalize_key-generate_key gs n, normalize_key-generate_key hs m))
