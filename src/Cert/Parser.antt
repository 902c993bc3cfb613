-- ===== src/Cert/Parser.antt =====
-- The parser of internal/service/cert/canonical.go: `parseValue`, `skipWS` and `parseString`. A
-- Go map is the list of its members; the texts of the errors are left out.
pub mod Terminates
pub mod Strings
use license_service.Prelude.{
  ℕ, zero, suc, ◌+◌, ◌≡◌, refl, ◌==◌, ◌||◌, ◌&&◌, Bool, true, false, Text, codes, has_prefix,
  str_eq, List, [], ◌∷◌, ◌++◌, Option, none, some, if◌then◌else◌, length,
}
use license_service.Cert.Payload.{Formats, is_number_byte}

-- The `any` of a parsed value: nil, a string, a float64 or a map[string]any.
mutual
  pub data Json (Number : Type 0) : Type 0 where
    null : Json Number
    str : Text → Json Number
    num : Number → Json Number
    object : Members Number → Json Number

  pub data Members (Number : Type 0) : Type 0 where
    no_members : Members Number
    member : Text → Json Number → Members Number → Members Number

module _ {N : Type 0} where
  -- `obj[key] = val`
  unfoldable pub put : Text → Json N → Members N → Members N
  put k v no_members = member k v no_members
  put k v (member j w ms) =
      let rest = put k v ms in if str_eq j k then member j v ms else member j w rest

  -- `obj[key]` with its flag.
  unfoldable pub get : Text → Members N → Option (Json N)
  get k no_members = none
  get k (member j w ms) = if str_eq j k then some w else get k ms

-- A value, or an error; `stuck` is a run out of fuel, which the program has no counterpart of.
pub data Outcome (A : Type 0) : Type 0 where
  done : A → Outcome A
  malformed stuck : Outcome A

infixl 5 ◌>>=◌
abbrev pub ◌>>=◌ : {A B : Type 0} → Outcome A → (A → Outcome B) → Outcome B
done a >>= f = f a
malformed >>= f = malformed
stuck >>= f = stuck

-- To go on from a successful chain.
pub bind-cases {μ} :
    {A B : Type 0} {P : Type μ} (m : Outcome A) (f : A → Outcome B) {b : B}
    → (m >>= f) ≡ done b
    → ((a : A) → m ≡ done a → f a ≡ done b → P)
    → P
bind-cases (done a) f h k = k a refl h
bind-cases malformed f h k = cc
bind-cases stuck f h k = cc

abbrev pub or_malformed : {A : Type 0} → Option A → Outcome A
or_malformed none = malformed
or_malformed (some a) = done a

-- A value with the bytes behind it.
abbrev pub Parsed : Type 0 → Type 0
Parsed A = Outcome (A × Text)

unfoldable pub is_ws : ℕ → Bool
is_ws c = c == b' ' || c == 9 || c == 10 || c == 13

unfoldable pub skip_ws : Text → Text
skip_ws [] = []
skip_ws (c ∷ data_bytes) = if is_ws c then skip_ws data_bytes else c ∷ data_bytes

-- Does the text begin with the byte?
abbrev pub starts : ℕ → Text → Bool
starts b [] = false
starts b (c ∷ _) = c == b

abbrev pub rest_of : Text → Text
rest_of [] = []
rest_of (_ ∷ rest) = rest

-- How an object goes on.
pub data Next : Type 0 where
  again closed : Text → Next
  broken : Next

-- The escapes of two bytes: what the second one stands for.
unfoldable pub short_escape : ℕ → Option ℕ
short_escape e =
    if e == b'"'
    then some b'"'
    else if e == b'\\'
    then some b'\\'
    else if e == b'/'
    then some b'/'
    else if e == b'b'
    then some 8
    else if e == b'f'
    then some 12
    else if e == b'n'
    then some 10
    else if e == b'r'
    then some 13
    else if e == b't'
    then some 9
    else none

-- The number case: the bytes that the loop passes over, and those behind them.
unfoldable pub number_bytes : Text → Text × Text
number_bytes [] = ([], [])
number_bytes (c ∷ s) =
    let rest = number_bytes s in if is_number_byte c then (c ∷ rest.0, rest.1) else ([], c ∷ s)

-- What follows a member: a comma and the next one, the end, or something else.
unfoldable pub after_member : Text → Next
after_member s =
    if starts b',' s
    then again (skip_ws (rest_of s))
    else if starts b'}' s
    then closed (rest_of s)
    else broken

module _ (fmt : Formats) where
  open fmt use {Float}

  -- The loop of `parseString` at the bytes from i on, with what the builder holds.
  unfoldable mutual
    pub string_loop : Text → Text → Parsed Text
    string_loop [] sb = malformed
    string_loop (c ∷ s) sb = elim (c == b'"') [
      | true ↦ done (sb, s)
      | false ↦ elim (c == b'\\') [ true ↦ escape s sb | false ↦ string_loop s (sb ++ c ∷ []) ]
    ]

    -- Behind a backslash.
    pub escape : Text → Text → Parsed Text
    escape [] sb = malformed
    escape (e ∷ s) sb = elim (short_escape e) [
      | some b ↦ string_loop s (sb ++ b ∷ [])
      | none ↦ elim (e == b'u') [ true ↦ unicode s sb | false ↦ malformed ]
    ]

    -- Four bytes of a \u escape.
    pub unicode : Text → Text → Parsed Text
    unicode (a ∷ b ∷ x ∷ y ∷ s) sb = elim (fmt.scan_hex (a ∷ b ∷ x ∷ y ∷ [])) [
      | none ↦ malformed
      | some r ↦ string_loop s (sb ++ fmt.write_rune r)
    ]
    unicode _ sb = malformed

  unfoldable pub parse_string : Text → Parsed Text
  parse_string data_bytes =
      let s = skip_ws data_bytes in if starts b'"' s then string_loop (rest_of s) [] else malformed

  unfoldable pub parse_number : Text → Parsed (Json Float)
  parse_number s = do
    f ← or_malformed (fmt.scan_float (number_bytes s).0)
    done (num f, (number_bytes s).1)

  unfoldable pub parse_null : Text → Parsed (Json Float)
  parse_null (_ ∷ _ ∷ _ ∷ _ ∷ rest) = done (null, rest)
  parse_null _ = malformed

  -- The cases of a value that is no object.
  unfoldable pub parse_scalar : Text → Parsed (Json Float)
  parse_scalar [] = malformed
  parse_scalar (c ∷ s) =
      if c == b'"'
      then (do (t, rest) ← parse_string (c ∷ s); done (str t, rest))
      else if c == b'n'
      then (if has_prefix (c ∷ s) (codes "null") then parse_null (c ∷ s) else malformed)
      else parse_number (c ∷ s)

  -- `"key" :` at the head of an object's loop.
  unfoldable pub parse_key : Text → Parsed Text
  parse_key data_bytes = do
    (key, rest) ← parse_string data_bytes
    let after = skip_ws rest
    if starts b':' after then done (key, rest_of after) else malformed

  -- A nested value costs a unit of fuel, and so does a turn of an object's loop.
  unfoldable mutual
    pub parse_value : ℕ → Text → Parsed (Json Float)
    parse_value zero data_bytes = stuck
    parse_value (suc n) data_bytes = elim (starts b'{' (skip_ws data_bytes)) [
      | true ↦ elim (starts b'}' (skip_ws (rest_of (skip_ws data_bytes)))) [
        | true ↦ done (object no_members, rest_of (skip_ws (rest_of (skip_ws data_bytes))))
        | false ↦ parse_members n (skip_ws (rest_of (skip_ws data_bytes))) no_members
      ]
      | false ↦ parse_scalar (skip_ws data_bytes)
    ]

    -- The `for` of the object case, with the map so far.
    pub parse_members : ℕ → Text → Members Float → Parsed (Json Float)
    parse_members zero rest obj = stuck
    parse_members (suc n) rest obj = do
      (key, value_bytes) ← parse_key rest
      (val, after) ← parse_value n value_bytes
      elim (after_member (skip_ws after)) [
        | again next ↦ parse_members n next (put key val obj)
        | closed behind ↦ done (object (put key val obj), behind)
        | broken ↦ malformed
      ]
