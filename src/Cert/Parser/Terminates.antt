-- ===== src/Cert/Parser/Terminates.antt =====
-- Fuel above the length of the text is enough for the parser.
use license_service.Prelude.{
  ℕ, zero, suc, ◌≤◌, ◌<◌, ◌≡◌, refl, Bool, true, false, Text, [], ◌∷◌, ◌++◌, Option, none, some,
  arith, length, Bool-cases, Option-cases, inl, inr, ◌==◌, ◌≢◌, if◌then◌else◌, codes, has_prefix,
}
use license_service.Cert.Payload.{Formats}
use license_service.Cert.Parser.{
  done, malformed, stuck, ◌>>=◌, Parsed, Members, skip_ws, starts, rest_of, short_escape,
  number_bytes, Next, again, closed, broken, after_member, string_loop, escape, unicode,
  parse_string, parse_number, parse_null, parse_scalar, parse_key, parse_value, parse_members, put,
  no_members,
}

-- The run has fuel, and what it leaves is no longer than `n`.
abbrev pub Leaves : {A : Type 0} → ℕ → Parsed A → Type 0
Leaves n (done (a, rest)) = length rest ≤ n
Leaves n malformed = Unit
Leaves n stuck = ⊥

module _ {A : Type 0} where
  Leaves-mono : (m n : ℕ) (r : Parsed A) → m ≤ n → Leaves m r → Leaves n r
  Leaves-mono m n (done (a, rest)) h l = omega arith
  Leaves-mono m n malformed h l = tt
  Leaves-mono m n stuck h l = l

  pub Leaves-not_stuck : (n : ℕ) (r : Parsed A) → Leaves n r → r ≢ stuck
  Leaves-not_stuck n (done a) l e = cc
  Leaves-not_stuck n malformed l e = cc
  Leaves-not_stuck n stuck l e = l

  Leaves-suc : (n : ℕ) (r : Parsed A) → Leaves n r → Leaves (suc n) r
  Leaves-suc n r = Leaves-mono n (suc n) r (omega arith)

  Leaves-test :
      (n : ℕ) (b : Bool) (x y : Parsed A)
      → (b ≡ true → Leaves n x)
      → Leaves n y
      → Leaves n (elim b [ true ↦ x | false ↦ y ])
  Leaves-test n true x y h k = h refl
  Leaves-test n false x y h k = k

  Leaves-if :
      (n : ℕ) (b : Bool) (x y : Parsed A)
      → (b ≡ true → Leaves n x)
      → Leaves n y
      → Leaves n (if b then x else y)
  Leaves-if n true x y h k = h refl
  Leaves-if n false x y h k = k

  Leaves-option :
      {B : Type 0} (n : ℕ) (o : Option B) (x : Parsed A) (f : B → Parsed A)
      → Leaves n x
      → ((b : B) → Leaves n (f b))
      → Leaves n (elim o [ none ↦ x | some b ↦ f b ])
  Leaves-option n none x f h k = h
  Leaves-option n (some b) x f h k = k b

  Leaves-bind :
      {B : Type 0} (m n : ℕ) (r : Parsed B) (f : B × Text → Parsed A)
      → Leaves m r
      → ((b : B) (rest : Text) → length rest ≤ m → Leaves n (f (b, rest)))
      → Leaves n (r >>= f)
  Leaves-bind m n (done (b, rest)) f l k = k b rest l
  Leaves-bind m n malformed f l k = tt
  Leaves-bind m n stuck f l k = l

length-skip_ws : (s : Text) → length (skip_ws s) ≤ length s
unfolding skip_ws
length-skip_ws [] = omega arith
length-skip_ws (c ∷ s) = ground (arith, length-skip_ws s)

length-rest_of : (b : ℕ) (s : Text) → starts b s ≡ true → suc (length (rest_of s)) ≡ length s
length-rest_of b [] h = absurd cc
length-rest_of b (c ∷ s) h = refl

length-number_bytes : (s : Text) → length (number_bytes s).1 ≤ length s
unfolding number_bytes
length-number_bytes [] = omega arith
length-number_bytes (c ∷ s) = ground (arith, length-number_bytes s)

-- The bytes that an object's loop goes on with.
abbrev Follows : ℕ → Next → Type 0
Follows n (again s) = length s < n
Follows n (closed s) = length s < n
Follows n broken = Unit

after_member-Follows : (s : Text) → Follows (length s) (after_member s)
unfolding after_member
after_member-Follows [] = tt
after_member-Follows (c ∷ s) = elim (Bool-cases (c == b',')) [
  | inl e ↦ rw e (omega (arith, length-skip_ws s))
  | inr e ↦ elim (Bool-cases (c == b'}')) [
    | inl e' ↦ rw (e, e') (omega arith)
    | inr e' ↦ rw (e, e') tt
  ]
]

Leaves-next :
    {A : Type 0} (m n : ℕ) (x : Next) (f g : Text → Parsed A)
    → Follows m x
    → ((s : Text) → length s < m → Leaves n (f s))
    → ((s : Text) → length s < m → Leaves n (g s))
    → Leaves n (elim x [ again s ↦ f s | closed s ↦ g s | broken ↦ malformed ])
Leaves-next m n (again s) f g h k l = k s h
Leaves-next m n (closed s) f g h k l = l s h
Leaves-next m n broken f g h k l = tt

module _ (fmt : Formats) where
  mutual
    unfolding string_loop

    string_loop-Leaves : (s sb : Text) → Leaves (length s) (string_loop fmt s sb)
    string_loop-Leaves [] sb = tt
    string_loop-Leaves (c ∷ s) sb =
        Leaves-test _ (c == b'"') _ _ (λ _. omega arith)
          (Leaves-test _ (c == b'\\') _ _ (λ _. Leaves-suc _ (escape fmt s sb) (escape-Leaves s sb))
            (Leaves-suc _ (string_loop fmt s _) (string_loop-Leaves s (sb ++ c ∷ []))))

    escape-Leaves : (s sb : Text) → Leaves (length s) (escape fmt s sb)
    escape-Leaves [] sb = tt
    escape-Leaves (e ∷ s) sb =
        Leaves-option _ (short_escape e) _ _
          (Leaves-test _ (e == b'u') _ _
            (λ _. Leaves-suc _ (unicode fmt s sb) (unicode-Leaves s sb)) tt)
          (λ b. Leaves-suc _ (string_loop fmt s _) (string_loop-Leaves s (sb ++ b ∷ [])))

    unicode-Leaves : (s sb : Text) → Leaves (length s) (unicode fmt s sb)
    unicode-Leaves (a ∷ b ∷ x ∷ y ∷ s) sb =
        Leaves-option _ (fmt.scan_hex (a ∷ b ∷ x ∷ y ∷ [])) _ _ tt λ r.
          Leaves-mono (length s) _ (string_loop fmt s _) (omega arith)
            (string_loop-Leaves s (sb ++ fmt.write_rune r))
    unicode-Leaves [] sb = tt
    unicode-Leaves (_ ∷ []) sb = tt
    unicode-Leaves (_ ∷ _ ∷ []) sb = tt
    unicode-Leaves (_ ∷ _ ∷ _ ∷ []) sb = tt

  -- A string takes at least its quotation mark.
  parse_string-Leaves : (s : Text) (n : ℕ) → length s ≤ suc n → Leaves n (parse_string fmt s)
  unfolding parse_string
  parse_string-Leaves s n h =
      Leaves-if n (starts b'"' (skip_ws s)) _ _
        (λ e.
          Leaves-mono _ n (string_loop fmt (rest_of (skip_ws s)) [])
            (omega (arith, length-rest_of b'"' (skip_ws s) e, length-skip_ws s))
            (string_loop-Leaves (rest_of (skip_ws s)) []))
        tt

  parse_number-Leaves : (s : Text) → Leaves (length s) (parse_number fmt s)
  unfolding parse_number
  parse_number-Leaves s = elim (Option-cases (fmt.scan_float (number_bytes s).0)) [
    | inl e ↦ rw e tt
    | inr (f, e) ↦ rw e (length-number_bytes s)
  ]

  parse_null-Leaves : (s : Text) → Leaves (length s) (parse_null fmt s)
  unfolding parse_null
  parse_null-Leaves (_ ∷ _ ∷ _ ∷ _ ∷ rest) = omega arith
  parse_null-Leaves [] = tt
  parse_null-Leaves (_ ∷ []) = tt
  parse_null-Leaves (_ ∷ _ ∷ []) = tt
  parse_null-Leaves (_ ∷ _ ∷ _ ∷ []) = tt

  parse_scalar-Leaves : (s : Text) → Leaves (length s) (parse_scalar fmt s)
  unfolding parse_scalar
  parse_scalar-Leaves [] = tt
  parse_scalar-Leaves (c ∷ s) =
      let whole = length (c ∷ s) in
      Leaves-if whole (c == b'"') _ _
        (λ _.
          Leaves-bind whole whole (parse_string fmt (c ∷ s)) _
            (parse_string-Leaves (c ∷ s) whole (omega arith)) λ t rest h. h)
        (Leaves-if whole (c == b'n') _ _
          (λ _.
            Leaves-if whole (has_prefix (c ∷ s) (codes "null")) _ _ (λ _. parse_null-Leaves (c ∷ s))
              tt)
          (parse_number-Leaves (c ∷ s)))

  parse_key-Leaves : (s : Text) (n : ℕ) → length s ≤ suc n → Leaves n (parse_key fmt s)
  unfolding parse_key
  parse_key-Leaves s n h =
      Leaves-bind n n (parse_string fmt s) _ (parse_string-Leaves s n h) λ key rest l.
        Leaves-if n (starts b':' (skip_ws rest)) _ _
          (λ e. omega (arith, length-rest_of b':' (skip_ws rest) e, length-skip_ws rest)) tt

  -- What stands behind an opening brace.
  abbrev inner : Text → Text
  inner s = skip_ws (rest_of (skip_ws s))

  length-inner : (s : Text) → starts b'{' (skip_ws s) ≡ true → length (inner s) < length s
  length-inner s e = omega (
    arith,
    length-rest_of b'{' (skip_ws s) e,
    length-skip_ws s,
    length-skip_ws (rest_of (skip_ws s)),
  )

  mutual
    unfolding parse_value parse_key parse_string skip_ws

    pub parse_value-Leaves :
        (n : ℕ) (s : Text) → length s < n → Leaves (length s) (parse_value fmt n s)
    parse_value-Leaves zero s h = absurd (omega arith)
    parse_value-Leaves (suc n) s h =
        Leaves-test (length s) (starts b'{' (skip_ws s)) _ _
          (λ e.
            Leaves-test (length s) (starts b'}' (inner s)) _ _
              (λ e'. omega (arith, length-rest_of b'}' (inner s) e', length-inner s e))
              (Leaves-mono (length (inner s)) _ (parse_members fmt n (inner s) no_members)
                (omega (arith, length-inner s e))
                (parse_members-Leaves n (inner s) no_members (omega (arith, length-inner s e)))))
          (Leaves-mono (length (skip_ws s)) _ (parse_scalar fmt (skip_ws s)) (length-skip_ws s)
            (parse_scalar-Leaves (skip_ws s)))

    parse_members-Leaves :
        (n : ℕ) (s : Text) (obj : Members fmt.Float)
        → length s < n
        → Leaves (length s) (parse_members fmt n s obj)
    parse_members-Leaves zero s obj h = absurd (omega arith)
    parse_members-Leaves (suc n) [] obj h = tt
    parse_members-Leaves (suc n) (c ∷ s) obj h =
        Leaves-bind (length s) _ (parse_key fmt (c ∷ s)) _
          (parse_key-Leaves (c ∷ s) (length s) (omega arith))
          λ key value_bytes k.
            Leaves-bind (length value_bytes) _ (parse_value fmt n value_bytes) _
              (parse_value-Leaves n value_bytes (omega arith))
              λ val after l.
                Leaves-next (length (skip_ws after)) _ (after_member (skip_ws after)) _ _
                  (after_member-Follows (skip_ws after))
                  (λ next m.
                    Leaves-mono (length next) _ (parse_members fmt n next (put key val obj))
                      (omega (arith, length-skip_ws after))
                      (parse_members-Leaves n next (put key val obj)
                        (omega (arith, length-skip_ws after))))
                  (λ behind m. omega (arith, length-skip_ws after))
