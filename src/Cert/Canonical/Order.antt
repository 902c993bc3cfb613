-- ===== src/Cert/Canonical/Order.antt =====
-- The canonical bytes and the order in which Go visits the map of entitlements.
use license_service.Prelude.{
  ◌≡◌, refl, ◌∙◌, ap, Bool, true, false, Text, str_eq, str_eq_iff, List, [], ◌∷◌, map, arith, ◌⊎◌,
  inl, inr,
}
use license_service.Cert.Payload.{Entitlement, Payload, Formats}
use license_service.Cert.Canonical.{
  str_le, insert_sorted, sort_strings, entitlement_at, write_entitlements, marshal_canonical,
}

str_le_total : (x y : Text) → (str_le x y ≡ true) ⊎ (str_le y x ≡ true)
unfolding str_le
str_le_total [] y = inl refl
str_le_total (c ∷ x) [] = inr refl
str_le_total (c ∷ x) (e ∷ y) = ground (arith, str_le_total x y)

str_le_antisym : (x y : Text) → str_le x y ≡ true → str_le y x ≡ true → x ≡ y
unfolding str_le
str_le_antisym [] [] h g = refl
str_le_antisym [] (e ∷ y) h g = absurd cc
str_le_antisym (c ∷ x) [] h g = absurd cc
str_le_antisym (c ∷ x) (e ∷ y) h g = ground (arith, str_le_antisym x y)

str_le_trans : (x y z : Text) → str_le x y ≡ true → str_le y z ≡ true → str_le x z ≡ true
unfolding str_le
str_le_trans [] y z h g = refl
str_le_trans (c ∷ x) [] z h g = absurd cc
str_le_trans (c ∷ x) (e ∷ y) [] h g = absurd cc
str_le_trans (c ∷ x) (e ∷ y) (k ∷ z) h g = ground (arith, str_le_trans x y z)

pub insert-insert :
    (x y : Text) (zs : List Text)
    → insert_sorted x (insert_sorted y zs) ≡ insert_sorted y (insert_sorted x zs)
unfolding insert_sorted
insert-insert x y [] = ground (arith, str_le_total x y, str_le_antisym x y)
insert-insert x y (z ∷ zs) = ground (
  arith,
  insert-insert x y zs,
  str_le_total x y,
  str_le_antisym x y,
  str_le_trans x y z,
  str_le_trans y x z,
)

-- The same entries in another order; two that change places have different names.
pub data Shuffled : List (Text × Entitlement) → List (Text × Entitlement) → Type 0 where
  same : (m : List (Text × Entitlement)) → Shuffled m m
  keep :
      (e : Text × Entitlement) (m m' : List (Text × Entitlement))
      → Shuffled m m'
      → Shuffled (e ∷ m) (e ∷ m')
  swap :
      (e f : Text × Entitlement) (m : List (Text × Entitlement))
      → str_eq e.0 f.0 ≡ false
      → Shuffled (e ∷ f ∷ m) (f ∷ e ∷ m)
  chain : (m m' m'' : List (Text × Entitlement)) → Shuffled m m' → Shuffled m' m'' → Shuffled m m''

abbrev names : List (Text × Entitlement) → List Text
names = map (λ e. e.0)

sort-Shuffled :
    (m m' : List (Text × Entitlement))
    → Shuffled m m'
    → sort_strings (names m) ≡ sort_strings (names m')
unfolding sort_strings
sort-Shuffled _ _ (same m) = refl
sort-Shuffled _ _ (keep e m m' p) = ap (insert_sorted e.0) (sort-Shuffled m m' p)
sort-Shuffled _ _ (swap e f m apart) = insert-insert e.0 f.0 (sort_strings (names m))
sort-Shuffled _ _ (chain m m' m'' p q) = sort-Shuffled m m' p ∙ sort-Shuffled m' m'' q

at-Shuffled :
    (name : Text) (m m' : List (Text × Entitlement))
    → Shuffled m m'
    → entitlement_at name m ≡ entitlement_at name m'
unfolding entitlement_at
at-Shuffled name _ _ (same m) = refl
at-Shuffled name _ _ (keep (j, e) m m' p) = ground (arith, at-Shuffled name m m' p)
at-Shuffled name _ _ (swap (j, e) (k, f) m apart) =
    ground (arith, apart, str_eq_iff j k, str_eq_iff j name, str_eq_iff k name)
at-Shuffled name _ _ (chain m m' m'' p q) = at-Shuffled name m m' p ∙ at-Shuffled name m' m'' q

module _ (fmt : Formats) where
  write-Shuffled :
      (m m' : List (Text × Entitlement))
      → Shuffled m m'
      → (later : Bool) (ms : List Text) (w : Text)
      → write_entitlements fmt m later ms w ≡ write_entitlements fmt m' later ms w
  unfolding write_entitlements
  write-Shuffled m m' p later [] w = refl
  write-Shuffled m m' p later (n ∷ ms) w =
      rw (at-Shuffled n m m' p) (write-Shuffled m m' p true ms _)

  -- However the entries of the map are ordered, the canonical bytes are the same.
  pub marshal_canonical-Shuffled :
      (p : Payload) (ents : List (Text × Entitlement))
      → Shuffled p.entitlements ents
      → marshal_canonical fmt p ≡ marshal_canonical fmt (record p { entitlements = ents })
  unfolding marshal_canonical
  marshal_canonical-Shuffled p ents shuffled =
      rw (sort-Shuffled p.entitlements ents shuffled, write-Shuffled p.entitlements ents shuffled)
        refl
