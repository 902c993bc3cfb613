-- ===== src/Startup/Distinct.antt =====
-- What a configuration that is accepted has.
use license_service.Prelude.{
  ℕ, ◌+◌, Bool, false, ◌≤◌, ◌≡◌, refl, sym, ◌∙◌, subst, Text, str_eq, str_eq_iff, List, [], ◌∷◌,
  ◌++◌, Option, none, some, arith, Option-cases, inl, inr, ◌⊎◌,
}
use license_service.Store.Rows.{count, count-append}
use license_service.Cert.Payload.{Crypto}
use license_service.Cert.Signer.{
  Signer, Start, ready, refused, new_signer, lookup, load_keys, seed_from_hex, choose_active,
  require_key, ◌>>=◌,
}
use license_service.Cert.Signer.Ready.{new_signer-key}
use license_service.Startup.{
  SigningKey, SigningConfig, Resolved, resolved, rejected, signing_map, wrap_signer, build_signer,
  resolve_signer,
}

-- How often a key id is configured.
abbrev pub times : {V : Type 0} → Text → List (Text × V) → ℕ
times id keys = count (λ e. str_eq e.0 id) keys

lookup-none :
    {V : Type 0} (id : Text) (keys : List (Text × V)) → lookup id keys ≡ none → times id keys ≡ 0
unfolding lookup count
lookup-none id [] h = refl
lookup-none id ((j, v) ∷ keys) h = ground (arith, lookup-none id keys)

added-once :
    (id j : Text) (seed : Text) (keys : List (Text × Text))
    → lookup j keys ≡ none
    → times id keys ≤ 1
    → times id (keys ++ (j, seed) ∷ []) ≤ 1
unfolding count
added-once id j seed keys fresh once = ground (
  arith,
  count-append (λ e. str_eq e.0 id) keys ((j, seed) ∷ []),
  lookup-none j keys fresh,
  str_eq_iff j id,
)

signing_map-once :
    (entries : List (Option SigningKey)) (keys : List (Text × Text)) {all_keys : List (Text × Text)}
    → ((id : Text) → times id keys ≤ 1)
    → signing_map entries keys ≡ resolved all_keys
    → (id : Text) → times id all_keys ≤ 1
unfolding signing_map
signing_map-once [] keys {all_keys} once h id =
    let same : keys ≡ all_keys = cc in subst (λ ks. times id ks ≤ 1) same (once id)
signing_map-once (none ∷ entries) keys once h id = signing_map-once entries keys once h id
signing_map-once (some k ∷ entries) keys once h id = elim (Option-cases (lookup k.key_id keys)) [
  | inr (v, there) ↦ absurd (ground (arith, there))
  | inl fresh ↦
      signing_map-once entries (keys ++ (k.key_id, k.seed) ∷ [])
        (λ i. added-once i k.key_id k.seed keys fresh (once i)) (ground (arith, fresh)) id
]

-- An entry of the configuration with this key id; a nil entry has none.
abbrev pub has_key_id : Text → Option SigningKey → Bool
has_key_id id none = false
has_key_id id (some k) = str_eq k.key_id id

-- The map holds each configured entry.
signing_map-count :
    (entries : List (Option SigningKey)) (keys : List (Text × Text)) {all_keys : List (Text × Text)}
    → signing_map entries keys ≡ resolved all_keys
    → (id : Text) → times id all_keys ≡ times id keys + count (has_key_id id) entries
unfolding signing_map count
signing_map-count [] keys {all_keys} h id =
    let same : keys ≡ all_keys = cc in
    subst (λ ks. times id ks ≡ times id keys + 0) same (omega arith)
signing_map-count (none ∷ entries) keys h id = omega (arith, signing_map-count entries keys h id)
signing_map-count (some k ∷ entries) keys {all_keys} h id =
    elim (Option-cases (lookup k.key_id keys)) [
      | inr (v, there) ↦ absurd (ground (arith, there))
      | inl fresh ↦
          let rest : signing_map entries (keys ++ (k.key_id, k.seed) ∷ []) ≡ resolved all_keys =
            ground (arith, fresh) in
          omega (
            arith,
            signing_map-count entries (keys ++ (k.key_id, k.seed) ∷ []) rest id,
            count-append (λ e. str_eq e.0 id) keys ((k.key_id, k.seed) ∷ []),
          )
    ]

all_configured :
    (entries : List (Option SigningKey)) {keys : List (Text × Text)}
    → signing_map entries [] ≡ resolved keys
    → (id : Text) → times id keys ≡ count (has_key_id id) entries
unfolding count
all_configured entries h id = omega (arith, signing_map-count entries [] h id)

List-cases : {A : Type 0} (xs : List A) → (xs ≡ []) ⊎ ((x : A) × (rest : List A) × (xs ≡ x ∷ rest))
List-cases [] = inl refl
List-cases (x ∷ rest) = inr (x, rest, refl)

none-once : (id : Text) → times {V = Text} id [] ≤ 1
unfolding count
none-once id = omega arith

module _ (c : Crypto) where
  wrap_signer-resolved :
      (r : Start (Signer c)) {s : Signer c} → wrap_signer c r ≡ resolved s → r ≡ ready s
  unfolding wrap_signer
  wrap_signer-resolved (ready s) h = cc
  wrap_signer-resolved (refused e) h = absurd cc

  build_signer-resolved :
      (id : Text) (r : Resolved (List (Text × Text))) {s : Signer c}
      → build_signer c id r ≡ resolved s
      → (keys : List (Text × Text)) × (r ≡ resolved keys) × (new_signer c keys id ≡ ready s)
  unfolding build_signer
  build_signer-resolved id (rejected e) h = absurd cc
  build_signer-resolved id (resolved keys) h =
      (keys, refl, wrap_signer-resolved (new_signer c keys id) h)

  -- A step of the start-up that goes on has succeeded.
  begun :
      {A B P : Type 0} (m : Start A) (f : A → Start B) {b : B}
      → (m >>= f) ≡ ready b
      → ((a : A) → m ≡ ready a → f a ≡ ready b → P)
      → P
  begun (ready a) f h go = go a refl h
  begun (refused e) f h go = absurd cc

  load_keys-times :
      (entries : List (Text × Text)) {keys : List (Text × c.PrivateKey)}
      → load_keys c entries ≡ ready keys
      → (id : Text) → times id keys ≡ times id entries
  unfolding load_keys count
  load_keys-times [] {keys} h id =
      let same : [] ≡ keys = cc in subst (λ ks. times id ks ≡ 0) same refl
  load_keys-times ((kid, seed) ∷ rest) {keys} h id = elim (Option-cases (seed_from_hex c seed)) [
    | inl bad ↦ absurd (ground (arith, bad))
    | inr (k, good) ↦
        let made : (load_keys c rest >>= λ ks. ready ((kid, k) ∷ ks)) ≡ ready keys =
          ground (arith, good) in
        begun (load_keys c rest) _ made λ ks loaded last.
          let same : (kid, k) ∷ ks ≡ keys = cc in
          subst (λ xs. times id xs ≡ times id ((kid, seed) ∷ rest)) same
            (omega (arith, load_keys-times rest loaded id))
  ]

  require_key-keys :
      (keys : List (Text × c.PrivateKey)) (active : Text) {s : Signer c}
      → require_key c keys active ≡ ready s
      → s.keys ≡ keys
  unfolding require_key
  require_key-keys keys active {s} h = elim (Option-cases (lookup active keys)) [
    | inl missing ↦ absurd (ground (arith, missing))
    | inr (k, there) ↦ ground (arith, there)
  ]

  new_signer-times :
      (entries : List (Text × Text)) (sign_key_id : Text) {s : Signer c}
      → new_signer c entries sign_key_id ≡ ready s
      → (id : Text) → times id s.keys ≡ times id entries
  unfolding new_signer
  new_signer-times [] sign_key_id h id = absurd cc
  new_signer-times (entry ∷ rest) sign_key_id {s} h id =
      begun (load_keys c (entry ∷ rest)) _ h λ keys loaded then_step.
        begun (choose_active c sign_key_id keys) _ then_step λ active _ chosen.
          subst (λ ks. times id ks ≡ times id (entry ∷ rest))
            (sym (require_key-keys keys active chosen)) (load_keys-times (entry ∷ rest) loaded id)

  -- A signing configuration that is accepted names no key id twice, and gives a signer with a key for
  -- each configured id and for no other, whose active key is one of these.
  pub resolve_signer-Distinct :
      (cfg : SigningConfig) {s : Signer c}
      → resolve_signer c (some cfg) ≡ resolved s
      → ((id : Text) → count (has_key_id id) cfg.keys ≤ 1)
        × ((id : Text) → count (λ e. str_eq e.0 id) s.keys ≡ count (has_key_id id) cfg.keys)
        × (k : c.PrivateKey) × (lookup s.active s.keys ≡ some k)
  unfolding resolve_signer
  resolve_signer-Distinct cfg {s} h = elim (List-cases cfg.keys) [
    | inl unset ↦ absurd (ground (arith, unset))
    | inr (entry, entries, set) ↦
        let built : build_signer c cfg.sign_key_id (signing_map cfg.keys []) ≡ resolved s =
          ground (arith, set) in
        let (keys, mapped, starts) =
          build_signer-resolved cfg.sign_key_id (signing_map cfg.keys []) built in
        let signs = new_signer-key c keys cfg.sign_key_id starts in
        let counted = λ (id : Text). all_configured cfg.keys mapped id in
        (
          λ id. omega (arith, counted id, signing_map-once cfg.keys [] none-once mapped id),
          λ id. new_signer-times keys cfg.sign_key_id starts id ∙ counted id,
          signs.0,
          signs.1,
        )
  ]
