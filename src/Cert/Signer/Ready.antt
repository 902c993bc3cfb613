-- ===== src/Cert/Signer/Ready.antt =====
-- What a signer that starts up can do.
use license_service.Prelude.{
  ◌≡◌, subst, sym, true, Text, List, [], ◌∷◌, map, some, arith, Option-cases, inl, inr,
}
use license_service.Cert.Payload.{Payload, Formats, Crypto}
use license_service.Cert.Canonical.{marshal_canonical}
use license_service.Cert.Signer.{
  Signer, Start, ready, refused, lookup, load_keys, choose_active, require_key, new_signer,
  public_keys, is_ready, sign, verify, ◌>>=◌,
}

module _ (c : Crypto) where
  open c use {PrivateKey}

  require_key-ready :
      (keys : List (Text × PrivateKey)) (active : Text) {s : Signer c}
      → require_key c keys active ≡ ready s
      → (k : PrivateKey) × (lookup s.active s.keys ≡ some k)
  unfolding require_key
  require_key-ready keys active {s} h = elim (Option-cases (lookup active keys)) [
    | inl missing ↦ absurd (ground (arith, missing))
    | inr (k, there) ↦ (k, ground (arith, there))
  ]

  -- To go on from a successful step of the start-up.
  bind-ready :
      {A B P : Type 0} (m : Start A) (f : A → Start B) {b : B}
      → (m >>= f) ≡ ready b
      → ((a : A) → f a ≡ ready b → P)
      → P
  bind-ready (ready a) f h go = go a h
  bind-ready (refused e) f h go = absurd cc

  pub lookup-public :
      (kid : Text) (keys : List (Text × PrivateKey)) {k : PrivateKey}
      → lookup kid keys ≡ some k
      → lookup kid (map (λ e. (e.0, c.encode (c.public_text (c.public e.1)))) keys)
        ≡ some (c.encode (c.public_text (c.public k)))
  unfolding lookup
  lookup-public kid [] h = absurd cc
  lookup-public kid ((j, v) ∷ keys) {k} h = ground (arith, lookup-public kid keys {k = k})

  pub new_signer-key :
      (entries : List (Text × Text)) (sign_key_id : Text) {s : Signer c}
      → new_signer c entries sign_key_id ≡ ready s
      → (k : PrivateKey) × (lookup s.active s.keys ≡ some k)
  unfolding new_signer
  new_signer-key [] sign_key_id {s} h = absurd cc
  new_signer-key (entry ∷ rest) sign_key_id {s} h =
      bind-ready (load_keys c (entry ∷ rest)) _ h λ keys loaded.
        bind-ready (choose_active c sign_key_id keys) _ loaded
          λ active chosen. require_key-ready keys active chosen

  ready_lem :
      (s : Signer c) {k : PrivateKey} → lookup s.active s.keys ≡ some k → is_ready c s ≡ true
  unfolding is_ready
  ready_lem s {k} there = ground (arith, there)

  pub new_signer-is_ready :
      (entries : List (Text × Text)) (sign_key_id : Text) {s : Signer c}
      → new_signer c entries sign_key_id ≡ ready s
      → is_ready c s ≡ true
  new_signer-is_ready entries sign_key_id {s} h =
      ready_lem s (new_signer-key entries sign_key_id h).1

  pub sign_lem :
      (fmt : Formats) (s : Signer c) (p : Payload) {k : PrivateKey}
      → lookup p.signing_key_id s.keys ≡ some k
      → sign c fmt s p
        ≡ some (marshal_canonical fmt p, c.encode (c.sign k (marshal_canonical fmt p)))
  unfolding sign
  sign_lem fmt s p {k} there = ground (arith, there)

  pub verify_lem :
      (k : PrivateKey) (message : Text)
      → verify c (c.public k) message (c.encode (c.sign k message)) ≡ true
  unfolding verify
  verify_lem k message = ground (arith, c.decode-encode (c.sign k message), c.verify-sign k message)

  -- A signer that starts up is ready, and signs every payload that names its active key: the bytes
  -- are the canonical ones, the signature verifies under the public key that the signer publishes for
  -- the active key.
  pub new_signer-signs :
      (fmt : Formats) (entries : List (Text × Text)) (sign_key_id : Text) {s : Signer c}
      (p : Payload)
      → new_signer c entries sign_key_id ≡ ready s
      → p.signing_key_id ≡ s.active
      → (is_ready c s ≡ true)
        × (key : c.PublicKey) × (signature : Text) × (sign c fmt s p
            ≡ some (marshal_canonical fmt p, signature))
        × (verify c key (marshal_canonical fmt p) signature ≡ true)
        × (lookup s.active (public_keys c s) ≡ some (c.encode (c.public_text key)))
  unfolding public_keys
  new_signer-signs fmt entries sign_key_id {s} p h names =
      let (k, there) = new_signer-key entries sign_key_id h in
      let message = marshal_canonical fmt p in
      (
        ready_lem s there,
        c.public k,
        c.encode (c.sign k message),
        sign_lem fmt s p (subst (λ x. lookup x s.keys ≡ some k) (sym names) there),
        verify_lem k message,
        lookup-public s.active s.keys there,
      )
