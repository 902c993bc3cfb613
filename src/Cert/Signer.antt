-- ===== src/Cert/Signer.antt =====
-- The `Signer` of internal/service/cert/cert.go, and the seed check of keys.go. A Go map of keys is
-- the list of its entries in the order in which `range` visits them.
pub mod Ready
use license_service.Prelude.{
  Bool, true, false, Text, str_eq, List, [], ◌∷◌, map, Option, none, some, if◌then◌else◌, length,
  ◌==◌,
}
use license_service.Cert.Payload.{Payload, Formats, Crypto}
use license_service.Cert.Canonical.{marshal_canonical}

-- What `NewSigner` refuses to start with.
pub data SignerError : Type 0 where
  no_keys empty_key_id sign_key_id_required : SignerError
  bad_seed dangling_sign_key_id : Text → SignerError

pub data Start (A : Type 0) : Type 0 where
  ready : A → Start A
  refused : SignerError → Start A

infixl 5 ◌>>=◌
abbrev pub ◌>>=◌ : {A B : Type 0} → Start A → (A → Start B) → Start B
ready a >>= f = f a
refused e >>= f = refused e

module _ {V : Type 0} where
  unfoldable pub lookup : Text → List (Text × V) → Option V
  lookup k [] = none
  lookup k ((j, v) ∷ m) = if str_eq j k then some v else lookup k m

module _ (c : Crypto) where
  open c use {PrivateKey}

  pub record Signer : Type 0 where
    pub keys : List (Text × PrivateKey)
    pub active : Text

  -- `seedFromHex`; 32 is ed25519.SeedSize.
  unfoldable pub seed_from_hex : Text → Option PrivateKey
  seed_from_hex seed_hex = if str_eq seed_hex [] then none else elim (c.seed_bytes seed_hex) [
    | none ↦ none
    | some seed ↦ if length seed == 32 then some (c.new_key_from_seed seed) else none
  ]

  -- The loop over `keysIn`.
  unfoldable pub load_keys : List (Text × Text) → Start (List (Text × PrivateKey))
  load_keys [] = ready []
  load_keys ((kid, seed_hex) ∷ rest) =
      if str_eq kid [] then refused empty_key_id else elim (seed_from_hex seed_hex) [
        | none ↦ refused (bad_seed kid)
        | some k ↦ do ks ← load_keys rest; ready ((kid, k) ∷ ks)
      ]

  -- The kid that signs new payloads.
  unfoldable pub choose_active : Text → List (Text × PrivateKey) → Start Text
  choose_active [] ((kid, k) ∷ []) = ready kid
  choose_active [] keys = refused sign_key_id_required
  choose_active (x ∷ sign_key_id) keys = ready (x ∷ sign_key_id)

  unfoldable pub require_key : List (Text × PrivateKey) → Text → Start Signer
  require_key keys active = elim (lookup active keys) [
    | none ↦ refused (dangling_sign_key_id active)
    | some _ ↦ ready (record { keys = keys; active = active })
  ]

  unfoldable pub new_signer : List (Text × Text) → Text → Start Signer
  new_signer [] sign_key_id = refused no_keys
  new_signer (entry ∷ rest) sign_key_id = do
    keys ← load_keys (entry ∷ rest)
    active ← choose_active sign_key_id keys
    require_key keys active

  -- `PublicKeys`
  unfoldable pub public_keys : Signer → List (Text × Text)
  public_keys s = map (λ entry. (entry.0, c.encode (c.public_text (c.public entry.1)))) s.keys

  -- `Ready`; a key made by `NewKeyFromSeed` has ed25519.PrivateKeySize bytes.
  unfoldable pub is_ready : Signer → Bool
  is_ready s = elim (lookup s.active s.keys) [ none ↦ false | some _ ↦ true ]

  -- The payload and its detached signature; `none` where its key id is not configured.
  unfoldable pub sign : Formats → Signer → Payload → Option (Text × Text)
  sign fmt s p = elim (lookup p.signing_key_id s.keys) [
    | none ↦ none
    | some key ↦
        let data_bytes = marshal_canonical fmt p in
        some (data_bytes, c.encode (c.sign key data_bytes))
  ]

  unfoldable pub verify : c.PublicKey → Text → Text → Bool
  verify pub_key payload signature = elim (c.decode signature) [
    | none ↦ false
    | some sig ↦ c.verify pub_key payload sig
  ]
