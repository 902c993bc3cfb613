-- ===== src/Startup.antt =====
-- internal/service/helper.go: what the service refuses to start with.
pub mod Distinct
pub mod Construct
use license_service.Prelude.{
  ◌||◌, Text, str_eq, List, [], ◌∷◌, ◌++◌, Option, none, some, if◌then◌else◌, ℤ, pos, leb_ℤ,
}
use license_service.Cert.Payload.{Crypto}
use license_service.Cert.Signer.{Signer, SignerError, Start, ready, refused, new_signer, lookup}

-- `config.SigningKey`
pub record SigningKey : Type 0 where
  pub key_id : Text
  pub seed : Text

-- `config.SigningConfig`; an entry may be nil.
pub record SigningConfig : Type 0 where
  pub keys : List (Option SigningKey)
  pub sign_key_id : Text

-- `config.RateLimitConfig`
pub record RateLimitConfig : Type 0 where
  pub key_prefix : Text
  pub window : ℤ
  pub max : ℤ

-- `activation.Options`
pub record Options : Type 0 where
  pub trial_days : ℤ
  pub rate_key_prefix : Text
  pub rate_window : ℤ
  pub rate_max : ℤ

pub data StartError : Type 0 where
  trial_days_required rate_limit_required signing_keys_required : StartError
  duplicate_key_id : Text → StartError
  signer_error : SignerError → StartError

pub data Resolved (A : Type 0) : Type 0 where
  resolved : A → Resolved A
  rejected : StartError → Resolved A

-- `resolveDomainOptions`, behind the check of the trial; `trial_days` is `cfg.Trial.Days`.
unfoldable pub limited_options : ℤ → Option RateLimitConfig → Resolved Options
limited_options trial_days none = rejected rate_limit_required
limited_options trial_days (some r) =
    if str_eq r.key_prefix [] || (leb_ℤ r.window (pos 0) || leb_ℤ r.max (pos 0))
    then rejected rate_limit_required
    else resolved (record {
      trial_days = trial_days;
      rate_key_prefix = r.key_prefix;
      rate_window = r.window;
      rate_max = r.max;
    })

unfoldable pub resolve_domain_options : Option ℤ → Option RateLimitConfig → Resolved Options
resolve_domain_options none limit = rejected trial_days_required
resolve_domain_options (some days) limit =
    if leb_ℤ days (pos 0) then rejected trial_days_required else limited_options days limit

-- The loop of `resolveSigner`, on the entries so far.
unfoldable pub signing_map :
    List (Option SigningKey) → List (Text × Text) → Resolved (List (Text × Text))
signing_map [] keys = resolved keys
signing_map (none ∷ entries) keys = signing_map entries keys
signing_map (some k ∷ entries) keys =
    let rest = signing_map entries (keys ++ (k.key_id, k.seed) ∷ []) in
    elim (lookup k.key_id keys) [ none ↦ rest | some _ ↦ rejected (duplicate_key_id k.key_id) ]

module _ (c : Crypto) where
  unfoldable pub wrap_signer : Start (Signer c) → Resolved (Signer c)
  wrap_signer (ready s) = resolved s
  wrap_signer (refused e) = rejected (signer_error e)

  -- The signer of the entries.
  unfoldable pub build_signer : Text → Resolved (List (Text × Text)) → Resolved (Signer c)
  build_signer sign_key_id (rejected e) = rejected e
  build_signer sign_key_id (resolved keys) = wrap_signer (new_signer c keys sign_key_id)

  unfoldable pub resolve_signer : Option SigningConfig → Resolved (Signer c)
  resolve_signer none = rejected signing_keys_required
  resolve_signer (some cfg) = elim cfg.keys [
    | [] ↦ rejected signing_keys_required
    | entry ∷ entries ↦ build_signer cfg.sign_key_id (signing_map (entry ∷ entries) [])
  ]
