-- ===== src/Activation/Service.antt =====
-- What the activation domain is built over (`Service` and `Options` of activation.go), and the rate
-- limiter of ratelimit.go.
use license_service.Prelude.{ℕ, ◌-◌, ◌/◌, ◌%◌, ◌^◌, ltb, if◌then◌else◌, Text, codes, ℤ, pos, negsuc}
use license_service.Xcodes.{Result, ok, err, detailed, rate_limited, retry_after_info}
use license_service.Store.Sql.{Sql}
use license_service.Store.Reply.{Env, allowed, denied, unavailable}
use license_service.Cert.Payload.{Formats, Crypto, nanoseconds}
use license_service.Cert.Signer.{Signer}

-- The packages that the repository does not hold.
pub record Deps : Type 1 where
  pub sql : Sql
  pub crypto : Crypto
  pub formats : Formats
  -- `sha256.Sum256`
  pub sum256 : Text → Text

pub record Service (d : Deps) : Type 0 where
  pub signer : Signer d.crypto
  pub trial_days : ℤ
  -- The window of the rate limiter, in nanoseconds.
  pub window : ℕ

abbrev pub purpose_activate : Text
purpose_activate = codes "activate"

abbrev pub purpose_trial : Text
purpose_trial = codes "trial"

-- `retryAfterSeconds`; the conversion to int32 keeps the low 32 bits, with their sign.
unfoldable pub retry_after_seconds : ℕ → ℤ
retry_after_seconds window =
    let low = (window / nanoseconds) % 2 ^ 32 in
    if ltb low (2 ^ 31) then pos low else negsuc (2 ^ 32 - 1 - low)

-- `allow`: an unavailable limiter lets the request pass.
unfoldable pub allow : Env → ℕ → Text → Text → Result (Unit {0})
allow env window purpose target = elim (env.limit purpose target) [
  | allowed ↦ ok tt
  | unavailable ↦ ok tt
  | denied ↦ err (detailed rate_limited (retry_after_info (retry_after_seconds window)))
]
