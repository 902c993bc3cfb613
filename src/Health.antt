-- ===== src/Health.antt =====
-- internal/service/health/health.go.
pub mod Probe
use license_service.Prelude.{ℕ, ◌==◌, ◌&&◌, Bool, true, false, Option, none, some, if◌then◌else◌}
use license_service.Xcodes.{Result, ok, err, plain, Code}
use license_service.Cert.Payload.{Crypto}
use license_service.Cert.Signer.{Signer, is_ready}

-- `licensev1.HealthChecks`
pub record HealthChecks : Type 0 where
  pub db : Bool
  pub signing : Bool

-- What SELECT 1 gives; `none` is an error.
unfoldable pub db_answers : Option ℕ → Bool
db_answers none = false
db_answers (some n) = n == 1

-- `Health`: the reply's checks; its status is "ok".
unfoldable pub health : (c : Crypto) → Signer c → Option ℕ → Result HealthChecks
health c signer probe =
    let checks : HealthChecks = record { db = db_answers probe; signing = is_ready c signer } in
    if checks.db && checks.signing then ok checks else err (plain Code.service_unavailable)
