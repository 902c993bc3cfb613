-- ===== src/Health/Probe.antt =====
-- When the health probe is green.
use license_service.Prelude.{ℕ, ◌≡◌, ◌↔◌, true, Text, List, Option, none, some, arith}
use license_service.Xcodes.{ok}
use license_service.Cert.Payload.{Crypto}
use license_service.Cert.Signer.{Signer, new_signer, ready}
use license_service.Cert.Signer.Ready.{new_signer-is_ready}
use license_service.Health.{db_answers, health}

module _ (c : Crypto) where
  -- With a signer that started up, the probe is green exactly if the database answers 1 to SELECT 1,
  -- and then it reports both checks as passed.
  pub health_iff :
      (keys : List (Text × Text)) (sign_key_id : Text) {signer : Signer c} (probe : Option ℕ)
      → new_signer c keys sign_key_id ≡ ready signer
      → (health c signer probe ≡ ok (record { db = true; signing = true })) ↔ (probe ≡ some 1)
  unfolding health db_answers
  health_iff keys sign_key_id {signer} none started =
      (λ h. absurd (ground (arith, h)), λ h. absurd (ground (arith, h)))
  health_iff keys sign_key_id {signer} (some n) started =
      let up = new_signer-is_ready c keys sign_key_id started in
      (λ h. ground (arith, h, up), λ h. ground (arith, h, up))
