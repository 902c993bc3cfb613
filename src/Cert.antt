-- ===== src/Cert.antt =====
-- internal/service/cert: the credential that clients verify offline.
pub mod Payload
pub mod Canonical
pub mod Signer
pub mod Parser
pub mod Decode
pub mod Documents
pub mod Names
pub mod RoundTrip
