-- ===== src/Tests.antt =====
-- The theorems at concrete inputs.
pub mod Libraries
pub mod Fixtures
mod Keys
mod Service
mod Gate
mod Clients
mod Activation
mod Payloads
mod Server
mod Migration
mod Resources
mod Races
mod Revocations
