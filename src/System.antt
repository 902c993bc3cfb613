-- ===== src/System.antt =====
-- The service as a whole: internal/service/service.go.
pub mod Ownership
pub mod Client
pub mod Trial
pub mod Operator
pub mod Lifecycle
pub mod Changes
pub mod Deletion
pub mod Grants
pub mod Reachable
pub mod Roster
pub mod Releases
pub mod Steady
pub mod Standing
