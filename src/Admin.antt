-- ===== src/Admin.antt =====
-- internal/service/admin: what the operators and the tenants' administrators call.
pub mod Scope
pub mod Expiry
pub mod View
pub mod Keys
pub mod Grants
pub mod Devices
pub mod Tenants
