-- ===== src/Store.antt =====
-- internal/store: the rows, the statements over them, and transactions.
pub mod Models
pub mod Rows
pub mod Sql
pub mod Reply
pub mod Atomic
pub mod Device
pub mod Key
pub mod Entitlement
pub mod Trial
pub mod App
