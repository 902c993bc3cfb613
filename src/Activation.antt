-- ===== src/Activation.antt =====
-- internal/service/activation: the client-facing domain.
pub mod Keys
pub mod Service
pub mod Slots
pub mod Certificate
pub mod Handlers
pub mod Concurrent
