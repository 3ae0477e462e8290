-- ===== src/Idempotency.antt =====
-- internal/idempotency: reserved keys and replayed responses.
pub mod Types
pub mod Pgidem
pub mod Manager
pub mod Sweep
pub mod Tests
