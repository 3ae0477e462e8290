-- ===== src/Saga.antt =====
-- internal/saga: the saga framework and the payout saga.
pub mod Types
pub mod Pgsaga
pub mod Store
pub mod Recording
pub mod Recorded
pub mod Payout
pub mod Tests
