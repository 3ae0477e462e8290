-- ===== src/Ledger.antt =====
-- internal/ledger: the double-entry core.
pub mod Money
pub mod Types
pub mod Request
pub mod Routing
pub mod Repository
pub mod Aggregate
pub mod Posting
pub mod Events
pub mod Service
pub mod Journal
pub mod Consistency
pub mod Reads
pub mod Statements
pub mod Tests
