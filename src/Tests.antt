-- ===== src/Tests.antt =====
-- Each stated property at a concrete input.
pub mod Backfill
pub mod Collector
pub mod Control
pub mod Coverage
pub mod Ensure
pub mod History
pub mod OpenInterest
pub mod Plan
pub mod Storage
pub mod Store
