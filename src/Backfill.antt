-- ===== src/Backfill.antt =====
-- internal/backfill: historical K-lines, from the request to the stored rows and the coverage.
pub mod Interval
pub mod Request
pub mod Window
pub mod Segment
pub mod Row
pub mod Fetch
pub mod Run
pub mod Years
pub mod Verify
