-- ===== src/Storage.antt =====
-- internal/storage: where rows are written.
pub mod Names
pub mod Tables
pub mod Timescale
pub mod Reads
pub mod Migrations
pub mod Ensure
pub mod Databases
pub mod Domain
pub mod RouteText
pub mod Router
