-- ===== src/Store.antt =====
-- knowledge/sqlstore.go: the tables, the operations on them, and their laws.
pub mod Table
pub mod Tables
pub mod Jobs
pub mod Backfill
pub mod Write
pub mod Read
pub mod Queries
pub mod Ancestors
pub mod Consistent
pub mod Projections
pub mod Replay
pub mod Snapshots
