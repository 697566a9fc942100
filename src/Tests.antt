-- ===== src/Tests.antt =====
-- Concrete data, and the theorems at it.
pub mod Data
pub mod History
pub mod Runs
pub mod Scopes
pub mod Retrieving
pub mod Handlers
pub mod Writes
pub mod Retries
pub mod Contexts
pub mod Server
pub mod Retrieval
pub mod Jobs
pub mod Snapshots
pub mod Listed
