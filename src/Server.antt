-- ===== src/Server.antt =====
-- server/http.go: what the handlers compute, without HTTP.
pub mod Pages
pub mod Rates
pub mod Options
pub mod Handlers
pub mod Questions
pub mod Searches
pub mod Snapshots
