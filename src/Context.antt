-- ===== src/Context.antt =====
-- The selection loops of `Context` in knowledge/service.go.
pub mod Artifacts
pub mod Assembly
pub mod Cost
pub mod Budget
pub mod Overrides
pub mod Accounting
pub mod Compose
pub mod Drawn
pub mod Answered
