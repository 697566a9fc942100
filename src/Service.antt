-- ===== src/Service.antt =====
-- knowledge/service.go: the validated, idempotent writes, the workflow events and the embedding worker.
pub mod Host
pub mod Rules
pub mod Writing
pub mod Scopes
pub mod Entities
pub mod Artifacts
pub mod Memories
pub mod Relationships
pub mod Atomic
pub mod Retry
pub mod Consistent
pub mod Kept
pub mod Workflow
pub mod Worker
pub mod Snapshots
pub mod Run
pub mod Replayed
pub mod Listed
pub mod Rooted
