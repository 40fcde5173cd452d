-- ===== src/Engine.antt =====
-- The synchronisation engine of crates/cloud_sync_daemon/src/engine.
pub mod Conflict
pub mod Plan
pub mod Rename
pub mod Filter
pub mod Scanner
pub mod Planner
pub mod Host
pub mod Versioning
pub mod StateRepository
pub mod Executor
pub mod Orchestrator
