-- ===== src/Daemon.antt =====
-- The parts of crates/cloud_sync_daemon outside its engine.
pub mod Watcher
pub mod Backends
pub mod Status
pub mod Control
