-- ===== src/Storage.antt =====
-- The shared vocabulary of crates/cloud_sync_core (traits.rs, state.rs).
pub mod Errors
pub mod Capabilities
pub mod Policy
pub mod State
