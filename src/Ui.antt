-- ===== src/Ui.antt =====
-- The web interface's client of the daemon, crates/cloud_sync_ui.
pub mod Parser
pub mod Lists
pub mod Fields
pub mod RoundTrip
pub mod Examples
