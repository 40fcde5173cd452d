-- ===== src/Providers.antt =====
-- What the storage providers of crates/cloud_sync_lib/src/providers share.
pub mod Translate
pub mod Sessions
pub mod Retries
pub mod Backend
pub mod Fallback
pub mod Encryption
pub mod Wrapped
pub mod Samples
pub mod LocalSim
pub mod Tokens
