-- ===== src/Layers.antt =====
-- The middleware of crates/cloud_sync_lib/src/layers.
pub mod Breaker
pub mod Retry
pub mod Metrics
pub mod RateLimit
