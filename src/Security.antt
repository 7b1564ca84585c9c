-- ===== src/Security.antt =====
-- server/proxy/server/security_features.c: rate limits, access lists, scan detection and input
-- checks of the device control channel.
pub mod State
pub mod RateLimit
pub mod Lifecycle
pub mod Access
pub mod Gate
pub mod Scan
pub mod Json
mod Tests
