-- ===== src/Protocol.antt =====
-- The two ends together: what client/proxy/client reads of the answers that
-- server/proxy/server/device_manager.c sends it, and the server of the client's heartbeats.
pub mod Registration
pub mod Answers
pub mod Report
mod Tests
