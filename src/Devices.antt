-- ===== src/Devices.antt =====
-- server/proxy/server/device_manager.c: the requests of the local administrator, and the queue of
-- devices that are told to connect again.
pub mod Pending
pub mod Control
pub mod Json
pub mod Sql
pub mod Session
pub mod Traffic
pub mod Token
pub mod Response
pub mod Register
pub mod Heartbeats
pub mod Messages
pub mod Server
pub mod Integration
mod Tests
mod ExchangeTests
mod ServerTests
