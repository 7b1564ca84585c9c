-- ===== src/Client.antt =====
-- client/proxy/client: the program that runs on a device.
pub mod Heartbeat
pub mod Device
pub mod Exchange
pub mod Pump
pub mod Report
pub mod Tunnel
pub mod Connect
pub mod Side
pub mod Reader
pub mod Writer
mod Tests
mod TunnelTests
mod ReaderTests
