-- ===== src/Proxy/Dynamic.antt =====
-- The servers that server/proxy/server/proxy_server.c starts and stops for devices, and the registry
-- of their runtimes.
pub mod State
pub mod Stop
pub mod Open
pub mod Registry
pub mod Start
pub mod Closing
pub mod Isolation
pub mod Healthy
pub mod Descriptors
pub mod Tls
pub mod Growth
pub mod Creation
pub mod Recycling
