-- ===== src/Proxy.antt =====
-- server/proxy/server/proxy_server.c: listening ports, pairs of connections, and the servers that
-- are started and stopped for devices.
pub mod Sockets
pub mod Forward
pub mod Handler
pub mod Crossing
pub mod Dynamic
mod Tests
pub mod DynamicTests
mod HandlerTests
