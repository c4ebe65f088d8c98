-- ===== src/Server.antt =====
-- src/server.rs: what the client is answered.
pub mod Headers
pub mod Relay
pub mod Response
pub mod Fallback
pub mod Prepare
pub mod Route
mod Tests
