-- ===== src/Client.antt =====
-- src/client.rs: the client.
pub mod Apple
pub mod Auth
pub mod Events
pub mod Handshake
pub mod Password
pub mod Requests
mod Tests
