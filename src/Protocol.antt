-- ===== src/Protocol.antt =====
-- src/protocol.rs: the messages of the RFB protocol, one module for each group of them.
-- `write_to` is the list of bytes that the Rust method hands to its writer; a write to a stream is
-- taken to succeed.
pub mod PixelFormat
pub mod Text
pub mod Version
pub mod Security
pub mod Encoding
pub mod Frame
pub mod Init
pub mod Rectangle
pub mod ClientMessage
pub mod ServerMessage
mod Tests
