-- ===== src/Transport.antt =====
-- crates/failsafe-transport: how messages and sessions travel between two devices.
pub mod Codec
pub mod Handshake
pub mod Stream
pub mod Router
pub mod Blobs
pub mod Pool
