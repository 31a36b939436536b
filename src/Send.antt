-- ===== src/Send.antt =====
-- crates/failsafe-send: sending files between devices.
pub mod Payload
pub mod Manifest
pub mod Coordinator
pub mod Feature
pub mod TransferState
pub mod SavedSends
pub mod Outbound
pub mod Control
pub mod Receive
pub mod Timeout
