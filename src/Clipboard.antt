-- ===== src/Clipboard.antt =====
-- crates/failsafe-clipboard: what a device puts on and takes from its clipboard.
pub mod Limits
pub mod Payload
pub mod Feature
