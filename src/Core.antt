-- ===== src/Core.antt =====
-- crates/failsafe-core and crates/failsafe-feature-registry: identifiers and messages that every
-- part shares, the features of a device and the directory of its peers.
pub mod Message
pub mod Catalog
pub mod Peer
pub mod Registry
