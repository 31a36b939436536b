-- ===== src/Daemon.antt =====
-- crates/failsafe: the configuration of the daemon and how it follows what the server says.
pub mod Config
pub mod Sync
pub mod Service
