-- ===== src/Server.antt =====
-- crates/failsafe-server: what the server keeps of its callers.
pub mod Error
pub mod Totp
pub mod Accounts
pub mod Jwt
pub mod RateLimit
pub mod RefreshToken
pub mod Pairing
pub mod Devices
