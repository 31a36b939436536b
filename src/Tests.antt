-- ===== src/Tests.antt =====
-- The theorems at concrete inputs, and runs of the definitions.
mod Tokens
mod Accounts
mod Json
mod Wire
mod Transfers
mod Features
mod Daemon
mod Receive
mod Server
mod Pairing
mod Devices
mod Outbound
mod Clipboard
mod Blobs
mod Pool
