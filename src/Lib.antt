-- ===== src/Lib.antt =====
-- Failsafe: a model of the parts that move messages and files between devices, with proofs.
--
-- A device's daemon talks to other devices over streams (crates/failsafe-transport). A stream
-- carries a shell session, a port forwarding session or one framed message. A message belongs to
-- a feature; the file sending feature (crates/failsafe-send) announces a transfer, in chunks if
-- its manifest is too large for a message, and waits for an acknowledgement.
--
-- Which file models what:
-- - Core/Message: FeatureMessage and the identifiers of crates/failsafe-core.
-- - Transport/Codec, Transport/Handshake, Transport/Stream: codec.rs, shell.rs, port.rs and
--   iroh/stream.rs of crates/failsafe-transport/src. A stream is the list of the pieces that
--   arrive; what an incoming stream leads to is a value of Outcome.
-- - Send/Payload, Send/Manifest, Send/Coordinator, Send/Feature: payload.rs, manifest.rs,
--   coordinator.rs and feature.rs of crates/failsafe-send/src. State is passed explicitly, and
--   spawned tasks and notices to waiters are lists of effects.
-- - Send/TransferState, Send/Receive, Send/Timeout: transfer_state.rs, cancel.rs, resume.rs,
--   timeout.rs and the receiving half of feature.rs of crates/failsafe-send/src. The blob store,
--   the file system and the transport are a record of functions; saving replaces the old state or,
--   with an error, leaves it. Progress messages may be dropped and are left out.
-- - Send/SavedSends, Send/Outbound, Send/Control: the sending half of transfer_state.rs, cancel.rs,
--   outbound.rs and control.rs of crates/failsafe-send/src. What the cancellation token shows is a
--   function of the place that asks it; what arrives while a sender waits is a list of events.
-- - Core/Registry, Core/Peer, Core/Catalog: registry.rs and peer.rs of crates/failsafe-core/src and
--   crates/failsafe-feature-registry/src/feature_registry.rs. A feature is a value with the methods
--   of the trait; a panic at an expect is a value of Exit.
-- - Transport/Router: router.rs, which publishes a message to the peers that take its feature.
-- - Transport/Blobs: blobs/iroh.rs of crates/failsafe-transport/src, with the blob library as a record
--   of functions on what it keeps, and PathBuf::push of the platform among them: where the exported
--   files lie is shown for Unix, where a part without a slash is one component. The tasks of an import run at once: what they send is a list of
--   events in any order.
-- - Transport/Pool: manager.rs, protocol.rs, address.rs and the sending of transport.rs in
--   crates/failsafe-transport/src/iroh. What connecting to a key gives is a function.
-- - Clipboard/Limits, Clipboard/Payload, Clipboard/Feature: limits.rs, payload.rs and feature/ of
--   crates/failsafe-clipboard/src. What the clipboard shows is an argument of each turn of the
--   watcher; images, hashes and the blob store are functions.
-- - Daemon/Config, Daemon/Sync, Daemon/Service: config.rs, sync.rs and daemon.rs of
--   crates/failsafe/src: how a daemon follows the server's list of devices. What the server
--   answers and what saving the configuration does are arguments.
-- - Server/RateLimit, Server/RefreshToken, Server/Pairing, Server/Devices: rate_limit.rs,
--   refresh_token.rs, pairing.rs, presence.rs, routes/pairing.rs and routes/devices.rs of
--   crates/failsafe-server/src. A table is the list of its rows; hashing, signing and the
--   errors of its updates are functions, random values and times are arguments. Reads of the database
--   do not fail in the token and pairing parts.
-- - Server/Accounts, Server/Totp, Server/Jwt, Server/Error: routes/auth.rs, totp.rs, auth.rs,
--   middleware.rs and error.rs of crates/failsafe-server/src. Ciphers, TOTP and the signature of a
--   token are parameters with their round-trip laws.
-- - Prelude: lists, texts, state with errors, hash maps as association lists, big-endian words, machine bounds.
--
-- JSON is a parameter (Core/Message, Serde) with the law that what is written is read back; the
-- tests give a concrete one. UUIDs are numbers, error texts are constructors, and u64 sums wrap
-- around as in a release build. Send/Manifest/Asserts has the one assertion of a debug build. A hash map with number keys is kept in the order of its keys, so
-- that maps with the same entries are equal; the code sorts or sums where it walks such a map.
--
-- Fuel: the halving loop of the planner gets one more than the length that it starts from, which
-- each turn halves, and the loop over the entries gets their number, of which each turn takes one
-- at least.
--
-- Not modelled: logging, progress messages, the send halves of streams and byte relays, the
-- iroh library itself, the blob library itself, walking directories, the system's clipboard itself,
-- terminals, the command line, the database's schema, the web framework and the user interfaces.
pub mod Prelude
pub mod Core
pub mod Transport
pub mod Send
pub mod Clipboard
pub mod Daemon
pub mod Server
mod Tests
