-- ===== src/Transport/Stream.antt =====
-- iroh/stream.rs: an incoming bidirectional stream is a shell session, a port session or one
-- feature message. A stream is what arrives on it, piece by piece; it ends after the last piece.
-- The send half travels with the session unchanged and is left out, and so is the log.
pub mod Reading
pub mod Sessions
pub mod Attribution
pub mod Dispatch
use failsafe.Prelude.{
  ℕ, zero, suc, ◌-◌, Bool, true, false, Option, none, some, List, [], ◌∷◌, ◌++◌, length, take, drop,
  ltb, leb, nat_beq, if◌then◌else◌, Result, ok, err,
}
use failsafe.Prelude.Bytes.{from_be_bytes}
use failsafe.Core.Message.{DeviceId, FeatureMessage, Serde}
use failsafe.Transport.Codec.{
  TransportError, codec, stream_closed, read_failed, max_message_size, decode,
}
use failsafe.Transport.Handshake.{
  PortProtocol, is_port_handshake, is_shell_handshake, parse_port_init,
}

-- One piece that `RecvStream::read` may give, or its error.
pub data Arrival : Type 0 where
  chunk : List ℕ → Arrival
  reset : Arrival

abbrev pub RecvStream : Type 0
RecvStream = List Arrival

-- The bytes that a piece adds to what has been read before.
unfoldable pub after_read :
    List ℕ
    → Result TransportError (List ℕ × RecvStream)
    → Result TransportError (List ℕ × RecvStream)
after_read bs (ok (rest, s)) = ok (bs ++ rest, s)
after_read bs (err e) = err e

-- `read` fills at most the rest of the buffer; reading nothing means that the stream is closed.
unfoldable pub read_exact : ℕ → RecvStream → Result TransportError (List ℕ × RecvStream)
unfolding after_read
read_exact zero s = ok ([], s)
read_exact (suc n) [] = err (codec stream_closed)
read_exact (suc n) (reset ∷ s) = err (codec read_failed)
read_exact (suc n) (chunk [] ∷ s) = err (codec stream_closed)
read_exact (suc n) (chunk (b ∷ bs) ∷ s) =
    let whole = after_read (b ∷ bs) (read_exact (n - length bs) s) in
    if leb (length bs) n then whole else ok (b ∷ take n bs, chunk (drop n bs) ∷ s)

pub record ShellSession : Type 0 where
  pub from : DeviceId
  pub rows : ℕ
  pub cols : ℕ
  pub recv : RecvStream

pub record PortSession : Type 0 where
  pub from : DeviceId
  pub remote_port : ℕ
  pub protocol : PortProtocol
  pub recv : RecvStream

-- The receiving end of a channel that may not be registered, or may have been dropped.
pub data Acceptor : Type 0 where
  unregistered closed open_ : Acceptor

pub data Reason : Type 0 where
  no_header port_tail_missing port_init_invalid shell_size_missing : Reason
  acceptor_missing acceptor_closed : Reason
  frame_too_large frame_incomplete undecodable recipient_mismatch inbox_closed : Reason

-- What one incoming stream leads to.
pub data Outcome : Type 0 where
  shell_session : ShellSession → Outcome
  port_session : PortSession → Outcome
  delivered : FeatureMessage → Outcome
  dropped : Reason → Outcome

unfoldable pub forward_to_acceptor : Acceptor → Outcome → Outcome
forward_to_acceptor unregistered session = dropped acceptor_missing
forward_to_acceptor closed session = dropped acceptor_closed
forward_to_acceptor open_ session = session

unfoldable pub accept_port_init : List ℕ → RecvStream → Acceptor → DeviceId → Outcome
unfolding forward_to_acceptor
accept_port_init init recv acceptor device = elim (parse_port_init init) [
  | none ↦ dropped port_init_invalid
  | some (remote_port, protocol) ↦ forward_to_acceptor acceptor (
      port_session
        (record { from = device; remote_port = remote_port; protocol = protocol; recv = recv }))
]

unfoldable pub try_accept_port_stream : List ℕ → RecvStream → Acceptor → DeviceId → Outcome
unfolding accept_port_init
try_accept_port_stream header recv acceptor device = elim (read_exact 3 recv) [
  | err e ↦ dropped port_tail_missing
  | ok (tail, recv') ↦ accept_port_init (header ++ tail) recv' acceptor device
]

unfoldable pub try_accept_shell_stream : RecvStream → Acceptor → DeviceId → Outcome
unfolding forward_to_acceptor
try_accept_shell_stream recv acceptor device = elim (read_exact 4 recv) [
  | err e ↦ dropped shell_size_missing
  | ok (size_buf, recv') ↦ forward_to_acceptor acceptor (
      shell_session (record {
        from = device;
        rows = from_be_bytes 0 (take 2 size_buf);
        cols = from_be_bytes 0 (drop 2 size_buf);
        recv = recv';
      }))
]

-- A message for another device is refused, and the sender's name for itself is overwritten.
unfoldable pub deliver : FeatureMessage → DeviceId → DeviceId → Bool → Outcome
deliver message device local_device_id inbox_open =
    if nat_beq message.to local_device_id
    then (if inbox_open then delivered (record message { from = device }) else dropped inbox_closed)
    else dropped recipient_mismatch

module _ (json : Serde FeatureMessage) where
  unfoldable pub handle_frame : List ℕ → DeviceId → DeviceId → Bool → Outcome
  unfolding deliver
  handle_frame frame device local_device_id inbox_open = elim (decode json frame) [
    | err e ↦ dropped undecodable
    | ok message ↦ deliver message device local_device_id inbox_open
  ]

  unfoldable pub handle_feature_frame : List ℕ → RecvStream → DeviceId → DeviceId → Bool → Outcome
  unfolding handle_frame
  handle_feature_frame header recv device local_device_id inbox_open =
      let len = from_be_bytes 0 header in
      if ltb max_message_size len then dropped frame_too_large else elim (read_exact len recv) [
        | err e ↦ dropped frame_incomplete
        | ok (payload, rest) ↦ handle_frame (header ++ payload) device local_device_id inbox_open
      ]

  unfoldable pub dispatch_header :
      List ℕ → RecvStream → DeviceId → DeviceId → Bool → Acceptor → Acceptor → Outcome
  unfolding try_accept_port_stream try_accept_shell_stream handle_feature_frame
  dispatch_header header recv device local_device_id inbox_open port_acceptor shell_acceptor =
      if is_port_handshake header
      then try_accept_port_stream header recv port_acceptor device
      else if is_shell_handshake header
      then try_accept_shell_stream recv shell_acceptor device
      else handle_feature_frame header recv device local_device_id inbox_open

  unfoldable pub handle_incoming_bi_stream :
      RecvStream → DeviceId → DeviceId → Bool → Acceptor → Acceptor → Outcome
  unfolding dispatch_header
  handle_incoming_bi_stream recv device local_device_id inbox_open port_acceptor shell_acceptor =
      elim (read_exact 4 recv) [
        | err e ↦ dropped no_header
        | ok (header, recv') ↦
            dispatch_header header recv' device local_device_id inbox_open port_acceptor
              shell_acceptor
      ]
