-- ===== src/Transport/Stream/Sessions.antt =====
-- iroh/stream.rs: what a session init leads to.
use mathlib.Core.List.{append-nil}
use failsafe.Prelude.{ℕ, ◌<◌, ◌≡◌, refl, Bool, true, false, List, [], ◌∷◌, ◌++◌, arith}
use failsafe.Prelude.Bytes.{u16_to_be_bytes, from_be_bytes-u16}
use failsafe.Core.Message.{DeviceId, FeatureMessage, Serde}
use failsafe.Transport.Handshake.{
  PortProtocol, tcp, shell_handshake, port_handshake, is_port_handshake, is_shell_handshake,
  build_port_init, build_shell_init, parse-build_port_init,
}
use failsafe.Transport.Stream.{
  RecvStream, Acceptor, open_, shell_session, port_session, handle_incoming_bi_stream,
}
use failsafe.Transport.Stream.Reading.{bytes, IsLive, read_exact-Prefix}

handshakes_differ :
    (is_port_handshake shell_handshake ≡ false)
    × (is_shell_handshake shell_handshake ≡ true)
    × (is_port_handshake port_handshake ≡ true)
unfolding is_port_handshake is_shell_handshake
handshakes_differ = (refl, refl, refl)

module _ (json : Serde FeatureMessage) (device local : DeviceId) (inbox : Bool) where
  -- A stream that starts with a shell init, however it is cut, is handed to an open shell acceptor
  -- as a session with the connection's device, the sizes that were sent, and the bytes that follow.
  pub handle-build_shell_init :
      (rows cols : ℕ) (rest : List ℕ) (s : RecvStream) (port : Acceptor)
      → rows < 65536
      → cols < 65536
      → IsLive s
      → bytes s ≡ build_shell_init rows cols ++ rest
      → (t : RecvStream) × (handle_incoming_bi_stream json s device local inbox port open_
          ≡ shell_session (record { from = device; rows = rows; cols = cols; recv = t }))
        × (bytes t ≡ rest)
  unfolding handle_incoming_bi_stream build_shell_init
  handle-build_shell_init rows cols rest s port hr hc live e =
      let sizes = u16_to_be_bytes rows ++ u16_to_be_bytes cols in
      let p = read_exact-Prefix shell_handshake (sizes ++ rest) s live e in
      let q = read_exact-Prefix sizes rest p.rest p.live p.left in
      (
        q.rest,
        ground (
          arith,
          p.reads,
          q.reads,
          handshakes_differ,
          from_be_bytes-u16 rows,
          from_be_bytes-u16 cols,
        ),
        q.left,
      )

  -- The same for a port init and an open port acceptor.
  pub handle-build_port_init :
      (remote_port : ℕ) (protocol : PortProtocol) (rest : List ℕ) (s : RecvStream)
      (shell : Acceptor)
      → remote_port < 65536
      → IsLive s
      → bytes s ≡ build_port_init remote_port protocol ++ rest
      → (t : RecvStream) × (handle_incoming_bi_stream json s device local inbox open_ shell
          ≡ port_session
              (record { from = device; remote_port = remote_port; protocol = protocol; recv = t }))
        × (bytes t ≡ rest)
  unfolding handle_incoming_bi_stream build_port_init
  handle-build_port_init remote_port tcp rest s shell h live e =
      let tail = u16_to_be_bytes remote_port ++ 0 ∷ [] in
      let p = read_exact-Prefix port_handshake (tail ++ rest) s live e in
      let q = read_exact-Prefix tail rest p.rest p.live p.left in
      (
        q.rest,
        ground (
          arith,
          p.reads,
          q.reads,
          handshakes_differ,
          parse-build_port_init remote_port tcp [] h,
          append-nil (port_handshake ++ tail),
        ),
        q.left,
      )
