-- ===== src/Transport/Stream/Attribution.antt =====
-- iroh/stream.rs: which device an outcome names.
use failsafe.Prelude.{
  ℕ, ◌≡◌, refl, inl, inr, Bool, List, ◌++◌, nat_beq, nat_beq_iff, Option-cases, Bool-cases,
  Result-cases, ltb,
}
use failsafe.Prelude.Bytes.{from_be_bytes}
use failsafe.Core.Message.{DeviceId, FeatureMessage, Serde}
use failsafe.Transport.Codec.{decode, max_message_size}
use failsafe.Transport.Handshake.{is_port_handshake, is_shell_handshake, parse_port_init}
use failsafe.Transport.Stream.{
  RecvStream, Acceptor, open_, Outcome, shell_session, port_session, delivered, dropped, read_exact,
  handle_incoming_bi_stream, try_accept_shell_stream, try_accept_port_stream, accept_port_init,
  handle_feature_frame, handle_frame, deliver, dispatch_header, forward_to_acceptor, closed,
  unregistered,
}

-- The outcome names the connection's device as its source, and a message is for this device.
abbrev pub Attributed : DeviceId → DeviceId → Outcome → Type 0
Attributed device local (shell_session x) = x.from ≡ device
Attributed device local (port_session x) = x.from ≡ device
Attributed device local (delivered m) = (m.from ≡ device) × (m.to ≡ local)
Attributed device local (dropped r) = Unit {0}

module _ (device local : DeviceId) where
  forward-Attributed :
      (a : Acceptor) (o : Outcome)
      → Attributed device local o
      → Attributed device local (forward_to_acceptor a o)
  unfolding forward_to_acceptor
  forward-Attributed unregistered o h = tt
  forward-Attributed closed o h = tt
  forward-Attributed open_ o h = h

  deliver-Attributed :
      (m : FeatureMessage) (inbox : Bool) → Attributed device local (deliver m device local inbox)
  unfolding deliver
  deliver-Attributed m inbox = elim (Bool-cases (nat_beq m.to local)) [
    | inl e ↦ rw e (elim (Bool-cases inbox) [
      | inl o ↦ rw o (refl, (nat_beq_iff m.to local).0 e)
      | inr c ↦ rw c tt
    ])
    | inr e ↦ rw e tt
  ]

  accept_port_init-Attributed :
      (init : List ℕ) (recv : RecvStream) (a : Acceptor)
      → Attributed device local (accept_port_init init recv a device)
  unfolding accept_port_init
  accept_port_init-Attributed init recv a = elim (Option-cases (parse_port_init init)) [
    | inl e ↦ rw (e, accept_port_init) tt
    | inr ((p, protocol), e) ↦ rw (e, accept_port_init) (forward-Attributed a _ refl)
  ]

  port-Attributed :
      (header : List ℕ) (recv : RecvStream) (a : Acceptor)
      → Attributed device local (try_accept_port_stream header recv a device)
  unfolding try_accept_port_stream
  port-Attributed header recv a = elim (Result-cases (read_exact 3 recv)) [
    | inl (x, e) ↦ rw (e, try_accept_port_stream) tt
    | inr ((tail, r), e) ↦
        rw (e, try_accept_port_stream) (accept_port_init-Attributed (header ++ tail) r a)
  ]

  shell-Attributed :
      (recv : RecvStream) (a : Acceptor)
      → Attributed device local (try_accept_shell_stream recv a device)
  unfolding try_accept_shell_stream
  shell-Attributed recv a = elim (Result-cases (read_exact 4 recv)) [
    | inl (x, e) ↦ rw (e, try_accept_shell_stream) tt
    | inr ((sizes, r), e) ↦ rw (e, try_accept_shell_stream) (forward-Attributed a _ refl)
  ]

module _ (json : Serde FeatureMessage) (device local : DeviceId) (inbox : Bool) where
  frame-Attributed : (f : List ℕ) → Attributed device local (handle_frame json f device local inbox)
  unfolding handle_frame
  frame-Attributed f = elim (Result-cases (decode json f)) [
    | inl (x, e) ↦ rw (e, handle_frame) tt
    | inr (m, e) ↦ rw (e, handle_frame) (deliver-Attributed device local m inbox)
  ]

  feature-Attributed :
      (header : List ℕ) (recv : RecvStream)
      → Attributed device local (handle_feature_frame json header recv device local inbox)
  unfolding handle_feature_frame
  feature-Attributed header recv =
      let len = from_be_bytes 0 header in
      elim (Bool-cases (ltb max_message_size len)) [
        | inl big ↦ rw big tt
        | inr small ↦ rw small (elim (Result-cases (read_exact len recv)) [
          | inl (x, e) ↦ rw (e, handle_feature_frame) tt
          | inr ((payload, rest), e) ↦
              rw (e, handle_feature_frame) (frame-Attributed (header ++ payload))
        ])
      ]

  -- Whatever bytes arrive, well formed or not, a session or a message that results is attributed
  -- to the device of the connection, never to the name in the message, and a message that is
  -- delivered was addressed to this device.
  pub handle-Attributed :
      (recv : RecvStream) (port shell : Acceptor)
      → Attributed device local (handle_incoming_bi_stream json recv device local inbox port shell)
  unfolding handle_incoming_bi_stream
  handle-Attributed recv port shell = elim (Result-cases (read_exact 4 recv)) [
    | inl (x, e) ↦ rw (e, handle_incoming_bi_stream) tt
    | inr ((header, r), e) ↦ rw (e, handle_incoming_bi_stream) (dispatch header r)
  ]
    where
      dispatch :
          (header : List ℕ) (r : RecvStream)
          → Attributed device local (dispatch_header json header r device local inbox port shell)
      dispatch header r = elim (Bool-cases (is_port_handshake header)) [
        | inl e ↦ rw e (port-Attributed device local header r port)
        | inr e ↦ rw e (elim (Bool-cases (is_shell_handshake header)) [
          | inl f ↦ rw f (shell-Attributed device local r shell)
          | inr f ↦ rw f (feature-Attributed header r)
        ])
      ]
