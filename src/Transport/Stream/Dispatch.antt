-- ===== src/Transport/Stream/Dispatch.antt =====
-- iroh/stream.rs, `handle_incoming_bi_stream`: what each kind of stream leads to.
use mathlib.Core.List.{append_assoc, append-nil}
use failsafe.Prelude.{
  ◌∙◌, ℕ, ◌≤◌, ◌≡◌, refl, true, false, List, [], ◌++◌, arith, length, nat_beq, if◌then◌else◌, ok,
}
use failsafe.Prelude.Bytes.{u32_to_be_bytes, from_be_bytes-u32}
use failsafe.Core.Message.{DeviceId, FeatureMessage, Serde}
use failsafe.Transport.Codec.{encode, decode, max_message_size}
use failsafe.Transport.Codec.RoundTrip.{encode-IsFrame, decode-encode}
use failsafe.Transport.Handshake.{is_port_handshake, is_shell_handshake}
use failsafe.Transport.Stream.{
  RecvStream, Acceptor, delivered, dropped, recipient_mismatch, handle_incoming_bi_stream,
  handle_feature_frame, deliver,
}
use failsafe.Transport.Stream.Reading.{bytes, IsLive, read_exact-Prefix}

length-u32 : (n : ℕ) → length (u32_to_be_bytes n) ≡ 4
unfolding u32_to_be_bytes
length-u32 n = refl

-- The length of a frame that `encode` writes is too small to be read as either handshake.
header-not-handshake :
    (n : ℕ)
    → n ≤ max_message_size
    → (is_port_handshake (u32_to_be_bytes n) ≡ false)
      × (is_shell_handshake (u32_to_be_bytes n) ≡ false)
unfolding is_port_handshake is_shell_handshake u32_to_be_bytes
header-not-handshake n h = ground arith

module _ (json : Serde FeatureMessage) (device local : DeviceId) (port shell : Acceptor) where
  -- The header has been read, and the frame's payload is next.
  handle_feature_frame-body :
      (m : FeatureMessage) (body rest : List ℕ) (s : RecvStream)
      → decode json (u32_to_be_bytes (length body) ++ body) ≡ ok m
      → length body ≤ max_message_size
      → IsLive s
      → bytes s ≡ body ++ rest
      → handle_feature_frame json (u32_to_be_bytes (length body)) s device local true
        ≡ deliver m device local true
  unfolding handle_feature_frame
  handle_feature_frame-body m body rest s d fits live e =
      let p = read_exact-Prefix body rest s live e in
      ground (arith, p.reads, d, from_be_bytes-u32 (length body))

  dispatch-frame :
      (m : FeatureMessage) (body rest : List ℕ) (s : RecvStream)
      → decode json (u32_to_be_bytes (length body) ++ body) ≡ ok m
      → length body ≤ max_message_size
      → IsLive s
      → bytes s ≡ (u32_to_be_bytes (length body) ++ body) ++ rest
      → handle_incoming_bi_stream json s device local true port shell ≡ deliver m device local true
  unfolding handle_incoming_bi_stream
  dispatch-frame m body rest s d fits live e =
      let header = u32_to_be_bytes (length body) in
      let p = read_exact-Prefix header (body ++ rest) s live (e ∙ append_assoc header body rest) in
      let frame = handle_feature_frame-body m body rest p.rest d fits p.live p.left in
      let plain = header-not-handshake (length body) fits in
      ground (arith, p.reads, frame, plain, length-u32 (length body))

  -- A stream that starts with a frame that `encode` wrote, however it is cut and whatever follows,
  -- leads to the message under the name of the connection's device if it is addressed to this
  -- device, and is refused otherwise.
  pub handle-encode :
      (m : FeatureMessage) (f rest : List ℕ) (s : RecvStream)
      → encode json m ≡ ok f
      → IsLive s
      → bytes s ≡ f ++ rest
      → handle_incoming_bi_stream json s device local true port shell ≡ (
          if nat_beq m.to local
          then delivered (record m { from = device })
          else dropped recipient_mismatch)
  unfolding deliver
  handle-encode m f rest s h live e =
      let frame = encode-IsFrame json m f h in
      let read = decode-encode json m f [] h in
      dispatch-frame m frame.body rest s (cc (read, frame.shape, append-nil f)) frame.fits live
        (cc (e, frame.shape))
