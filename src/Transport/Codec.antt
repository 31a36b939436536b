-- ===== src/Transport/Codec.antt =====
-- codec.rs and the error of transport.rs: a frame is a big-endian u32 length and that much JSON.
pub mod RoundTrip
use failsafe.Prelude.{
  ℕ, ◌+◌, ◌*◌, Option, none, some, List, ◌++◌, length, take, drop, ltb, if◌then◌else◌, Result, ok,
  err,
}
use failsafe.Prelude.Bytes.{u32_to_be_bytes, from_be_bytes}
use failsafe.Core.Message.{DeviceId, FeatureMessage, Serde}

pub data CodecError : Type 0 where
  frame_too_short too_large incomplete_frame invalid_json stream_closed read_failed : CodecError

pub data TransportError : Type 0 where
  peer_not_found : DeviceId → TransportError
  disconnected : TransportError
  codec : CodecError → TransportError

abbrev pub max_message_size : ℕ
max_message_size = 16 * 1024 * 1024

module _ (json : Serde FeatureMessage) where
  unfoldable pub frame_payload : List ℕ → Result TransportError (List ℕ)
  frame_payload payload =
      if ltb max_message_size (length payload)
      then err (codec too_large)
      else ok (u32_to_be_bytes (length payload) ++ payload)

  unfoldable pub encode : FeatureMessage → Result TransportError (List ℕ)
  unfolding frame_payload
  encode message = elim (json.to_vec message) [
    | none ↦ err (codec invalid_json)
    | some payload ↦ frame_payload payload
  ]

  unfoldable pub parse : List ℕ → Result TransportError FeatureMessage
  parse bytes = elim (json.from_slice bytes) [
    | none ↦ err (codec invalid_json)
    | some message ↦ ok message
  ]

  unfoldable pub decode : List ℕ → Result TransportError FeatureMessage
  unfolding parse
  decode frame =
      let len = from_be_bytes 0 (take 4 frame) in
      if ltb (length frame) 4
      then err (codec frame_too_short)
      else if ltb max_message_size len
      then err (codec too_large)
      else if ltb (length frame) (4 + len)
      then err (codec incomplete_frame)
      else parse (take len (drop 4 frame))
