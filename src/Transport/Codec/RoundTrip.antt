-- ===== src/Transport/Codec/RoundTrip.antt =====
-- codec.rs: what `decode` makes of what `encode` writes.
use failsafe.Prelude.{
  ℕ, ◌≤◌, ◌≡◌, inl, inr, some, List, ◌++◌, arith, length, ltb, ltb→le, Bool-cases, Option-cases, ok,
  length-append, take-length-append,
}
use failsafe.Prelude.Bytes.{u32_to_be_bytes, from_be_bytes-u32}
use failsafe.Core.Message.{FeatureMessage, Serde}
use failsafe.Transport.Codec.{encode, decode, parse, max_message_size}

-- What a successful `encode` wrote.
pub record IsFrame (json : Serde FeatureMessage) (m : FeatureMessage) (f : List ℕ) : Type 0 where
  pub body : List ℕ
  pub written : json.to_vec m ≡ some body
  pub fits : length body ≤ max_message_size
  pub shape : f ≡ u32_to_be_bytes (length body) ++ body

module _ (json : Serde FeatureMessage) where
  pub encode-IsFrame : (m : FeatureMessage) (f : List ℕ) → encode json m ≡ ok f → IsFrame json m f
  unfolding encode
  encode-IsFrame m f h = elim (Option-cases (json.to_vec m)) [
    | inl e ↦ absurd (ground (arith, e))
    | inr (body, e) ↦ elim (Bool-cases (ltb max_message_size (length body))) [
      | inl big ↦ absurd (ground (arith, e, big))
      | inr small ↦ record {
        body = body;
        written = e;
        fits = ltb→le max_message_size (length body) small;
        shape = ground (arith, e, small);
      }
    ]
  ]

  decode-frame :
      (body rest : List ℕ)
      → length body ≤ max_message_size
      → decode json ((u32_to_be_bytes (length body) ++ body) ++ rest) ≡ parse json body
  unfolding decode u32_to_be_bytes
  decode-frame body rest h = ground (
    arith,
    from_be_bytes-u32 (length body),
    length-append body rest,
    take-length-append body rest,
  )

  -- A frame is read back whatever bytes follow it.
  pub decode-encode :
      (m : FeatureMessage) (f rest : List ℕ) → encode json m ≡ ok f → decode json (f ++ rest) ≡ ok m
  unfolding parse
  decode-encode m f rest h =
      let frame = encode-IsFrame m f h in
      let back = json.round_trip m frame.body frame.written in
      rw frame.shape (rw (decode-frame frame.body rest frame.fits, parse) (ground (arith, back)))
