-- ===== src/Tests/Json.antt =====
-- A small concrete serialiser, which writes the messages and envelopes whose texts are "file_send"
-- and "a". It shows that what is asked of JSON can be met.
use failsafe.Prelude.{
  ℕ, zero, suc, ◌≡◌, inl, inr, Option, none, some, List, [], ◌∷◌, arith, ◌==◌, string_key,
  if◌then◌else◌, Bool-cases, Option-cases, ◌&&◌, beq→eq,
}
use text.Mathlib.TextEquality.{eq_iff}
use failsafe.Core.Message.{FeatureMessage, Serde}
use failsafe.Send.Payload.{
  FileEntry, SendEnvelope, transfer, transfer_header, transfer_chunk, transfer_end, ack, progress,
}

abbrev write_message : FeatureMessage → Option (List ℕ)
write_message m =
    if m.feature == "file_send" then some (m.version ∷ m.from ∷ m.to ∷ m.payload) else none

abbrev read_message : List ℕ → Option FeatureMessage
read_message (v ∷ f ∷ t ∷ p) =
    some (record { version = v; from = f; to = t; feature = "file_send"; payload = p })
read_message _ = none

pub read-write_message :
    (m : FeatureMessage) (bytes : List ℕ)
    → write_message m ≡ some bytes
    → read_message bytes ≡ some m
read-write_message m bytes h = elim (Bool-cases (m.feature == "file_send")) [
  | inl same ↦ ground (arith, same, beq→eq m.feature "file_send" same)
  | inr other ↦ ground (arith, other)
]

abbrev pub message_json : Serde FeatureMessage
message_json = record {
  to_vec = write_message;
  from_slice = read_message;
  round_trip = read-write_message;
}

abbrev write_entries : List FileEntry → Option (List ℕ)
write_entries [] = some []
write_entries (e ∷ es) = elim (write_entries es) [
  | none ↦ none
  | some sizes ↦ if e.name == "a" then some (e.size ∷ sizes) else none
]

abbrev read_entries : List ℕ → List FileEntry
read_entries [] = []
read_entries (size ∷ sizes) = record { name = "a"; size = size } ∷ read_entries sizes

read-write_entries :
    (es : List FileEntry) (sizes : List ℕ) → write_entries es ≡ some sizes → read_entries sizes ≡ es
read-write_entries [] sizes h = ground arith
read-write_entries (e ∷ es) sizes h = elim (Option-cases (write_entries es)) [
  | inl p ↦ ground (arith, p)
  | inr (rest, p) ↦ elim (Bool-cases (e.name == "a")) [
    | inl same ↦ ground (arith, p, same, beq→eq e.name "a" same, read-write_entries es rest p)
    | inr other ↦ ground (arith, p, other)
  ]
]

abbrev write_envelope : SendEnvelope → Option (List ℕ)
write_envelope (transfer_header h) =
    if h.sender_name == "a" && h.collection_hash == "a"
    then some (0 ∷ h.version ∷ h.transfer_id ∷ h.bytes_total ∷ h.entry_count ∷ [])
    else none
write_envelope (transfer_chunk c) = elim (write_entries c.entries) [
  | none ↦ none
  | some sizes ↦ some (1 ∷ c.transfer_id ∷ c.chunk_index ∷ sizes)
]
write_envelope (transfer_end x) = some (2 ∷ x.transfer_id ∷ x.chunk_count ∷ [])
write_envelope (transfer _) = none
write_envelope (ack _) = none
write_envelope (progress _) = none

abbrev read_envelope : List ℕ → Option SendEnvelope
read_envelope (zero ∷ v ∷ t ∷ b ∷ n ∷ []) = some (
    transfer_header (record {
      version = v;
      transfer_id = t;
      sender_name = "a";
      collection_hash = "a";
      bytes_total = b;
      entry_count = n;
    }))
read_envelope (suc zero ∷ t ∷ i ∷ sizes) =
    some
      (transfer_chunk (record { transfer_id = t; chunk_index = i; entries = read_entries sizes }))
read_envelope (suc (suc zero) ∷ t ∷ n ∷ []) =
    some (transfer_end (record { transfer_id = t; chunk_count = n }))
read_envelope _ = none

pub read-write_envelope :
    (e : SendEnvelope) (bytes : List ℕ)
    → write_envelope e ≡ some bytes
    → read_envelope bytes ≡ some e
read-write_envelope (transfer_header h) bytes p =
    ground (arith, eq_iff h.sender_name "a", eq_iff h.collection_hash "a")
read-write_envelope (transfer_chunk c) bytes p = elim (Option-cases (write_entries c.entries)) [
  | inl e ↦ ground (arith, e)
  | inr (sizes, e) ↦ ground (arith, e, read-write_entries c.entries sizes e)
]
read-write_envelope (transfer_end x) bytes p = ground arith
read-write_envelope (transfer _) bytes p = cc
read-write_envelope (ack _) bytes p = cc
read-write_envelope (progress _) bytes p = cc

abbrev pub envelope_json : Serde SendEnvelope
envelope_json = record {
  to_vec = write_envelope;
  from_slice = read_envelope;
  round_trip = read-write_envelope;
}
