-- ===== src/Send/Manifest.antt =====
-- manifest.rs: a transfer whose manifest does not fit one message is cut into chunks, and put
-- together again by the receiver.
pub mod Asserts
pub mod Plan
pub mod Receive
pub mod Reassembly
pub mod Pushed
use failsafe.Prelude.{
  ℕ, zero, suc, ◌+◌, ◌-◌, ◌/◌, ◌<◌, Bool, true, false, ◌&&◌, not, Option, none, some, List, [], ◌∷◌,
  ◌++◌, map, length, take, drop, keep, min, ltb, nat_beq, if◌then◌else◌, Result, ok, err,
}
use failsafe.Prelude.OrdMap
use failsafe.Prelude.Words.{u32_max, saturating_add}
use failsafe.Core.Message.{DeviceId, FeatureMessage, FeatureId, Serde, new_message}
use failsafe.Transport.Codec.{encode}
use failsafe.Send.Payload.{
  Uuid, FileEntry, SendPayload, SendTransferHeader, SendTransferChunk, SendTransferEnd,
  SendEnvelope, transfer, transfer_header, transfer_chunk, transfer_end, sum_sizes,
  send_payload_version,
}

abbrev pub initial_chunk_entries : ℕ
initial_chunk_entries = 4096

-- `SendFeatureSpec::feature_id()`.
abbrev pub send_feature_id : FeatureId
send_feature_id = "file_send"

unfoldable pub is_ok {ℓ} : {E A : Type ℓ} → Result E A → Bool
is_ok (ok a) = true
is_ok (err e) = false

-- `encode_envelope` expects an envelope to be serializable, and panics if it is not.
module _ (json : Serde FeatureMessage) (envelopes : Serde SendEnvelope) (from to : DeviceId) where
  unfoldable pub transfer_envelope_fits : SendEnvelope → Bool
  unfolding is_ok
  transfer_envelope_fits envelope = elim (envelopes.to_vec envelope) [
    | none ↦ false
    | some payload ↦ is_ok (encode json (new_message from to send_feature_id payload))
  ]

abbrev pub new_chunk : Uuid → ℕ → List FileEntry → SendTransferChunk
new_chunk transfer_id chunk_index entries = record {
  transfer_id = transfer_id;
  chunk_index = chunk_index;
  entries = entries;
}

-- The planner, over the test of what fits one message.
module _ (fits : SendEnvelope → Bool) (transfer_id : Uuid) where
  -- The inner loop: the first of `chunk_len`, `chunk_len / 2`, … whose chunk fits, or 0. `none`
  -- means that the fuel ran out.
  unfoldable pub halve : ℕ → ℕ → ℕ → List FileEntry → Option ℕ
  halve zero chunk_len chunk_index entries = none
  halve (suc fuel) chunk_len chunk_index entries =
      let rest = halve fuel (chunk_len / 2) chunk_index entries in
      if nat_beq chunk_len 0
      then some 0
      else if fits (transfer_chunk (new_chunk transfer_id chunk_index (take chunk_len entries)))
      then some chunk_len
      else rest

  -- A chunk of the length found, or of one entry where none fits.
  unfoldable pub chunk_len_of : ℕ → List FileEntry → Option ℕ
  chunk_len_of chunk_index entries =
      let start = min initial_chunk_entries (length entries) in
      elim (halve (suc start) start chunk_index entries) [
        | none ↦ none
        | some chunk_len ↦ if nat_beq chunk_len 0 then some 1 else some chunk_len
      ]

  -- The outer loop, from the entries that are left; it gives the chunks and their number.
  unfoldable pub plan_chunks : ℕ → ℕ → List FileEntry → Option (List SendTransferChunk × ℕ)
  plan_chunks fuel chunk_index [] = some ([], chunk_index)
  plan_chunks zero chunk_index (entry ∷ entries) = none
  plan_chunks (suc fuel) chunk_index (entry ∷ entries) =
      let left = entry ∷ entries in
      elim (chunk_len_of chunk_index left) [
        | none ↦ none
        | some chunk_len ↦
            elim (plan_chunks fuel (saturating_add u32_max chunk_index 1) (drop chunk_len left)) [
              | none ↦ none
              | some (chunks, count) ↦
                  some (new_chunk transfer_id chunk_index (take chunk_len left) ∷ chunks, count)
            ]
      ]

abbrev pub header_of : SendPayload → SendTransferHeader
header_of payload = record {
  version = send_payload_version;
  transfer_id = payload.transfer_id;
  sender_name = payload.sender_name;
  collection_hash = payload.collection_hash;
  bytes_total = sum_sizes payload.entries;
  entry_count = min (length payload.entries) u32_max;
}

abbrev pub end_of : Uuid → ℕ → SendEnvelope
end_of transfer_id count = transfer_end (record { transfer_id = transfer_id; chunk_count = count })

-- The planner of a release build, which leaves out the assertion of Manifest/Asserts.
unfoldable pub plan_transfer_envelopes :
    (SendEnvelope → Bool) → SendPayload → Option (List SendEnvelope)
plan_transfer_envelopes fits payload =
    if fits (transfer payload)
    then some (transfer payload ∷ [])
    else elim (plan_chunks fits payload.transfer_id (length payload.entries) 0 payload.entries) [
      | none ↦ none
      | some (chunks, count) ↦ some (
          transfer_header (header_of payload)
          ∷ (map transfer_chunk chunks ++ end_of payload.transfer_id count ∷ []))
    ]

-- The receiver's side.
pub record ChunkedTransfer : Type 0 where
  pub header : SendTransferHeader
  pub chunks : List (ℕ × List FileEntry)
  pub end_received : Bool
  pub expected_chunk_count : Option ℕ

pub data ManifestError : Type 0 where
  -- the number of entries that came, and the indices of the chunks that did not
  incomplete : ℕ → Option (List ℕ) → ManifestError
  miscounted : ℕ → ManifestError
  size_mismatch : ℕ → ManifestError

unfoldable pub new : SendTransferHeader → ChunkedTransfer
new header = record {
  header = header;
  chunks = [];
  end_received = false;
  expected_chunk_count = none;
}

unfoldable pub push_chunk : ℕ → List FileEntry → ChunkedTransfer → ChunkedTransfer
push_chunk chunk_index entries t = record t { chunks = OrdMap.insert chunk_index entries t.chunks }

unfoldable pub mark_end : ℕ → ChunkedTransfer → ChunkedTransfer
mark_end chunk_count t = record t { end_received = true; expected_chunk_count = some chunk_count }

abbrev pub sum_lengths : List (List FileEntry) → ℕ
sum_lengths [] = 0
sum_lengths (es ∷ rest) = length es + sum_lengths rest

unfoldable pub entries_received : ChunkedTransfer → ℕ
entries_received t = sum_lengths (OrdMap.values t.chunks)

unfoldable pub is_complete : ChunkedTransfer → Bool
unfolding entries_received
is_complete t =
    nat_beq (entries_received t) t.header.entry_count
    && elim t.expected_chunk_count [ none ↦ true | some count ↦ nat_beq (length t.chunks) count ]

-- `0..count`.
abbrev pub range : ℕ → ℕ → List ℕ
range zero start = []
range (suc count) start = start ∷ range count (suc start)

abbrev is_missing : List (ℕ × List FileEntry) → ℕ → Bool
is_missing chunks index = elim (OrdMap.get index chunks) [ none ↦ true | some es ↦ false ]

unfoldable pub missing_chunks : ChunkedTransfer → Option (List ℕ)
missing_chunks t = elim t.expected_chunk_count [
  | none ↦ none
  | some count ↦ some (keep (is_missing t.chunks) (range count 0))
]

-- `sort_unstable` on the indices.
abbrev pub sorted_insert : ℕ → List ℕ → List ℕ
sorted_insert a [] = a ∷ []
sorted_insert a (b ∷ bs) = if ltb b a then b ∷ sorted_insert a bs else a ∷ b ∷ bs

abbrev pub sort : List ℕ → List ℕ
sort [] = []
sort (a ∷ as') = sorted_insert a (sort as')

abbrev or_empty : Option (List FileEntry) → List FileEntry
or_empty none = []
or_empty (some es) = es

abbrev pub gather : List (ℕ × List FileEntry) → List ℕ → List FileEntry
gather chunks [] = []
gather chunks (index ∷ indices) = or_empty (OrdMap.get index chunks) ++ gather chunks indices

unfoldable pub into_payload : ChunkedTransfer → Result ManifestError SendPayload
unfolding is_complete missing_chunks entries_received
into_payload t =
    let entries = gather t.chunks (sort (OrdMap.keys t.chunks)) in
    if not (is_complete t)
    then err (incomplete (entries_received t) (missing_chunks t))
    else if not (nat_beq (length entries) t.header.entry_count)
    then err (miscounted (length entries))
    else if not (nat_beq (sum_sizes entries) t.header.bytes_total)
    then err (size_mismatch (sum_sizes entries))
    else ok (record {
      version = t.header.version;
      transfer_id = t.header.transfer_id;
      sender_name = t.header.sender_name;
      collection_hash = t.header.collection_hash;
      entries = entries;
    })
