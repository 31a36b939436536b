-- ===== src/Send/Payload.antt =====
-- payload.rs of crates/failsafe-send: the envelopes that two devices exchange about a transfer.
use failsafe.Prelude.{ℕ, Bool, String, Option, none, some, List, [], ◌∷◌, ◌+◌, ◌%◌}
use failsafe.Prelude.Words.{u64_mod}

abbrev pub Uuid : Type 0
Uuid = ℕ

abbrev pub send_payload_version : ℕ
send_payload_version = 1

pub record FileEntry : Type 0 where
  pub name : String
  pub size : ℕ

pub record SendPayload : Type 0 where
  pub version : ℕ
  pub transfer_id : Uuid
  pub sender_name : String
  pub collection_hash : String
  pub entries : List FileEntry

pub record SendTransferHeader : Type 0 where
  pub version : ℕ
  pub transfer_id : Uuid
  pub sender_name : String
  pub collection_hash : String
  pub bytes_total : ℕ
  pub entry_count : ℕ

pub record SendTransferChunk : Type 0 where
  pub transfer_id : Uuid
  pub chunk_index : ℕ
  pub entries : List FileEntry

pub record SendTransferEnd : Type 0 where
  pub transfer_id : Uuid
  pub chunk_count : ℕ

pub record SendAck : Type 0 where
  pub transfer_id : Uuid
  pub is_ok : Bool
  pub error : Option String

pub data SendPhase : Type 0 where
  preparing storing sending waiting_for_ack : SendPhase

pub record SendProgress : Type 0 where
  pub transfer_id : Uuid
  pub phase : SendPhase
  pub bytes_done : ℕ
  pub bytes_total : ℕ
  pub current_file : Option String

pub data SendEnvelope : Type 0 where
  transfer : SendPayload → SendEnvelope
  transfer_header : SendTransferHeader → SendEnvelope
  transfer_chunk : SendTransferChunk → SendEnvelope
  transfer_end : SendTransferEnd → SendEnvelope
  ack : SendAck → SendEnvelope
  progress : SendProgress → SendEnvelope

-- `entries.iter().map(|entry| entry.size).sum()`, which wraps around at u64 in a release build.
abbrev pub sum_sizes : List FileEntry → ℕ
sum_sizes [] = 0
sum_sizes (entry ∷ entries) = (entry.size + sum_sizes entries) % u64_mod

-- `parse_ack`, of an envelope that has been read.
unfoldable pub ack_of : SendEnvelope → Option SendAck
ack_of (ack a) = some a
ack_of (transfer _) = none
ack_of (transfer_header _) = none
ack_of (transfer_chunk _) = none
ack_of (transfer_end _) = none
ack_of (progress _) = none
