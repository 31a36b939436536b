-- ===== src/Send/Feature.antt =====
-- feature.rs of crates/failsafe-send, `handle_message`: what a device does with each envelope. The
-- tasks that it spawns and the notices to waiters are a list of effects. Each message is handled
-- to its end before the next, as the daemon calls it.
pub mod Arrival
pub mod Leads
pub mod Transfers
use failsafe.Prelude.{
  ℕ, ◌≡◌, Bool, true, false, Option, none, some, List, [], ◌∷◌, ◌++◌, map, nat_key, if◌then◌else◌,
  Result, ok, err,
}
use failsafe.Prelude.Assoc.{get, insert, remove}
use failsafe.Core.Message.{DeviceId, FeatureMessage, Serde}
use failsafe.Send.Payload.{
  Uuid, SendPayload, SendTransferHeader, SendTransferChunk, SendTransferEnd, SendAck, SendProgress,
  SendEnvelope, transfer, transfer_header, transfer_chunk, transfer_end, ack, progress,
}
use failsafe.Send.Manifest.{
  ChunkedTransfer, ManifestError, new, push_chunk, mark_end, is_complete, into_payload,
}
use failsafe.Send.Coordinator.{Pending, Notice, complete, result_of_ack, report_progress}

pub data SendError : Type 0 where
  invalid_envelope : SendError
  unknown_chunk : Uuid → SendError
  unknown_end : Uuid → SendError
  bad_manifest : ManifestError → SendError

pub data Effect : Type 0 where
  -- `spawn_transfer_handler`, `spawn_incomplete_chunk_timeout`
  spawn_transfer : DeviceId → SendPayload → Effect
  spawn_timeout : DeviceId → Uuid → Effect
  notice : Notice → Effect

abbrev pub Chunked : Type 0
Chunked = List (Uuid × ChunkedTransfer)

pub record State : Type 0 where
  pub pending_chunked : Chunked
  pub waiters : Pending

pub record Step (A : Type 0) : Type 0 where
  pub state : Chunked
  pub result : Result SendError A
  pub effects : List Effect

-- A complete transfer leaves the table before its manifest is checked. The result says whether a
-- handler was spawned.
abbrev finalize : DeviceId → Uuid → Chunked → Result ManifestError SendPayload → Step Bool
finalize from transfer_id pending (ok payload) = record {
  state = remove transfer_id pending;
  result = ok true;
  effects = spawn_transfer from payload ∷ [];
}
finalize from transfer_id pending (err e) = record {
  state = remove transfer_id pending;
  result = err (bad_manifest e);
  effects = [];
}

unfoldable pub try_finalize_chunked_transfer : DeviceId → Uuid → Chunked → Step Bool
try_finalize_chunked_transfer from transfer_id pending = elim (get transfer_id pending) [
  | none ↦ record { state = pending; result = ok false; effects = [] }
  | some t ↦
      if is_complete t
      then finalize from transfer_id pending (into_payload t)
      else record { state = pending; result = ok false; effects = [] }
]

-- `.await?` on the result, with the boolean forgotten.
abbrev finished : Step Bool → Step (Unit {0})
finished s = record {
  state = s.state;
  result = elim s.result [ ok spawned ↦ ok tt | err e ↦ err e ];
  effects = s.effects;
}

-- After an end that did not finish the transfer, the missing chunks are waited for.
abbrev or_wait : DeviceId → Uuid → Step Bool → Step (Unit {0})
or_wait from transfer_id s = elim s.result [
  | ok true ↦ record { state = s.state; result = ok tt; effects = s.effects }
  | ok false ↦ record {
    state = s.state;
    result = ok tt;
    effects = s.effects ++ spawn_timeout from transfer_id ∷ [];
  }
  | err e ↦ record { state = s.state; result = err e; effects = s.effects }
]

unfoldable pub handle_header : SendTransferHeader → Chunked → Step (Unit {0})
handle_header header pending = record {
  state = insert header.transfer_id (new header) pending;
  result = ok tt;
  effects = [];
}

unfoldable pub handle_chunk : DeviceId → SendTransferChunk → Chunked → Step (Unit {0})
unfolding try_finalize_chunked_transfer
handle_chunk from chunk pending = elim (get chunk.transfer_id pending) [
  | none ↦ record { state = pending; result = err (unknown_chunk chunk.transfer_id); effects = [] }
  | some t ↦ finished (
      try_finalize_chunked_transfer from chunk.transfer_id
        (insert chunk.transfer_id (push_chunk chunk.chunk_index chunk.entries t) pending))
]

unfoldable pub handle_end : DeviceId → SendTransferEnd → Chunked → Step (Unit {0})
unfolding try_finalize_chunked_transfer
handle_end from end_ pending = elim (get end_.transfer_id pending) [
  | none ↦ record { state = pending; result = err (unknown_end end_.transfer_id); effects = [] }
  | some t ↦ or_wait from end_.transfer_id (
      try_finalize_chunked_transfer from end_.transfer_id
        (insert end_.transfer_id (mark_end end_.chunk_count t) pending))
]

-- The task of `spawn_incomplete_chunk_timeout` after its 60 seconds: it gives the transfer up, and
-- tells whether it was incomplete.
unfoldable pub chunk_timeout : Uuid → Chunked → Chunked × Bool
chunk_timeout transfer_id pending = (
  remove transfer_id pending,
  elim (get transfer_id pending) [ none ↦ false | some t ↦ if is_complete t then false else true ],
)

abbrev with_waiters : Pending → Step (Unit {0}) → State × Result SendError (Unit {0}) × List Effect
with_waiters waiters s =
    (record { pending_chunked = s.state; waiters = waiters }, s.result, s.effects)

abbrev notified : State → Pending × List Notice → State × Result SendError (Unit {0}) × List Effect
notified s (waiters, notices) = (record s { waiters = waiters }, ok tt, map notice notices)

unfoldable pub handle_envelope :
    DeviceId → SendEnvelope → State → State × Result SendError (Unit {0}) × List Effect
unfolding handle_header handle_chunk handle_end
handle_envelope from (transfer payload) s = (s, ok tt, spawn_transfer from payload ∷ [])
handle_envelope from (transfer_header header) s =
    with_waiters s.waiters (handle_header header s.pending_chunked)
handle_envelope from (transfer_chunk chunk) s =
    with_waiters s.waiters (handle_chunk from chunk s.pending_chunked)
handle_envelope from (transfer_end end_) s =
    with_waiters s.waiters (handle_end from end_ s.pending_chunked)
handle_envelope from (ack a) s = notified s (complete a.transfer_id (result_of_ack a) s.waiters)
handle_envelope from (progress p) s = notified s (report_progress p s.waiters)

module _ (json : Serde SendEnvelope) where
  unfoldable pub handle_message :
      FeatureMessage → State → State × Result SendError (Unit {0}) × List Effect
  unfolding handle_envelope
  handle_message message s = elim (json.from_slice message.payload) [
    | none ↦ (s, err invalid_envelope, [])
    | some envelope ↦ handle_envelope message.from envelope s
  ]

  -- The effects of messages that are handled one after the other, and the results.
  unfoldable pub run :
      List FeatureMessage → State → State × List (Result SendError (Unit {0})) × List Effect
  run [] s = (s, [], [])
  run (m ∷ ms) s =
      let (s', r, es) = handle_message m s in
      let (s'', rs, es') = run ms s' in (s'', r ∷ rs, es ++ es')

  -- The messages are those that carry the envelopes from a device.
  abbrev pub Carries : DeviceId → List SendEnvelope → List FeatureMessage → Type 0
  Carries from [] [] = Unit {0}
  Carries from (e ∷ es) (m ∷ ms) =
      (m.from ≡ from) × (json.to_vec e ≡ some m.payload) × Carries from es ms
  Carries from _ _ = ⊥
