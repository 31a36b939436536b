-- ===== src/Send/Receive.antt =====
-- feature.rs of crates/failsafe-send, `handle_transfer_locked` and `run_receive`, and resume.rs: a
-- device fetches the files of a transfer and acknowledges it. The blob store, the transport and the
-- file system are parameters. A transfer's lock is held, so one receive of it runs at a time.
pub mod Acks
pub mod Saved
pub mod Retry
pub mod Left
pub mod Failed
pub mod Resume
use failsafe.Prelude.{
  ℕ, Bool, true, false, String, Option, none, some, List, [], ◌∷◌, ◌++◌, map, length, nat_key, ◌==◌,
  if◌then◌else◌, Result, ok, err,
}
use failsafe.Prelude.Assoc.{contains}
use failsafe.Core.Message.{DeviceId}
use failsafe.Clipboard.Limits.{ClipboardLimits, LimitError, validate_entries}
use failsafe.Send.Payload.{Uuid, FileEntry, SendPayload, SendAck, send_payload_version, sum_sizes}
use failsafe.Send.TransferState.{
  Store, Disk, ReceiveTransferState, ReceiveStage, downloading, exporting, complete_stage,
  failed_stage, is_done, save_receive_state, load_receive_state, remove_receive_state,
  list_incomplete_receives, receive_state_from_payload,
}

-- What surrounds a receive. `describe` is the text of a limit error.
pub record Env : Type 0 where
  pub limits : ClipboardLimits
  pub disk : Disk
  pub describe : LimitError → String
  pub download_collection : DeviceId → String → ℕ → Result String (Unit {0})
  pub receive_dir_of : String → Uuid → Option String
  pub export_collection : String → String → Result String (List String)
  pub send_error : DeviceId → SendAck → Option String

-- The saved states, the acknowledgements that were handed to the transport, and the notifications
-- of the user with the sender's name, the number of files and the directory.
pub record World : Type 0 where
  pub store : Store
  pub acks : List (DeviceId × SendAck)
  pub notified : List (String × ℕ × String)

pub data TransferError : Type 0 where
  unsupported_version : ℕ → TransferError
  receive_failed : String → TransferError
  ack_not_sent : String → TransferError

abbrev pub Ran : Type 0
Ran = World × Result String (Unit {0})

module _ (env : Env) where
  open env use {
    limits, disk, describe, download_collection, receive_dir_of, export_collection, send_error,
  }

  -- `save_receive_state(state).await?` and what follows.
  abbrev after_save : World → (World → Ran) → Store × Result String (Unit {0}) → Ran
  after_save w next (store, err e) = (record w { store = store }, err e)
  after_save w next (store, ok u) = next (record w { store = store })

  abbrev pub save_then : ReceiveTransferState → (World → Ran) → World → Ran
  save_then st next w = after_save w next (save_receive_state disk st w.store)

  abbrev notify_files_received : ReceiveTransferState → List String → String → World → Ran
  notify_files_received st paths dir w =
      (record w { notified = w.notified ++ (st.sender_name, length paths, dir) ∷ [] }, ok tt)

  abbrev pub exported : ReceiveTransferState → String → Result String (List String) → World → Ran
  exported st dir (err e) w = (w, err e)
  exported st dir (ok paths) w =
      save_then (record st { stage = complete_stage; bytes_done = st.bytes_total })
        (notify_files_received st paths dir) w

  abbrev pub export_to : ReceiveTransferState → Option String → World → Ran
  export_to st none w = (w, err "downloads directory unavailable")
  export_to st (some dir) w =
      exported (record st { receive_dir = some dir }) dir (export_collection st.collection_hash dir)
        w

  abbrev dir_of : ReceiveTransferState → Option String → Option String
  dir_of st (some dir) = some dir
  dir_of st none = receive_dir_of st.sender_name st.transfer_id

  -- The callback of the download writes `bytes_done`, which is set again before it is saved.
  abbrev pub downloaded : ReceiveTransferState → Result String (Unit {0}) → World → Ran
  downloaded st (err e) w = (w, err e)
  downloaded st (ok u) w =
      let st' = record st { stage = exporting; bytes_done = st.bytes_total } in
      save_then st' (export_to st' (dir_of st' st'.receive_dir)) w

  abbrev pub validated : ReceiveTransferState → Result LimitError (Unit {0}) → World → Ran
  validated st (err e) w = (w, err (describe e))
  validated st (ok u) w =
      let st' = record st { stage = downloading } in
      save_then st'
        (downloaded st' (download_collection st'.sender st'.collection_hash st'.bytes_total)) w

  unfoldable pub run_receive : ReceiveTransferState → World → Ran
  run_receive st w =
      validated st
        (validate_entries limits (map (λ (entry : FileEntry). (entry.name, entry.size)) st.entries))
        w

  abbrev pub accepted : Uuid → SendAck
  accepted transfer_id = record { transfer_id = transfer_id; is_ok = true; error = none }

  abbrev pub refused : Uuid → String → SendAck
  refused transfer_id message = record {
    transfer_id = transfer_id;
    is_ok = false;
    error = some message;
  }

  -- `send_ack`: the acknowledgement is handed to the transport, which may fail.
  unfoldable pub send_ack : DeviceId → SendAck → World → World × Option String
  send_ack to ack w = (record w { acks = w.acks ++ (to, ack) ∷ [] }, send_error to ack)

  -- `remove_completed_receive_state`: an error is logged.
  abbrev pub remove_completed : Uuid → World → World
  remove_completed transfer_id w = record w {
    store = (remove_receive_state disk transfer_id w.store).0;
  }

  abbrev acknowledged : Uuid → World × Option String → World × Result TransferError (Unit {0})
  acknowledged transfer_id (w, some e) = (w, err (ack_not_sent e))
  acknowledged transfer_id (w, none) = (remove_completed transfer_id w, ok tt)

  abbrev pub acknowledge : DeviceId → Uuid → World → World × Result TransferError (Unit {0})
  acknowledge from transfer_id w = acknowledged transfer_id (send_ack from (accepted transfer_id) w)

  -- The saved state, when there is one, becomes a failed one.
  abbrev mark_loaded : String → Result String ReceiveTransferState → Store → Store
  mark_loaded message (err e) store = store
  mark_loaded message (ok st) store =
      (save_receive_state disk (record st { stage = failed_stage; error = some message }) store).0

  abbrev pub mark_failed : Uuid → String → World → World
  mark_failed transfer_id message w = record w {
    store = mark_loaded message (load_receive_state disk transfer_id w.store) w.store;
  }

  abbrev conclude : DeviceId → Uuid → Ran → World × Result TransferError (Unit {0})
  conclude from transfer_id (w, ok u) = acknowledge from transfer_id w
  conclude from transfer_id (w, err message) = (
    (send_ack from (refused transfer_id message) (mark_failed transfer_id message w)).0,
    err (receive_failed message),
  )

  -- The state to run: the saved one with the sender and the manifest of this message.
  abbrev pub refreshed : DeviceId → SendPayload → ReceiveTransferState → ReceiveTransferState
  refreshed from payload st = record st {
    sender = from;
    sender_name = payload.sender_name;
    collection_hash = payload.collection_hash;
    entries = payload.entries;
    bytes_total = sum_sizes payload.entries;
  }

  abbrev pub handle_state :
      DeviceId
      → SendPayload
      → ReceiveTransferState
      → World
      → World × Result TransferError (Unit {0})
  handle_state from payload st w =
      if is_done st.stage
      then acknowledge from payload.transfer_id w
      else conclude from payload.transfer_id (run_receive (refreshed from payload st) w)

  abbrev pub state_or_new :
      DeviceId → SendPayload → Result String ReceiveTransferState → ReceiveTransferState
  state_or_new from payload (ok saved) = saved
  state_or_new from payload (err e) = receive_state_from_payload from payload

  unfoldable pub handle_transfer_locked :
      DeviceId → SendPayload → World → World × Result TransferError (Unit {0})
  handle_transfer_locked from payload w =
      if payload.version == send_payload_version
      then handle_state from payload
          (state_or_new from payload (load_receive_state disk payload.transfer_id w.store)) w
      else (w, err (unsupported_version payload.version))

  -- One turn of the loop of `resume_incomplete_receives`, for a sender that is connected.
  abbrev resumed : ReceiveTransferState → Ran → World
  resumed st (w, err message) = w
  resumed st (w, ok u) = (acknowledge st.sender st.transfer_id w).0

  unfoldable pub resume_each : List DeviceId → List ReceiveTransferState → World → World
  resume_each connected [] w = w
  resume_each connected (st ∷ states) w =
      resume_each connected states
        (if contains st.sender connected then resumed st (run_receive st w) else w)

  abbrev resume_listed : List DeviceId → Result String (List ReceiveTransferState) → World → World
  resume_listed connected (err e) w = w
  resume_listed connected (ok states) w = resume_each connected states w

  unfoldable pub resume_incomplete_receives : List DeviceId → World → World
  resume_incomplete_receives connected w =
      resume_listed connected (list_incomplete_receives disk w.store) w
