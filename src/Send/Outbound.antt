-- ===== src/Send/Outbound.antt =====
-- outbound.rs of crates/failsafe-send: the payload of a send from the files that it names, with the
-- state saved on the way. Reading the file system and the blob store are parameters, and so is what
-- the cancellation token shows at each place that asks it. Progress messages are left out.
pub mod Sound
pub mod Kept
pub mod Resumed
use failsafe.Prelude.{
  ℕ, Bool, true, false, not, String, Option, none, some, List, [], ◌∷◌, map, if◌then◌else◌, Result,
  ok, err, fail_if, ok_or,
}
use failsafe.Prelude.Stateful.{Stateful, ◌>>=◌, ◌>>◌, lift}
use failsafe.Core.Message.{DeviceId}
use failsafe.Clipboard.Limits.{ClipboardLimits, LimitError, validate_entries}
use failsafe.Send.Payload.{Uuid, FileEntry, SendPayload, send_payload_version, sum_sizes}
use failsafe.Send.SavedSends.{
  SendPathSpec, SendStage, importing, ready_to_send, waiting_ack, complete_stage, failed_stage,
  is_done, SendTransferState, SendDisk, Outbox, Sending, save_send_state, load_send_state,
  remove_send_state,
}

-- Where the code asks whether it was cancelled.
pub data Point : Type 0 where
  at_start during_import after_prepare before_emit before_plan at_end : Point

-- `sources_of` is `collect_import_sources` of files.rs, `file_len` the length of a file that can be
-- read, `is_stored` the `complete` of `collection_status`. `describe` is the text of a limit error.
pub record SendEnv : Type 0 where
  pub limits : ClipboardLimits
  pub describe : LimitError → String
  pub disk : SendDisk
  pub sources_of : List SendPathSpec → Result String (List (String × String))
  pub file_len : String → Option ℕ
  pub is_stored : String → ℕ → Result String Bool
  pub import_sources : List (String × String) → Result String (String × List FileEntry)
  pub cancelled : Point → Bool
  pub device_name : String

abbrev len_or_zero : Option ℕ → ℕ
len_or_zero none = 0
len_or_zero (some n) = n

-- `.map(|(_, _, complete)| !complete).unwrap_or(true)`
abbrev not_complete : Result String Bool → Bool
not_complete (ok complete) = not complete
not_complete (err e) = true

module _ (env : SendEnv) where
  open env use {
    limits, describe, disk, sources_of, file_len, is_stored, import_sources, cancelled, device_name,
  }

  abbrev pub check_cancelled : Point → Sending (Unit {0})
  check_cancelled point = lift (fail_if (cancelled point) "transfer cancelled")

  -- `collect_file_preview` of files.rs.
  abbrev pub preview_of : List (String × String) → List FileEntry
  preview_of sources =
      map
        (λ (source : String × String). record {
          name = source.0;
          size = len_or_zero (file_len source.1);
        })
        sources

  abbrev pub collect_file_preview : List SendPathSpec → Result String (List FileEntry)
  collect_file_preview paths = elim (sources_of paths) [
    | err e ↦ err e
    | ok sources ↦ ok (preview_of sources)
  ]

  abbrev pub new_state : List SendPathSpec → DeviceId → Uuid → List FileEntry → SendTransferState
  new_state paths target transfer_id previews = record {
    transfer_id = transfer_id;
    target = target;
    paths = paths;
    stage = importing;
    collection_hash = none;
    entries = previews;
    bytes_done = 0;
    bytes_total = sum_sizes previews;
    error = none;
  }

  abbrev saved_send : Uuid → Sending (List SendPathSpec × SendTransferState)
  saved_send transfer_id = do
    saved ← load_send_state disk transfer_id
    lift (fail_if (is_done saved.stage) "transfer already completed")
    lift (ok (saved.paths, saved))

  abbrev fresh_send :
      List SendPathSpec → DeviceId → Uuid → Sending (List SendPathSpec × SendTransferState)
  fresh_send paths target transfer_id = do
    previews ← lift (collect_file_preview paths)
    lift (ok (paths, new_state paths target transfer_id previews))

  unfoldable pub load_or_init_send_state :
      List SendPathSpec → DeviceId → Uuid → Bool → Sending (List SendPathSpec × SendTransferState)
  load_or_init_send_state paths target transfer_id resume =
      if resume then saved_send transfer_id else fresh_send paths target transfer_id

  abbrev pub import_needed : Option String → ℕ → Bool
  import_needed none total = true
  import_needed (some hash) total = not_complete (is_stored hash total)

  abbrev pub run_collection_import :
      List (String × String) → Result String (String × List FileEntry)
  run_collection_import sources =
      if cancelled during_import then err "transfer cancelled" else import_sources sources

  abbrev pub ready : SendTransferState → String × List FileEntry → SendTransferState
  ready st imported = record st {
    collection_hash = some imported.0;
    entries = imported.1;
    bytes_done = st.bytes_total;
    stage = ready_to_send;
  }

  abbrev pub run_import : List SendPathSpec → SendTransferState → Sending SendTransferState
  run_import send_paths st = do
    save_send_state disk st
    sources ← lift (sources_of send_paths)
    imported ← lift (run_collection_import sources)
    save_send_state disk (ready st imported)
    lift (ok (ready st imported))

  abbrev pub import_step : List SendPathSpec → SendTransferState → Sending SendTransferState
  import_step send_paths st =
      if import_needed st.collection_hash st.bytes_total
      then run_import send_paths (record st { stage = importing })
      else lift (ok st)

  abbrev validated : Result LimitError (Unit {0}) → Result String (Unit {0})
  validated (ok u) = ok tt
  validated (err e) = err (describe e)

  abbrev pub check_limits : SendTransferState → Result String (Unit {0})
  check_limits st =
      validated
        (validate_entries limits (map (λ (entry : FileEntry). (entry.name, entry.size)) st.entries))

  abbrev pub payload_of : Uuid → SendTransferState → String → SendPayload
  payload_of transfer_id st hash = record {
    version = send_payload_version;
    transfer_id = transfer_id;
    sender_name = device_name;
    collection_hash = hash;
    entries = st.entries;
  }

  abbrev pub hand_over : Uuid → SendTransferState → Sending SendPayload
  hand_over transfer_id st = do
    check_cancelled after_prepare
    save_send_state disk (record st { stage = waiting_ack })
    hash ← lift (ok_or st.collection_hash "collection hash missing after import")
    lift (ok (payload_of transfer_id st hash))

  unfoldable pub prepare_send_payload :
      List SendPathSpec → DeviceId → Uuid → Bool → Sending SendPayload
  prepare_send_payload paths target transfer_id resume = do
    check_cancelled at_start
    loaded ← load_or_init_send_state paths target transfer_id resume
    lift (check_limits loaded.1)
    save_send_state disk loaded.1
    st ← import_step loaded.0 loaded.1
    hand_over transfer_id st

  unfoldable pub mark_send_complete : Uuid → Sending (Unit {0})
  mark_send_complete transfer_id = do
    st ← load_send_state disk transfer_id
    save_send_state disk (record st { stage = complete_stage; error = none })
    remove_send_state disk transfer_id

  abbrev pub mark_loaded : String → Outbox × Result String SendTransferState → Outbox
  mark_loaded message (o, err e) = o
  mark_loaded message (o, ok st) =
      (save_send_state disk (record st { stage = failed_stage; error = some message }) o).0

  unfoldable pub mark_send_failed : Uuid → String → Sending (Unit {0})
  mark_send_failed transfer_id message o =
      (mark_loaded message (load_send_state disk transfer_id o), ok tt)
