-- ===== src/Send/TransferState.antt =====
-- transfer_state.rs and cancel.rs of crates/failsafe-send: the receives that a device has saved. A
-- file holds the state that was last renamed into its place, so a save that fails leaves the old one.
-- What the file system does is a parameter.
use failsafe.Prelude.{
  ℕ, Bool, true, false, not, String, Option, none, some, List, [], ◌∷◌, keep, length, nat_key,
  Result, ok, err,
}
use failsafe.Prelude.Assoc.{get, insert, remove}
use failsafe.Core.Message.{DeviceId}
use failsafe.Send.Payload.{Uuid, FileEntry, SendPayload, sum_sizes}

pub data ReceiveStage : Type 0 where
  downloading exporting complete_stage failed_stage : ReceiveStage

pub record ReceiveTransferState : Type 0 where
  pub transfer_id : Uuid
  pub sender : DeviceId
  pub sender_name : String
  pub stage : ReceiveStage
  pub collection_hash : String
  pub entries : List FileEntry
  pub receive_dir : Option String
  pub bytes_done : ℕ
  pub bytes_total : ℕ
  pub error : Option String

-- `matches!(stage, Complete)`
abbrev pub is_done : ReceiveStage → Bool
is_done complete_stage = true
is_done downloading = false
is_done exporting = false
is_done failed_stage = false

abbrev pub Store : Type 0
Store = List (Uuid × ReceiveTransferState)

-- The errors of the file system.
pub record Disk : Type 0 where
  pub save_error : ReceiveTransferState → Option String
  pub read_error : Uuid → Option String
  pub remove_error : Uuid → Option String
  pub list_error : Option String

module _ (disk : Disk) where
  open disk use {save_error, read_error, remove_error, list_error}

  abbrev pub saved_state :
      ReceiveTransferState → Option String → Store → Store × Result String (Unit {0})
  saved_state st none store = (insert st.transfer_id st store, ok tt)
  saved_state st (some e) store = (store, err e)

  unfoldable pub save_receive_state :
      ReceiveTransferState → Store → Store × Result String (Unit {0})
  save_receive_state st store = saved_state st (save_error st) store

  abbrev pub loaded :
      Option ReceiveTransferState → Option String → Result String ReceiveTransferState
  loaded none e = err "no receive transfer state found"
  loaded (some st) (some e) = err e
  loaded (some st) none = ok st

  unfoldable pub load_receive_state : Uuid → Store → Result String ReceiveTransferState
  load_receive_state transfer_id store = loaded (get transfer_id store) (read_error transfer_id)

  abbrev removed_state :
      Uuid → Option ReceiveTransferState → Option String → Store → Store × Result String (Unit {0})
  removed_state transfer_id none e store = (store, ok tt)
  removed_state transfer_id (some st) (some e) store = (store, err e)
  removed_state transfer_id (some st) none store = (remove transfer_id store, ok tt)

  unfoldable pub remove_receive_state : Uuid → Store → Store × Result String (Unit {0})
  remove_receive_state transfer_id store =
      removed_state transfer_id (get transfer_id store) (remove_error transfer_id) store

  abbrev pub states_of : Store → List ReceiveTransferState
  states_of [] = []
  states_of ((transfer_id, st) ∷ store) = st ∷ states_of store

  abbrev pub listed :
      Option String → List ReceiveTransferState → Result String (List ReceiveTransferState)
  listed (some e) states = err e
  listed none states = ok states

  unfoldable pub list_incomplete_receives : Store → Result String (List ReceiveTransferState)
  list_incomplete_receives store =
      listed list_error
        (keep (λ (st : ReceiveTransferState). not (is_done st.stage)) (states_of store))

  -- The loop of `cancel_all_incomplete_receives`.
  unfoldable pub remove_each : List ReceiveTransferState → Store → Store × Result String (Unit {0})
  remove_each [] store = (store, ok tt)
  remove_each (st ∷ states) store =
      let (store', result) = remove_receive_state st.transfer_id store in
      elim result [ err e ↦ (store', err e) | ok u ↦ remove_each states store' ]

  abbrev counted : ℕ → Store × Result String (Unit {0}) → Store × Result String ℕ
  counted n (store, err e) = (store, err e)
  counted n (store, ok u) = (store, ok n)

  abbrev cancel_listed : Result String (List ReceiveTransferState) → Store → Store × Result String ℕ
  cancel_listed (err e) store = (store, err e)
  cancel_listed (ok states) store = counted (length states) (remove_each states store)

  unfoldable pub cancel_all_incomplete_receives : Store → Store × Result String ℕ
  cancel_all_incomplete_receives store = cancel_listed (list_incomplete_receives store) store

-- `receive_state_from_payload` of resume.rs.
unfoldable pub receive_state_from_payload : DeviceId → SendPayload → ReceiveTransferState
receive_state_from_payload sender payload = record {
  transfer_id = payload.transfer_id;
  sender = sender;
  sender_name = payload.sender_name;
  stage = downloading;
  collection_hash = payload.collection_hash;
  entries = payload.entries;
  receive_dir = none;
  bytes_done = 0;
  bytes_total = sum_sizes payload.entries;
  error = none;
}
