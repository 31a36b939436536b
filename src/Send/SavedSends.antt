-- ===== src/Send/SavedSends.antt =====
-- transfer_state.rs and cancel.rs of crates/failsafe-send: the sends that a device has saved, and
-- cancelling them. A file holds the state that was last renamed into its place, so a save that fails
-- leaves the old one. What the file system does is a parameter.
use failsafe.Prelude.{
  ℕ, Bool, true, false, not, String, Option, none, some, List, [], ◌∷◌, ◌++◌, map, keep, length,
  nat_key, Result, ok, err,
}
use failsafe.Prelude.Assoc.{get, insert, remove}
use failsafe.Prelude.Stateful.{Stateful, ◌>>=◌, ◌>>◌, lift}
use failsafe.Core.Message.{DeviceId}
use failsafe.Send.Payload.{Uuid, FileEntry, SendEnvelope}
use failsafe.Send.Coordinator
use failsafe.Send.Coordinator.{Pending, Notice, cancel_all}

-- `SendPathSpec` of crates/failsafe-core/src/control/mod.rs; a path is a text.
pub record SendPathSpec : Type 0 where
  pub local : String
  pub label : String

pub data SendStage : Type 0 where
  importing ready_to_send waiting_ack complete_stage failed_stage : SendStage

pub record SendTransferState : Type 0 where
  pub transfer_id : Uuid
  pub target : DeviceId
  pub paths : List SendPathSpec
  pub stage : SendStage
  pub collection_hash : Option String
  pub entries : List FileEntry
  pub bytes_done : ℕ
  pub bytes_total : ℕ
  pub error : Option String

-- `matches!(stage, Complete)`
abbrev pub is_done : SendStage → Bool
is_done complete_stage = true
is_done importing = false
is_done ready_to_send = false
is_done waiting_ack = false
is_done failed_stage = false

-- The errors of the file system.
pub record SendDisk : Type 0 where
  pub save_error : SendTransferState → Option String
  pub read_error : Uuid → Option String
  pub remove_error : Uuid → Option String
  pub list_error : Option String

-- What a sender has: its saved sends, the waiters for acknowledgements with the notices that they
-- got, and the envelopes that were handed to the transport, each with its target.
pub record Outbox : Type 0 where
  pub saved : List (Uuid × SendTransferState)
  pub pending : Pending
  pub notices : List Notice
  pub sent : List (DeviceId × SendEnvelope)

abbrev pub Sending : Type 0 → Type 0
Sending A = Stateful Outbox String A

module _ (disk : SendDisk) where
  open disk use {save_error, read_error, remove_error, list_error}

  abbrev fault : Option String → Sending (Unit {0})
  fault none o = (o, ok tt)
  fault (some e) o = (o, err e)

  unfoldable pub save_send_state : SendTransferState → Sending (Unit {0})
  save_send_state st = do
    fault (save_error st)
    (λ o. (record o { saved = insert st.transfer_id st o.saved }, ok tt))

  abbrev pub loaded : Option SendTransferState → Option String → Result String SendTransferState
  loaded none e = err "no send transfer state found"
  loaded (some st) (some e) = err e
  loaded (some st) none = ok st

  unfoldable pub load_send_state : Uuid → Sending SendTransferState
  load_send_state transfer_id o = (o, loaded (get transfer_id o.saved) (read_error transfer_id))

  abbrev removed_state : Uuid → Option SendTransferState → Sending (Unit {0})
  removed_state transfer_id none = lift (ok tt)
  removed_state transfer_id (some st) = do
    fault (remove_error transfer_id)
    (λ o. (record o { saved = remove transfer_id o.saved }, ok tt))

  unfoldable pub remove_send_state : Uuid → Sending (Unit {0})
  remove_send_state transfer_id o = removed_state transfer_id (get transfer_id o.saved) o

  abbrev states_of : List (Uuid × SendTransferState) → List SendTransferState
  states_of saved = map (λ (p : Uuid × SendTransferState). p.1) saved

  unfoldable pub list_incomplete_sends : Sending (List SendTransferState)
  list_incomplete_sends = do
    fault list_error
    (λ o. (o, ok (keep (λ (st : SendTransferState). not (is_done st.stage)) (states_of o.saved))))

  -- A call of the coordinator, whose notices are added to those that were sent.
  abbrev pub coordinate : (Pending → Pending × List Notice) → Sending (Unit {0})
  coordinate f o =
      let r = f o.pending in (record o { pending = r.0; notices = o.notices ++ r.1 }, ok tt)

  -- The loop of `cancel_all_incomplete_sends`.
  unfoldable pub cancel_each_send : List SendTransferState → Sending (Unit {0})
  cancel_each_send [] = lift (ok tt)
  cancel_each_send (st ∷ states) =
      coordinate (Coordinator.cancel st.transfer_id)
      >> (remove_send_state st.transfer_id >> cancel_each_send states)

  unfoldable pub cancel_all_incomplete_sends : Sending ℕ
  cancel_all_incomplete_sends = do
    states ← list_incomplete_sends
    cancel_each_send states
    coordinate cancel_all
    lift (ok (length states))
