-- ===== src/Send/Control.antt =====
-- control.rs of crates/failsafe-send: the request of a user to send files, from its tests to the
-- event that ends it. What arrives while the sender waits is a list of events in the order in which
-- `select!` takes them; when no more come, the deadline passes. Progress events are left out.
pub mod Outcome
pub mod Completes
pub mod Saved
use failsafe.Prelude.{
  ℕ, Bool, true, false, not, String, Option, none, some, List, [], ◌∷◌, ◌++◌, string_key, nat_key,
  ◌==◌, if◌then◌else◌, Result, ok, err, fail_if, ok_or,
}
use failsafe.Prelude.Assoc.{contains}
use failsafe.Prelude.Strings.{append}
use failsafe.Prelude.Stateful.{Stateful, ◌>>=◌, ◌>>◌, lift}
use failsafe.Core.Message.{DeviceId, FeatureId}
use failsafe.Core.Peer.{PeerDirectory, is_feature_enabled}
use failsafe.Send.Payload.{Uuid, FileEntry, SendPayload, SendEnvelope, SendProgress, sum_sizes}
use failsafe.Send.Manifest.{plan_transfer_envelopes}
use failsafe.Send.Coordinator
use failsafe.Send.Coordinator.{AckResult}
use failsafe.Send.TransferState
use failsafe.Send.TransferState.{Store, Disk, cancel_all_incomplete_receives}
use failsafe.Send.SavedSends.{
  SendPathSpec, Outbox, Sending, coordinate, cancel_all_incomplete_sends,
}
use failsafe.Send.Outbound.{
  Point, before_emit, before_plan, at_end, SendEnv, check_cancelled, prepare_send_payload,
  mark_send_complete, mark_send_failed,
}

abbrev pub send_id : FeatureId
send_id = "file_send"

pub record SendFilesRequest : Type 0 where
  pub target : DeviceId
  pub paths : List SendPathSpec
  pub transfer_id : Uuid
  pub resume : Bool

-- `ControlResponse` and the events that end a request, of crates/failsafe-core/src/control/mod.rs.
pub data ControlResponse : Type 0 where
  ready_response : ControlResponse
  error_response : String → ControlResponse
  cancel_transfers : ℕ → ℕ → ControlResponse

pub data ControlEvent : Type 0 where
  send_complete : Uuid → ControlEvent
  send_failed : String → ControlEvent

-- `text` is the text of a device's id.
pub record ControlContext : Type 0 where
  pub local_features : List FeatureId
  pub peers : PeerDirectory
  pub connected : List DeviceId
  pub text : DeviceId → String

abbrev pub off_here : String
off_here =
    "file_send is not enabled on this device; enable it in the web UI or with `failsafe devices features`, then wait for the daemon to sync"

-- The error to answer with, when a condition fails.
unfoldable pub validate_preconditions : ControlContext → DeviceId → Option String
validate_preconditions ctx target =
    if not (contains send_id ctx.local_features)
    then some off_here
    else if not (is_feature_enabled target send_id ctx.peers)
    then some (
        append "file_send is not enabled on device "
          (append (ctx.text target) "; enable it on both devices"))
    else if not (contains target ctx.connected)
    then some (append "device " (append (ctx.text target) " is offline or unreachable"))
    else none

pub data WaitEvent : Type 0 where
  cancels deadline_passes channel_closes : WaitEvent
  ack_arrives : AckResult → WaitEvent
  progresses : SendProgress → WaitEvent

unfoldable pub wait_for_send_ack : List WaitEvent → Result String (Unit {0})
wait_for_send_ack [] = err "timed out waiting for receiver acknowledgement"
wait_for_send_ack (cancels ∷ events) = err "transfer cancelled"
wait_for_send_ack (deadline_passes ∷ events) = err "timed out waiting for receiver acknowledgement"
wait_for_send_ack (channel_closes ∷ events) = err "transfer acknowledgement channel closed"
wait_for_send_ack (ack_arrives result ∷ events) = result
wait_for_send_ack (progresses progress ∷ events) = wait_for_send_ack events

-- `fits` is the test of the planner, `send_error` the answer of the transport.
pub record Wire : Type 0 where
  pub fits : SendEnvelope → Bool
  pub send_error : DeviceId → SendEnvelope → Option String

-- What the user's stream gets.
pub record Answered : Type 0 where
  pub outbox : Outbox
  pub responses : List ControlResponse
  pub events : List ControlEvent

module _ (env : SendEnv) (wire : Wire) where
  abbrev one_sent : DeviceId → SendEnvelope → Option String → Sending (Unit {0})
  one_sent target envelope none o = (record o { sent = o.sent ++ (target, envelope) ∷ [] }, ok tt)
  one_sent target envelope (some e) o = (o, err e)

  unfoldable pub send_each : DeviceId → List SendEnvelope → Sending (Unit {0})
  send_each target [] = lift (ok tt)
  send_each target (envelope ∷ envelopes) =
      one_sent target envelope (wire.send_error target envelope) >> send_each target envelopes

  -- The body of the send; the planner always ends with a plan (Send/Manifest/Plan).
  unfoldable pub transfer : SendFilesRequest → List WaitEvent → Sending (Unit {0})
  transfer request events = do
    payload ←
        prepare_send_payload env request.paths request.target request.transfer_id request.resume
    check_cancelled env before_emit
    check_cancelled env before_plan
    envelopes ← lift (ok_or (plan_transfer_envelopes wire.fits payload) "no plan")
    send_each request.target envelopes
    lift (wait_for_send_ack events)

  -- A token that was cancelled in the meantime overrules the result.
  abbrev pub overruled :
      Uuid → Outbox × Result String (Unit {0}) → Outbox × Result String (Unit {0})
  overruled transfer_id (o, result) =
      if env.cancelled at_end
      then ((coordinate env.disk (Coordinator.cancel transfer_id) o).0, err "transfer cancelled")
      else (o, result)

  abbrev pub finish : Uuid → Outbox × Result String (Unit {0}) → Answered
  finish transfer_id (o, ok u) = record {
    outbox = (mark_send_complete env transfer_id o).0;
    responses = ready_response ∷ [];
    events = send_complete transfer_id ∷ [];
  }
  finish transfer_id (o, err message) = record {
    outbox = (mark_send_failed env transfer_id message o).0;
    responses = ready_response ∷ [];
    events = send_failed message ∷ [];
  }

  -- `waiter` is the fresh pair of channels, `is_gone` whether the user's stream takes no response.
  abbrev pub run_request : SendFilesRequest → ℕ → List WaitEvent → Outbox → Answered
  run_request request waiter events o =
      let o' = (coordinate env.disk (Coordinator.register request.transfer_id waiter) o).0 in
      finish request.transfer_id (overruled request.transfer_id (transfer request events o'))

  abbrev pub started :
      SendFilesRequest → Bool → ℕ → List WaitEvent → Outbox → Option String → Answered
  started request is_gone waiter events o (some message) = record {
    outbox = o;
    responses = error_response message ∷ [];
    events = [];
  }
  started request is_gone waiter events o none =
      if is_gone
      then record { outbox = o; responses = []; events = [] }
      else run_request request waiter events o

  unfoldable pub handle_send_files :
      ControlContext → SendFilesRequest → Bool → ℕ → List WaitEvent → Outbox → Answered
  handle_send_files ctx request is_gone waiter events o =
      started request is_gone waiter events o (validate_preconditions ctx request.target)

  abbrev counted : ℕ → Store × Result String ℕ → Store × ControlResponse
  counted sends (store, ok receives) = (store, cancel_transfers sends receives)
  counted sends (store, err message) = (store, error_response message)

  abbrev cancelled_sends :
      Disk → Store → Outbox × Result String ℕ → Outbox × Store × ControlResponse
  cancelled_sends disk store (o, err message) = (o, store, error_response message)
  cancelled_sends disk store (o, ok sends) =
      let r = counted sends (cancel_all_incomplete_receives disk store) in (o, r.0, r.1)

  unfoldable pub handle_cancel_all : Disk → Store → Outbox → Outbox × Store × ControlResponse
  handle_cancel_all disk store o =
      cancelled_sends disk store (cancel_all_incomplete_sends env.disk o)
