-- ===== src/Send/Coordinator.antt =====
-- coordinator.rs: who waits for the acknowledgement of which transfer. A waiter is the number of
-- the channels that `register` makes; what is sent on them is a list of notices. Each operation
-- holds the lock, so a history is a sequence of operations. The log is left out.
pub mod Delivery
use failsafe.Prelude.{
  ℕ, Bool, true, false, Option, none, some, String, List, [], ◌∷◌, ◌++◌, nat_key, if◌then◌else◌,
  Result, ok, err,
}
use failsafe.Prelude.Assoc.{get, insert, remove}
use failsafe.Send.Payload.{Uuid, SendAck, SendProgress}

abbrev pub AckResult : Type 0
AckResult = Result String (Unit {0})

pub data Notice : Type 0 where
  -- the oneshot channel of a waiter gets its result, or is dropped without one
  acked : ℕ → AckResult → Notice
  abandoned : ℕ → Notice
  progressed : ℕ → SendProgress → Notice

abbrev pub Pending : Type 0
Pending = List (Uuid × ℕ)

abbrev displaced : Option ℕ → List Notice
displaced none = []
displaced (some waiter) = abandoned waiter ∷ []

-- `waiter` is the fresh pair of channels. An earlier waiter for the same transfer is dropped.
unfoldable pub register : Uuid → ℕ → Pending → Pending × List Notice
register transfer_id waiter pending =
    (insert transfer_id waiter pending, displaced (get transfer_id pending))

abbrev pub completed : Option ℕ → AckResult → List Notice
completed none result = []
completed (some waiter) result = acked waiter result ∷ []

unfoldable pub complete : Uuid → AckResult → Pending → Pending × List Notice
complete transfer_id result pending =
    (remove transfer_id pending, completed (get transfer_id pending) result)

abbrev pub cancelled : AckResult
cancelled = err "transfer cancelled"

unfoldable pub cancel : Uuid → Pending → Pending × List Notice
unfolding complete
cancel transfer_id pending = complete transfer_id cancelled pending

abbrev pub ids : Pending → List Uuid
ids [] = []
ids ((transfer_id, waiter) ∷ pending) = transfer_id ∷ ids pending

unfoldable pub cancel_each : List Uuid → Pending → Pending × List Notice
cancel_each [] pending = (pending, [])
cancel_each (transfer_id ∷ rest) pending =
    let (pending', notices) = cancel transfer_id pending in
    let (pending'', more) = cancel_each rest pending' in (pending'', notices ++ more)

unfoldable pub cancel_all : Pending → Pending × List Notice
unfolding cancel_each
cancel_all pending = cancel_each (ids pending) pending

abbrev or_reported : Option String → String
or_reported none = "receiver reported failure"
or_reported (some message) = message

unfoldable pub result_of_ack : SendAck → AckResult
result_of_ack ack = if ack.is_ok then ok tt else err (or_reported ack.error)

unfoldable pub complete_ack : SendAck → Pending → Pending × List Notice
unfolding complete result_of_ack
complete_ack ack pending = complete ack.transfer_id (result_of_ack ack) pending

abbrev reported : Option ℕ → SendProgress → List Notice
reported none progress = []
reported (some waiter) progress = progressed waiter progress ∷ []

unfoldable pub report_progress : SendProgress → Pending → Pending × List Notice
report_progress progress pending = (pending, reported (get progress.transfer_id pending) progress)
