-- ===== src/Send/Control/Completes.antt =====
-- control.rs: when a send is reported as complete.
use failsafe.Prelude.{
  ℕ, ◌≤◌, ◌≡◌, refl, false, none, List, [], ◌∷◌, length, Result, ok, err, arith, String,
}
use failsafe.Prelude.Words.{u32_max}
use failsafe.Prelude.Stateful.{◌>>=◌, ◌>>◌, lift}
use failsafe.Core.Message.{DeviceId}
use failsafe.Send.Payload.{SendPayload, SendEnvelope}
use failsafe.Send.Manifest.Plan.{plan_transfer_envelopes-Envelopes}
use failsafe.Send.SavedSends.{Outbox}
use failsafe.Send.Outbound.{Point, before_emit, before_plan, at_end, SendEnv, prepare_send_payload}
use failsafe.Send.Control.{
  SendFilesRequest, send_complete, ControlContext, validate_preconditions, WaitEvent, cancels,
  deadline_passes, channel_closes, ack_arrives, progresses, wait_for_send_ack, Wire, send_each,
  transfer, finish, overruled, handle_send_files,
}
use failsafe.Send.Control.Outcome.{Accepts, with_waiter}

accepted : (events : List WaitEvent) → Accepts events → wait_for_send_ack events ≡ ok tt
unfolding wait_for_send_ack
accepted [] h = absurd h
accepted (cancels ∷ events) h = absurd h
accepted (deadline_passes ∷ events) h = absurd h
accepted (channel_closes ∷ events) h = absurd h
accepted (ack_arrives (ok u) ∷ events) h = refl
accepted (ack_arrives (err e) ∷ events) h = absurd h
accepted (progresses progress ∷ events) h = accepted events h

module _ (env : SendEnv) (wire : Wire) where
  send_each-ok :
      (target : DeviceId) (es : List SendEnvelope) (o : Outbox)
      → ((e : SendEnvelope) → wire.send_error target e ≡ none)
      → (send_each env wire target es o).1 ≡ ok tt
  unfolding send_each lift ◌>>◌
  send_each-ok target [] o fine = refl
  send_each-ok target (e ∷ es) o fine = rw (fine e) (send_each-ok target es _ fine)

  transfer-ok :
      (request : SendFilesRequest) (events : List WaitEvent) (o : Outbox) (payload : SendPayload)
      → ((p : Point) → env.cancelled p ≡ false)
      → (prepare_send_payload env request.paths request.target request.transfer_id request.resume
          o).1
        ≡ ok payload
      → length payload.entries ≤ u32_max
      → ((e : SendEnvelope) → wire.send_error request.target e ≡ none)
      → Accepts events
      → (transfer env wire request events o).1 ≡ ok tt
  unfolding transfer lift ◌>>◌ ◌>>=◌
  transfer-ok request events o payload goes_on prepared small fine accepts =
      let prep =
        prepare_send_payload env request.paths request.target request.transfer_id request.resume
          o in
      let plan = plan_transfer_envelopes-Envelopes wire.fits payload small in
      let sent = send_each-ok request.target plan.0 prep.0 fine in
      rw prepared (
        rw (goes_on before_emit)
          (rw (goes_on before_plan) (rw plan.1 (rw sent (accepted events accepts)))))

  overruled-finish :
      (request : SendFilesRequest) (r : Outbox × Result String (Unit {0}))
      → env.cancelled at_end ≡ false
      → r.1 ≡ ok tt
      → (finish env wire request.transfer_id (overruled env wire request.transfer_id r)).events
        ≡ send_complete request.transfer_id ∷ []
  overruled-finish request (o, ok u) go done = rw go refl
  overruled-finish request (o, err e) go done = absurd (ground (arith, done))

  -- A request that passes the tests, whose payload can be prepared and has fewer than 2 ^ 32 entries,
  -- and that is not cancelled, ends with the event that it is complete, if the transport takes what it
  -- is given and the receiver's acceptance comes before anything but progress.
  pub handle_send_files-completes :
      (ctx : ControlContext) (request : SendFilesRequest) (waiter : ℕ) (events : List WaitEvent)
      (o : Outbox) (payload : SendPayload)
      → validate_preconditions ctx request.target ≡ none
      → ((p : Point) → env.cancelled p ≡ false)
      → (prepare_send_payload env request.paths request.target request.transfer_id request.resume
          (with_waiter env wire request waiter o)).1
        ≡ ok payload
      → length payload.entries ≤ u32_max
      → ((e : SendEnvelope) → wire.send_error request.target e ≡ none)
      → Accepts events
      → (handle_send_files env wire ctx request false waiter events o).events
        ≡ send_complete request.transfer_id ∷ []
  unfolding handle_send_files
  handle_send_files-completes ctx request waiter events o payload passed goes_on prepared small fine
        accepts =
      rw passed (
        overruled-finish request _ (goes_on at_end) (
          transfer-ok request events (with_waiter env wire request waiter o) payload goes_on
            prepared small fine accepts))
