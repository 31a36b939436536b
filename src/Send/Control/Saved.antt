-- ===== src/Send/Control/Saved.antt =====
-- control.rs: the saved states after a request to send files.
use failsafe.Prelude.{
  ℕ, Bool, true, false, String, Option, none, some, List, [], ◌∷◌, Result, ok, err, Bool-cases, inl,
  inr,
}
use failsafe.Prelude.Stateful.{Keeps, >>=-Keeps, >>-Keeps, lift-Keeps}
use failsafe.Core.Message.{DeviceId}
use failsafe.Send.Payload.{Uuid, SendEnvelope}
use failsafe.Send.Coordinator
use failsafe.Send.SavedSends.{Outbox, coordinate}
use failsafe.Send.Outbound.{SendEnv, at_end}
use failsafe.Send.Outbound.Sound.{
  Sound, prepare_send_payload-Sound, mark_send_complete-Sound, mark_send_failed-Sound,
}
use failsafe.Send.Control.{
  SendFilesRequest, ControlContext, validate_preconditions, WaitEvent, Wire, one_sent, send_each,
  transfer, overruled, finish, started, handle_send_files,
}

module _ (env : SendEnv) (wire : Wire) where
  one_sent-Sound :
      (target : DeviceId) (e : SendEnvelope) (fault : Option String)
      → Keeps (Sound env) (one_sent env wire target e fault)
  one_sent-Sound target e none o h = h
  one_sent-Sound target e (some problem) o h = h

  send_each-Sound :
      (target : DeviceId) (es : List SendEnvelope)
      → Keeps (Sound env) (send_each env wire target es)
  unfolding send_each
  send_each-Sound target [] = lift-Keeps (Sound env) _
  send_each-Sound target (e ∷ es) =
      >>-Keeps (Sound env) _ _ (one_sent-Sound target e (wire.send_error target e))
        (send_each-Sound target es)

  transfer-Sound :
      (request : SendFilesRequest) (events : List WaitEvent)
      → Keeps (Sound env) (transfer env wire request events)
  unfolding transfer
  transfer-Sound request events =
      >>=-Keeps (Sound env) _ _
        (prepare_send_payload-Sound env request.paths request.target request.transfer_id
          request.resume)
        λ payload. >>-Keeps (Sound env) _ _ (lift-Keeps (Sound env) _) (
          >>-Keeps (Sound env) _ _ (lift-Keeps (Sound env) _) (
            >>=-Keeps (Sound env) _ _ (lift-Keeps (Sound env) _) λ es.
              >>-Keeps (Sound env) _ _ (send_each-Sound request.target es)
                (lift-Keeps (Sound env) _)))

  overruled-Sound :
      (i : Uuid) (r : Outbox × Result String (Unit {0}))
      → (Sound env) r.0
      → (Sound env) (overruled env wire i r).0
  overruled-Sound i (o, result) h = elim (Bool-cases (env.cancelled at_end)) [
    | inl stop ↦ rw stop h
    | inr go ↦ rw go h
  ]

  finish-Sound :
      (i : Uuid) (r : Outbox × Result String (Unit {0}))
      → (Sound env) r.0
      → (Sound env) (finish env wire i r).outbox
  finish-Sound i (o, ok u) h = mark_send_complete-Sound env i o h
  finish-Sound i (o, err message) h = mark_send_failed-Sound env i message o h

  started-Sound :
      (request : SendFilesRequest) (is_gone : Bool) (waiter : ℕ) (events : List WaitEvent)
      (o : Outbox) (refusal : Option String)
      → Sound env o
      → (Sound env) (started env wire request is_gone waiter events o refusal).outbox
  started-Sound request is_gone waiter events o (some message) h = h
  started-Sound request true waiter events o none h = h
  started-Sound request false waiter events o none h =
      let o' = (coordinate env.disk (Coordinator.register request.transfer_id waiter) o).0 in
      finish-Sound request.transfer_id _
        (overruled-Sound request.transfer_id _ (transfer-Sound request events o' h))

  -- However a request to send files ends, and whatever fails on the way, each saved send that is ready
  -- or waits for its acknowledgement names a collection, and a collection that any saved send names is
  -- what importing the files at its paths gives, with its entries, if all this held before.
  pub handle_send_files-Sound :
      (ctx : ControlContext) (request : SendFilesRequest) (is_gone : Bool) (waiter : ℕ)
      (events : List WaitEvent) (o : Outbox)
      → Sound env o
      → (Sound env) (handle_send_files env wire ctx request is_gone waiter events o).outbox
  unfolding handle_send_files
  handle_send_files-Sound ctx request is_gone waiter events o h =
      started-Sound request is_gone waiter events o (validate_preconditions ctx request.target) h
