-- ===== src/Send/Control/Outcome.antt =====
-- control.rs: what the user of a send is told, and what was sent by then.
use failsafe.Prelude.{
  ℕ, ◌≡◌, refl, sym, ap, ◌∙◌, false, String, none, some, List, [], ◌∷◌, ◌++◌, map, Result, ok, err,
  arith, inl, inr, ◌⊎◌, Bool-cases, Option-cases, Result-cases,
}
use mathlib.Core.List.{append_assoc, append-nil}
use failsafe.Prelude.Stateful.{◌>>=◌, ◌>>◌, lift}
use failsafe.Core.Message.{DeviceId}
use failsafe.Send.Payload.{Uuid, SendPayload, SendEnvelope}
use failsafe.Send.Manifest.{plan_transfer_envelopes}
use failsafe.Send.Coordinator
use failsafe.Send.SavedSends.{Outbox, coordinate}
use failsafe.Send.Outbound.{
  SendEnv, before_emit, before_plan, at_end, prepare_send_payload, mark_send_complete,
}
use failsafe.Send.Outbound.Kept.{prepare_send_payload-Keeps, mark_send_complete-Keeps}
use failsafe.Send.Control.{
  SendFilesRequest, send_complete, send_failed, ControlContext, validate_preconditions, WaitEvent,
  cancels, deadline_passes, channel_closes, ack_arrives, progresses, wait_for_send_ack, Wire,
  send_each, transfer, finish, overruled, handle_send_files,
}

-- Nothing but progress comes before the acknowledgement that accepts.
abbrev pub Accepts : List WaitEvent → Type 0
Accepts [] = ⊥
Accepts (cancels ∷ events) = ⊥
Accepts (deadline_passes ∷ events) = ⊥
Accepts (channel_closes ∷ events) = ⊥
Accepts (ack_arrives (ok u) ∷ events) = Unit
Accepts (ack_arrives (err e) ∷ events) = ⊥
Accepts (progresses progress ∷ events) = Accepts events

wait-Accepts : (events : List WaitEvent) → wait_for_send_ack events ≡ ok tt → Accepts events
unfolding wait_for_send_ack
wait-Accepts [] h = absurd (ground arith)
wait-Accepts (cancels ∷ events) h = absurd (ground arith)
wait-Accepts (deadline_passes ∷ events) h = absurd (ground arith)
wait-Accepts (channel_closes ∷ events) h = absurd (ground arith)
wait-Accepts (ack_arrives (ok u) ∷ events) h = tt
wait-Accepts (ack_arrives (err e) ∷ events) h = absurd (ground arith)
wait-Accepts (progresses progress ∷ events) h = wait-Accepts events h

abbrev to_target : DeviceId → List SendEnvelope → List (DeviceId × SendEnvelope)
to_target target envelopes = map (λ (e : SendEnvelope). (target, e)) envelopes

module _ (env : SendEnv) (wire : Wire) where
  send_each-sent :
      (target : DeviceId) (es : List SendEnvelope) (o : Outbox)
      → (send_each env wire target es o).1 ≡ ok tt
      → (send_each env wire target es o).0.sent ≡ o.sent ++ to_target target es
  unfolding send_each lift ◌>>◌
  send_each-sent target [] o h = sym (append-nil o.sent)
  send_each-sent target (e ∷ es) o h = elim (Option-cases (wire.send_error target e)) [
    | inr (problem, bad) ↦ absurd (ground (arith, bad, h))
    | inl fine ↦
        let o' = record o { sent = o.sent ++ (target, e) ∷ [] } in
        let rest = send_each-sent target es o' (ground (arith, fine, h)) in
        rw fine (rest ∙ append_assoc o.sent ((target, e) ∷ []) (to_target target es))
  ]

  -- The outbox with the waiter of the request.
  abbrev pub with_waiter : SendFilesRequest → ℕ → Outbox → Outbox
  with_waiter request waiter o =
      (coordinate env.disk (Coordinator.register request.transfer_id waiter) o).0

  -- What a send that is reported as complete has done: the receiver's acknowledgement came before
  -- anything else that ends the wait, and every envelope of the plan for the payload that was prepared
  -- was handed over.
  pub record IsComplete (request : SendFilesRequest) (events : List WaitEvent) (o : Outbox)
      (after : Outbox) : Type 0 where
    pub payload : SendPayload
    pub envelopes : List SendEnvelope
    pub accepts : Accepts events
    pub prepared :
        (prepare_send_payload env request.paths request.target request.transfer_id request.resume
          o).1
        ≡ ok payload
    pub planned : plan_transfer_envelopes wire.fits payload ≡ some envelopes
    pub handed : after.sent ≡ o.sent ++ to_target request.target envelopes

  transfer-IsComplete :
      (request : SendFilesRequest) (events : List WaitEvent) (o : Outbox)
      → (transfer env wire request events o).1 ≡ ok tt
      → IsComplete request events o (transfer env wire request events o).0
  unfolding transfer ◌>>=◌ ◌>>◌ lift
  transfer-IsComplete request events o h =
      let prep =
        prepare_send_payload env request.paths request.target request.transfer_id request.resume in
      let same : (prep o).0.sent ≡ o.sent =
        prepare_send_payload-Keeps env (λ t. t.sent ≡ o.sent) (λ t saved k. k) request.paths
          request.target request.transfer_id request.resume o refl in
      elim (Result-cases (prep o).1) [
        | inl (e, bad) ↦ absurd (ground (arith, bad, h))
        | inr (payload, prepared) ↦ elim (Bool-cases (env.cancelled before_emit)) [
          | inl stop ↦ absurd (ground (arith, prepared, stop, h))
          | inr go ↦ elim (Bool-cases (env.cancelled before_plan)) [
            | inl stop ↦ absurd (ground (arith, prepared, go, stop, h))
            | inr go' ↦ elim (Option-cases (plan_transfer_envelopes wire.fits payload)) [
              | inl none_ ↦ absurd (ground (arith, prepared, go, go', none_, h))
              | inr (es, planned) ↦
                  let s = send_each env wire request.target es (prep o).0 in
                  elim (Result-cases s.1) [
                    | inl (e, bad) ↦ absurd (ground (arith, prepared, go, go', planned, bad, h))
                    | inr (u, sent) ↦ record {
                      payload = payload;
                      envelopes = es;
                      accepts =
                          wait-Accepts events (ground (arith, prepared, go, go', planned, sent, h));
                      prepared = prepared;
                      planned = planned;
                      handed = ground (
                        arith,
                        prepared,
                        go,
                        go',
                        planned,
                        sent,
                        same,
                        send_each-sent request.target es (prep o).0 sent,
                      );
                    }
                  ]
            ]
          ]
        ]
      ]

  overruled-ok :
      (i : Uuid) (r : Outbox × Result String (Unit {0}))
      → (overruled env wire i r).1 ≡ ok tt
      → (env.cancelled at_end ≡ false) × (r.1 ≡ ok tt) × ((overruled env wire i r).0 ≡ r.0)
  overruled-ok i (o, result) h = elim (Bool-cases (env.cancelled at_end)) [
    | inl stop ↦ absurd (ground (arith, stop, h))
    | inr go ↦ (go, ground (arith, go, h), ground (arith, go))
  ]

  finish-Ends :
      (i : Uuid) (r : Outbox × Result String (Unit {0})) (P : Outbox → Type 0)
      → (r.1 ≡ ok tt → P (mark_send_complete env i r.0).0)
      → (((finish env wire i r).events ≡ send_complete i ∷ []) × P (finish env wire i r).outbox)
        ⊎ ((message : String) × ((finish env wire i r).events ≡ send_failed message ∷ []))
  finish-Ends i (o, ok u) P done = inl (refl, done refl)
  finish-Ends i (o, err message) P done = inr (message, refl)

  run_request-IsComplete :
      (request : SendFilesRequest) (waiter : ℕ) (events : List WaitEvent) (o : Outbox)
      → let o' = with_waiter request waiter o in
        let r = overruled env wire request.transfer_id (transfer env wire request events o') in
        r.1 ≡ ok tt
        → (env.cancelled at_end ≡ false)
          × IsComplete request events o' (mark_send_complete env request.transfer_id r.0).0
  run_request-IsComplete request waiter events o h =
      let o' = with_waiter request waiter o in
      let t = transfer env wire request events o' in
      let over = overruled-ok request.transfer_id t h in
      let c = transfer-IsComplete request events o' over.1 in
      let r = overruled env wire request.transfer_id t in
      let kept =
        mark_send_complete-Keeps env (λ q. q.sent ≡ r.0.sent) (λ q saved k. k) request.transfer_id
          r.0 refl in
      (
        over.0,
        record {
          payload = c.payload;
          envelopes = c.envelopes;
          accepts = c.accepts;
          prepared = c.prepared;
          planned = c.planned;
          handed = kept ∙ (ap (λ (q : Outbox). q.sent) over.2 ∙ c.handed);
        },
      )

  -- A request that passes the tests ends with one event. The event tells of completion only if the
  -- token is not cancelled, the receiver's acceptance came before anything but progress, and all the
  -- envelopes of the plan for the prepared payload were handed over, in their order; any other end is
  -- a failure with its message.
  pub handle_send_files-Ends :
      (ctx : ControlContext) (request : SendFilesRequest) (waiter : ℕ) (events : List WaitEvent)
      (o : Outbox)
      → validate_preconditions ctx request.target ≡ none
      → let r = handle_send_files env wire ctx request false waiter events o in
        ((r.events ≡ send_complete request.transfer_id ∷ [])
          × (env.cancelled at_end ≡ false)
          × IsComplete request events (with_waiter request waiter o) r.outbox)
        ⊎ ((message : String) × (r.events ≡ send_failed message ∷ []))
  unfolding handle_send_files
  handle_send_files-Ends ctx request waiter events o passed =
      let o' = with_waiter request waiter o in
      let r = overruled env wire request.transfer_id (transfer env wire request events o') in
      let ends =
        finish-Ends request.transfer_id r
          (λ after. (env.cancelled at_end ≡ false) × IsComplete request events o' after)
          (run_request-IsComplete request waiter events o) in
      rw passed
        (elim ends [ inl (done, told) ↦ inl (done, told.0, told.1) | inr failed ↦ inr failed ])
