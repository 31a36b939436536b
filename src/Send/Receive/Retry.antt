-- ===== src/Send/Receive/Retry.antt =====
-- feature.rs of crates/failsafe-send: a transfer that is sent again, and one that failed.
use failsafe.Prelude.{
  ◌≡◌, refl, sym, ap, ◌∙◌, subst, inl, inr, true, false, String, none, some, nat_key, ◌==◌, Result,
  ok, err, arith, Bool-cases, Option-cases,
}
use failsafe.Prelude.Assoc.{get}
use failsafe.Core.Message.{DeviceId}
use failsafe.Send.Payload.{Uuid, SendPayload, send_payload_version}
use failsafe.Send.TransferState.{
  Store, ReceiveTransferState, is_done, load_receive_state, receive_state_from_payload,
}
use failsafe.Send.Receive.{
  Env, World, Ran, TransferError, ack_not_sent, run_receive, send_ack, acknowledge, accepted,
  conclude, refreshed, handle_state, state_or_new, handle_transfer_locked,
}
use failsafe.Send.Receive.Saved.{IsKeyed, run_receive-Saves}

-- The transfer is saved as complete.
abbrev pub IsComplete : Uuid → Store → Type 0
IsComplete id store =
    (st : ReceiveTransferState) × (get id store ≡ some st) × (is_done st.stage ≡ true)

module _ (env : Env) where
  handle-IsComplete :
      (from : DeviceId) (payload : SendPayload) (w : World)
      → (payload.version == send_payload_version) ≡ true
      → env.disk.read_error payload.transfer_id ≡ none
      → IsComplete payload.transfer_id w.store
      → handle_transfer_locked env from payload w ≡ acknowledge env from payload.transfer_id w
  unfolding handle_transfer_locked load_receive_state
  handle-IsComplete from payload w version readable (st, at, finished) =
      rw (version, at, readable, finished) refl

  acknowledge-lost :
      (from : DeviceId) (id : Uuid) (w : World) (e : String)
      → (acknowledge env from id w).1 ≡ err (ack_not_sent e)
      → (acknowledge env from id w).0.store ≡ w.store
  unfolding send_ack
  acknowledge-lost from id w e h = elim (Option-cases (env.send_error from (accepted env id))) [
    | inl sent ↦ absurd (ground (arith, sent))
    | inr (x, lost) ↦ rw lost refl
  ]

  conclude-lost :
      (from : DeviceId) (id : Uuid) (r : Ran) (e : String)
      → (conclude env from id r).1 ≡ err (ack_not_sent e)
      → (r.1 ≡ ok tt → IsComplete id r.0.store)
      → IsComplete id (conclude env from id r).0.store
  conclude-lost from id (w, err message) e h saves = absurd (ground arith)
  conclude-lost from id (w, ok u) e h saves =
      subst (IsComplete id) (sym (acknowledge-lost from id w e h)) (saves refl)

  pub handle_state-done :
      (from : DeviceId) (payload : SendPayload) (st : ReceiveTransferState) (w : World)
      → is_done st.stage ≡ true
      → handle_state env from payload st w ≡ acknowledge env from payload.transfer_id w
  handle_state-done from payload st w finished = rw (finished, handle_state) refl

  pub handle_state-run :
      (from : DeviceId) (payload : SendPayload) (st : ReceiveTransferState) (w : World)
      → is_done st.stage ≡ false
      → handle_state env from payload st w
        ≡ conclude env from payload.transfer_id (run_receive env (refreshed env from payload st) w)
  handle_state-run from payload st w unfinished = rw (unfinished, handle_state) refl

  pub handle-supported :
      (from : DeviceId) (payload : SendPayload) (w : World)
      → (payload.version == send_payload_version) ≡ true
      → handle_transfer_locked env from payload w
        ≡ handle_state env from payload
            (state_or_new env from payload
              (load_receive_state env.disk payload.transfer_id w.store))
            w
  unfolding handle_transfer_locked
  handle-supported from payload w version = rw version refl

  handle_state-lost :
      (from : DeviceId) (payload : SendPayload) (st : ReceiveTransferState) (w : World) (e : String)
      → st.transfer_id ≡ payload.transfer_id
      → (is_done st.stage ≡ true → get payload.transfer_id w.store ≡ some st)
      → (handle_state env from payload st w).1 ≡ err (ack_not_sent e)
      → IsComplete payload.transfer_id (handle_state env from payload st w).0.store
  handle_state-lost from payload st w e own stored h = elim (Bool-cases (is_done st.stage)) [
    | inl finished ↦
        let same = handle_state-done from payload st w finished in
        let lost = acknowledge-lost from payload.transfer_id w e (ap (λ r. r.1) (sym same) ∙ h) in
        subst
          (λ (r : World × Result TransferError (Unit {0})).
            IsComplete payload.transfer_id r.0.store)
          (sym same) (st, ap (λ s. get payload.transfer_id s) lost ∙ stored finished, finished)
    | inr unfinished ↦
        let same = handle_state-run from payload st w unfinished in
        let ran = run_receive env (refreshed env from payload st) w in
        subst
          (λ (r : World × Result TransferError (Unit {0})).
            IsComplete payload.transfer_id r.0.store)
          (sym same)
          (conclude-lost from payload.transfer_id ran e (ap (λ r. r.1) (sym same) ∙ h) (λ p.
            subst (λ id. IsComplete id ran.0.store) own
              (run_receive-Saves env (refreshed env from payload st) w p)))
  ]

  pub state_or_new-own :
      (from : DeviceId) (payload : SendPayload) (store : Store)
      → IsKeyed store
      → let st =
          state_or_new env from payload (load_receive_state env.disk payload.transfer_id store) in
        (st.transfer_id ≡ payload.transfer_id)
        × (is_done st.stage ≡ true → get payload.transfer_id store ≡ some st)
  unfolding load_receive_state receive_state_from_payload
  state_or_new-own from payload store keyed = elim (Option-cases (get payload.transfer_id store)) [
    | inl e ↦ rw e (refl, λ p. absurd (ground arith))
    | inr (st, e) ↦ elim (Option-cases (env.disk.read_error payload.transfer_id)) [
      | inl r ↦ rw (e, r) (keyed payload.transfer_id st e, λ p. refl)
      | inr (x, r) ↦ rw (e, r) (refl, λ p. absurd (ground arith))
    ]
  ]

  handle-version :
      (from : DeviceId) (payload : SendPayload) (w : World) (e : String)
      → (handle_transfer_locked env from payload w).1 ≡ err (ack_not_sent e)
      → (payload.version == send_payload_version) ≡ true
  unfolding handle_transfer_locked
  handle-version from payload w e h = elim (Bool-cases (payload.version == send_payload_version)) [
    | inl same ↦ same
    | inr other ↦ absurd (ground (arith, other))
  ]

  handle-lost :
      (from : DeviceId) (payload : SendPayload) (w : World) (e : String)
      → IsKeyed w.store
      → (handle_transfer_locked env from payload w).1 ≡ err (ack_not_sent e)
      → IsComplete payload.transfer_id (handle_transfer_locked env from payload w).0.store
  handle-lost from payload w e keyed h =
      let version = handle-version from payload w e h in
      let st =
        state_or_new env from payload (load_receive_state env.disk payload.transfer_id w.store) in
      let own = state_or_new-own from payload w.store keyed in
      let same = handle-supported from payload w version in
      subst
        (λ (r : World × Result TransferError (Unit {0})). IsComplete payload.transfer_id r.0.store)
        (sym same)
        (handle_state-lost from payload st w e own.0 own.1 (ap (λ r. r.1) (sym same) ∙ h))

-- When the acknowledgement of a received transfer is lost, and the transfer is sent again, with
-- whatever the surroundings then do, it is acknowledged from the saved state without another
-- download, provided that the saved state can be read.
pub handle_transfer_locked-again :
    (env env' : Env) (from : DeviceId) (payload : SendPayload) (w : World) (e : String)
    → IsKeyed w.store
    → (handle_transfer_locked env from payload w).1 ≡ err (ack_not_sent e)
    → env'.disk.read_error payload.transfer_id ≡ none
    → let w' = (handle_transfer_locked env from payload w).0 in
      handle_transfer_locked env' from payload w' ≡ acknowledge env' from payload.transfer_id w'
handle_transfer_locked-again env env' from payload w e keyed h readable =
    handle-IsComplete env' from payload (handle_transfer_locked env from payload w).0
      (handle-version env from payload w e h) readable (handle-lost env from payload w e keyed h)
