-- ===== src/Send/Receive/Failed.antt =====
-- feature.rs of crates/failsafe-send: what a receive that fails leaves.
use failsafe.Prelude.{
  ◌≡◌, ◌≢◌, refl, sym, ap, ◌∙◌, subst, inl, inr, ◌⊎◌, String, none, some, nat_key, Result, ok, err,
  arith, Bool-cases, Option-cases, map,
}
use failsafe.Prelude.Assoc.{get, insert, get-insert_self}
use failsafe.Core.Message.{DeviceId}
use failsafe.Send.Payload.{Uuid, FileEntry, SendPayload, send_payload_version}
use failsafe.Send.TransferState.{
  Store, ReceiveTransferState, failed_stage, is_done, save_receive_state, load_receive_state,
}
use failsafe.Send.Receive.{
  Env, World, Ran, TransferError, receive_failed, run_receive, send_ack, acknowledge, accepted,
  mark_failed, conclude, refreshed, state_or_new, handle_transfer_locked,
}
use failsafe.Send.Receive.Saved.{IsKeyed, run_receive-IsKeyed}
use failsafe.Send.Receive.Retry.{
  handle_state-done, handle_state-run, handle-supported, state_or_new-own,
}
use failsafe.Send.Receive.Left.{Has, run_receive-Leaves}
use failsafe.Clipboard.Limits.{LimitError, validate_entries}

-- The transfer is saved as failed with the message.
abbrev pub SavedFailed : Uuid → String → Store → Type 0
SavedFailed id message store =
    (st : ReceiveTransferState) × (get id store ≡ some st)
    × (st.stage ≡ failed_stage)
    × (st.error ≡ some message)

-- A receive is saved as failed, unless the limits refused the files of a transfer that was not saved
-- before: then the saved states are what they were, and the message is the limits'.
abbrev pub IsFailed : Env → SendPayload → String → Store → Store → Type 0
IsFailed env payload message before after =
    SavedFailed payload.transfer_id message after
    ⊎ ((e : LimitError) × (validate_entries env.limits
            (map (λ (f : FileEntry). (f.name, f.size)) payload.entries)
          ≡ err e)
        × (message ≡ env.describe e)
        × (get payload.transfer_id before ≡ none)
        × (after ≡ before))

module _ (env : Env) where
  save-writable :
      (st : ReceiveTransferState) (store : Store)
      → env.disk.save_error st ≡ none
      → save_receive_state env.disk st store ≡ (insert st.transfer_id st store, ok tt)
  unfolding save_receive_state
  save-writable st store e = rw e refl

  mark_failed-Saved :
      (id : Uuid) (message : String) (w : World)
      → IsKeyed w.store
      → env.disk.read_error id ≡ none
      → ((st : ReceiveTransferState) → env.disk.save_error st ≡ none)
      → SavedFailed id message (mark_failed env id message w).store
        ⊎ ((get id w.store ≡ none) × ((mark_failed env id message w).store ≡ w.store))
  unfolding load_receive_state
  mark_failed-Saved id message w keyed readable writable = elim (Option-cases (get id w.store)) [
    | inl e ↦ rw e (inr (refl, refl))
    | inr (st, e) ↦
        let st' = record st { stage = failed_stage; error = some message } in
        let at : get id (insert st.transfer_id st' w.store) ≡ some st' =
          subst (λ k. get id (insert k st' w.store) ≡ some st') (sym (keyed id st e))
            (get-insert_self id st' w.store) in
        let saves = save-writable st' w.store (writable st') in
        let failed =
          subst (λ (s : Store × Result String (Unit {0})). SavedFailed id message s.0) (sym saves)
            (st', at, refl, refl) in
        inl (rw (e, readable) failed)
  ]

  conclude-IsFailed :
      (from : DeviceId) (payload : SendPayload) (message : String) (before : World) (r : Ran)
      → (conclude env from payload.transfer_id r).1 ≡ err (receive_failed message)
      → IsKeyed r.0.store
      → env.disk.read_error payload.transfer_id ≡ none
      → ((st : ReceiveTransferState) → env.disk.save_error st ≡ none)
      → ((e : LimitError) × (validate_entries env.limits
              (map (λ (f : FileEntry). (f.name, f.size)) payload.entries)
            ≡ err e)
          × (r ≡ (before, err (env.describe e))))
        ⊎ Has payload.transfer_id r.0.store
      → IsFailed env payload message before.store (conclude env from payload.transfer_id r).0.store
  unfolding send_ack
  conclude-IsFailed from payload message before (w, ok u) h keyed readable writable left =
      elim (Option-cases (env.send_error from (accepted env payload.transfer_id))) [
        | inl sent ↦ absurd (ground (arith, sent, h))
        | inr (x, lost) ↦ absurd (ground (arith, lost, h))
      ]
  conclude-IsFailed from payload message before (w, err message') h keyed readable writable left =
      let id = payload.transfer_id in
      let same : message' ≡ message = ground (arith, h) in
      subst (λ text. IsFailed env payload text before.store (mark_failed env id message' w).store)
        same
        (elim (mark_failed-Saved id message' w keyed readable writable) [
          | inl saved ↦ inl saved
          | inr (gone, kept) ↦ elim left [
            | inr (st, at) ↦ absurd (ground (arith, gone, at))
            | inl (e, bad, ran) ↦
                let there : w ≡ before = ap (λ (q : Ran). q.0) ran in
                let told : message' ≡ env.describe e = ground (arith, ap (λ (q : Ran). q.1) ran) in
                let store = ap (λ (v : World). v.store) there in
                inr (e, bad, told, ap (λ s. get id s) (sym store) ∙ gone, kept ∙ store)
          ]
        ])

  acknowledge-ne :
      (from : DeviceId) (id : Uuid) (w : World) (message : String)
      → (acknowledge env from id w).1 ≢ err (receive_failed message)
  unfolding send_ack
  acknowledge-ne from id w message h = elim (Option-cases (env.send_error from (accepted env id))) [
    | inl sent ↦ ground (arith, sent, h)
    | inr (x, lost) ↦ ground (arith, lost, h)
  ]

  -- When a receive fails on a disk that works, the transfer is saved as failed with the message of
  -- the error, whether it was saved before or not; only if the limits refuse the files of a transfer
  -- that was not saved before, nothing is saved, and the message is that of the limits.
  pub handle_transfer_locked-IsFailed :
      (from : DeviceId) (payload : SendPayload) (w : World) (message : String)
      → payload.version ≡ send_payload_version
      → IsKeyed w.store
      → env.disk.read_error payload.transfer_id ≡ none
      → ((st : ReceiveTransferState) → env.disk.save_error st ≡ none)
      → (handle_transfer_locked env from payload w).1 ≡ err (receive_failed message)
      → IsFailed env payload message w.store (handle_transfer_locked env from payload w).0.store
  handle_transfer_locked-IsFailed from payload w message version keyed readable writable h =
      let same = handle-supported env from payload w (rw version refl) in
      let st =
        state_or_new env from payload (load_receive_state env.disk payload.transfer_id w.store) in
      let h' = ap (λ r. r.1) (sym same) ∙ h in
      let Fails : World × Result TransferError (Unit {0}) → Type 0 =
        λ r. IsFailed env payload message w.store r.0.store in
      subst Fails (sym same) (elim (Bool-cases (is_done st.stage)) [
        | inl finished ↦
            let done = handle_state-done env from payload st w finished in
            absurd
              (acknowledge-ne from payload.transfer_id w message (ap (λ r. r.1) (sym done) ∙ h'))
        | inr unfinished ↦
            let run = handle_state-run env from payload st w unfinished in
            let st' = refreshed env from payload st in
            let ran = run_receive env st' w in
            let own = (state_or_new-own env from payload w.store keyed).0 in
            subst Fails (sym run) (
              conclude-IsFailed from payload message w ran (ap (λ r. r.1) (sym run) ∙ h')
                (run_receive-IsKeyed env st' w keyed) readable writable
                (elim (run_receive-Leaves env st' w writable) [
                  | inl refusal ↦ inl refusal
                  | inr has ↦ inr (subst (λ id. Has id ran.0.store) own has)
                ]))
      ])
