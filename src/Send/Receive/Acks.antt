-- ===== src/Send/Receive/Acks.antt =====
-- feature.rs of crates/failsafe-send: what an acknowledgement means.
use failsafe.Prelude.{
  ◌≡◌, ◌≢◌, refl, ap, beq→eq, ◌∙◌, inl, inr, ◌⊎◌, true, String, Option, none, some, List, [], ◌∷◌,
  ◌++◌, map, nat_key, ◌==◌, Result, ok, err, arith, Bool-cases, Option-cases,
}
use failsafe.Core.Message.{DeviceId}
use failsafe.Clipboard.Limits.{validate_entries, LimitError}
use failsafe.Send.Payload.{Uuid, FileEntry, SendPayload, SendAck, send_payload_version}
use failsafe.Send.TransferState.{
  Store, ReceiveTransferState, downloading, exporting, is_done, load_receive_state,
}
use failsafe.Send.Receive.{
  Env, World, Ran, TransferError, receive_failed, unsupported_version, after_save, exported,
  export_to, dir_of, downloaded, validated, run_receive, accepted, refused, send_ack, acknowledge,
  conclude, refreshed, handle_state, state_or_new, handle_transfer_locked, notify_files_received,
}

module _ (env : Env) where
  -- The files of a state were accepted by the limits, downloaded, and exported to a directory.
  abbrev pub Received : ReceiveTransferState → Type 0
  Received st =
      (validate_entries env.limits (map (λ (e : FileEntry). (e.name, e.size)) st.entries) ≡ ok tt)
      × (env.download_collection st.sender st.collection_hash st.bytes_total ≡ ok tt)
      × ((dir : String) × (paths : List String) × (dir_of env st st.receive_dir ≡ some dir)
          × (env.export_collection st.collection_hash dir ≡ ok paths))

  -- A run that has these acknowledgements, and that has reached `P` if it succeeded.
  abbrev Reaches : List (DeviceId × SendAck) → Type 0 → Ran → Type 0
  Reaches acks P r = (r.0.acks ≡ acks) × (r.1 ≡ ok tt → P)

  after_save-Reaches :
      (P : Type 0) (w : World) (next : World → Ran) (s : Store × Result String (Unit {0}))
      → ((store : Store) → Reaches w.acks P (next (record w { store = store })))
      → Reaches w.acks P (after_save env w next s)
  after_save-Reaches P w next (store, err e) h = (refl, λ p. absurd (ground arith))
  after_save-Reaches P w next (store, ok u) h = h store

  exported-Reaches :
      (P : Type 0) (st : ReceiveTransferState) (dir : String) (r : Result String (List String))
      (w : World)
      → ((paths : List String) → r ≡ ok paths → P)
      → Reaches w.acks P (exported env st dir r w)
  exported-Reaches P st dir (err e) w h = (refl, λ p. absurd (ground arith))
  exported-Reaches P st dir (ok paths) w h =
      after_save-Reaches P w (notify_files_received env st paths dir) _
        (λ store. (refl, λ p. h paths refl))

  export_to-Reaches :
      (P : Type 0) (st : ReceiveTransferState) (o : Option String) (w : World)
      → ((dir : String) (paths : List String)
          → o ≡ some dir
          → env.export_collection st.collection_hash dir ≡ ok paths
          → P)
      → Reaches w.acks P (export_to env st o w)
  export_to-Reaches P st none w h = (refl, λ p. absurd (ground arith))
  export_to-Reaches P st (some dir) w h =
      exported-Reaches P (record st { receive_dir = some dir }) dir
        (env.export_collection st.collection_hash dir) w (λ paths e. h dir paths refl e)

  downloaded-Reaches :
      (P : Type 0) (st : ReceiveTransferState) (r : Result String (Unit {0})) (w : World)
      → ((dir : String) (paths : List String)
          → r ≡ ok tt
          → dir_of env st st.receive_dir ≡ some dir
          → env.export_collection st.collection_hash dir ≡ ok paths
          → P)
      → Reaches w.acks P (downloaded env st r w)
  downloaded-Reaches P st (err e) w h = (refl, λ p. absurd (ground arith))
  downloaded-Reaches P st (ok u) w h =
      let st' = record st { stage = exporting; bytes_done = st.bytes_total } in
      after_save-Reaches P w (export_to env st' (dir_of env st' st'.receive_dir)) _ (λ store.
        export_to-Reaches P st' (dir_of env st' st'.receive_dir) (record w { store = store })
          (λ dir paths at e. h dir paths refl at e))

  validated-Reaches :
      (P : Type 0) (st : ReceiveTransferState) (r : Result LimitError (Unit {0})) (w : World)
      → ((dir : String) (paths : List String)
          → r ≡ ok tt
          → env.download_collection st.sender st.collection_hash st.bytes_total ≡ ok tt
          → dir_of env st st.receive_dir ≡ some dir
          → env.export_collection st.collection_hash dir ≡ ok paths
          → P)
      → Reaches w.acks P (validated env st r w)
  validated-Reaches P st (err e) w h = (refl, λ p. absurd (ground arith))
  validated-Reaches P st (ok u) w h =
      let st' = record st { stage = downloading } in
      let r = env.download_collection st.sender st.collection_hash st.bytes_total in
      after_save-Reaches P w (downloaded env st' r) _ (λ store.
        downloaded-Reaches P st' r (record w { store = store })
          (λ dir paths got at e. h dir paths refl got at e))

  -- A receive sends no acknowledgement itself, and when it succeeds, the files were accepted,
  -- downloaded and exported.
  pub run_receive-Received :
      (st : ReceiveTransferState) (w : World)
      → ((run_receive env st w).0.acks ≡ w.acks) × ((run_receive env st w).1 ≡ ok tt → Received st)
  unfolding run_receive
  run_receive-Received st w =
      validated-Reaches (Received st) st _ w
        (λ dir paths fits got at e. (fits, got, (dir, paths, at, e)))

  -- One acknowledgement was handed to the transport: it accepts, and the files are there, or it
  -- refuses, and the call failed with its message.
  abbrev pub Answers :
      DeviceId
      → Uuid
      → List (DeviceId × SendAck)
      → Type 0
      → World × Result TransferError (Unit {0})
      → Type 0
  Answers from transfer_id acks P r =
      ((r.0.acks ≡ acks ++ (from, accepted env transfer_id) ∷ []) × P)
      ⊎ ((message : String) × (r.0.acks ≡ acks ++ (from, refused env transfer_id message) ∷ [])
          × (r.1 ≡ err (receive_failed message)))

  pub acknowledge-acks :
      (from : DeviceId) (transfer_id : Uuid) (w : World)
      → (acknowledge env from transfer_id w).0.acks
        ≡ w.acks ++ (from, accepted env transfer_id) ∷ []
  unfolding send_ack
  acknowledge-acks from transfer_id w =
      elim (Option-cases (env.send_error from (accepted env transfer_id))) [
        | inl e ↦ rw e refl
        | inr (x, e) ↦ rw e refl
      ]

  conclude-Answers :
      (P : Type 0) (from : DeviceId) (transfer_id : Uuid) (acks : List (DeviceId × SendAck))
      (r : Ran)
      → Reaches acks P r
      → Answers from transfer_id acks P (conclude env from transfer_id r)
  unfolding send_ack
  conclude-Answers P from transfer_id acks (w, ok u) h = inl (
    acknowledge-acks from transfer_id w ∙ ap (λ l. l ++ (from, accepted env transfer_id) ∷ []) h.0,
    h.1 refl,
  )
  conclude-Answers P from transfer_id acks (w, err message) h =
      inr (message, ap (λ l. l ++ (from, refused env transfer_id message) ∷ []) h.0, refl)

  handle_state-Answers :
      (from : DeviceId) (payload : SendPayload) (st : ReceiveTransferState) (w : World)
      → Answers from payload.transfer_id w.acks
          ((is_done st.stage ≡ true) ⊎ Received (refreshed env from payload st))
          (handle_state env from payload st w)
  handle_state-Answers from payload st w = elim (Bool-cases (is_done st.stage)) [
    | inl finished ↦
        rw (finished, handle_state) (inl (acknowledge-acks from payload.transfer_id w, inl refl))
    | inr unfinished ↦
        let run = run_receive-Received (refreshed env from payload st) w in
        rw (unfinished, handle_state)
          (conclude-Answers _ from payload.transfer_id w.acks
            (run_receive env (refreshed env from payload st) w) (run.0, λ p. inr (run.1 p)))
  ]

  -- A transfer of the supported version is answered by one acknowledgement to the device that sent
  -- it. It accepts only if the transfer is saved as complete or its files were just accepted by the
  -- limits, downloaded and exported; otherwise it refuses with the message that the call fails with.
  -- A transfer of another version gets no acknowledgement and changes nothing, and the call fails.
  pub handle_transfer_locked-Answers :
      (from : DeviceId) (payload : SendPayload) (w : World)
      → let st =
          state_or_new env from payload (load_receive_state env.disk payload.transfer_id w.store) in
        let r = handle_transfer_locked env from payload w in
        ((payload.version ≡ send_payload_version)
          × Answers from payload.transfer_id w.acks
              ((is_done st.stage ≡ true) ⊎ Received (refreshed env from payload st))
              r)
        ⊎ ((payload.version ≢ send_payload_version)
            × (r ≡ (w, err (unsupported_version payload.version))))
  unfolding handle_transfer_locked
  handle_transfer_locked-Answers from payload w =
      elim (Bool-cases (payload.version == send_payload_version)) [
        | inl same ↦ rw same (
            inl (
              beq→eq payload.version send_payload_version same,
              handle_state-Answers from payload
                  (state_or_new env from payload
                    (load_receive_state env.disk payload.transfer_id w.store))
                  w,
            ))
        | inr other ↦ rw other (
            inr (
              (λ p. absurd (
                  ground (arith, nat_key.same_iff payload.version send_payload_version, p, other))),
              refl,
            ))
      ]
