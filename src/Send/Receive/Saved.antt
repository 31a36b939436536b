-- ===== src/Send/Receive/Saved.antt =====
-- feature.rs of crates/failsafe-send: what a receive leaves in the saved states.
use failsafe.Prelude.{
  ◌≡◌, refl, inl, inr, true, String, Option, none, some, List, nat_key, ◌==◌, Result, ok, err,
  arith, Bool-cases, Option-cases, Result-cases, beq→eq,
}
use failsafe.Prelude.Assoc.{get, insert, get-insert, get-insert_self}
use failsafe.Clipboard.Limits.{LimitError}
use failsafe.Send.Payload.{Uuid}
use failsafe.Send.TransferState.{
  Store, ReceiveTransferState, downloading, exporting, complete_stage, is_done, save_receive_state,
  saved_state,
}
use failsafe.Send.Receive.{
  Env, World, Ran, after_save, save_then, exported, export_to, dir_of, downloaded, validated,
  run_receive, notify_files_received,
}

-- Each file holds the state of the transfer it is named for.
abbrev pub IsKeyed : Store → Type 0
IsKeyed store =
    (transfer_id : Uuid) (st : ReceiveTransferState)
    → get transfer_id store ≡ some st
    → st.transfer_id ≡ transfer_id

pub insert-IsKeyed :
    (st : ReceiveTransferState) (store : Store)
    → IsKeyed store
    → IsKeyed (insert st.transfer_id st store)
insert-IsKeyed st store k id st' h = elim (Bool-cases (st.transfer_id == id)) [
  | inl same ↦
      let e = beq→eq st.transfer_id id same in
      let found : some st ≡ some st' = cc (get-insert st.transfer_id id st store, same, h) in
      cc (found, e)
  | inr other ↦ k id st' (ground (arith, get-insert st.transfer_id id st store, other, h))
]

module _ (env : Env) where
  -- When the run succeeded, the transfer is saved as complete.
  abbrev Saves : Uuid → Ran → Type 0
  Saves id r =
      r.1 ≡ ok tt
      → (st : ReceiveTransferState) × (get id r.0.store ≡ some st) × (is_done st.stage ≡ true)

  after_save-Saves :
      (id : Uuid) (w : World) (next : World → Ran) (s : Store × Result String (Unit {0}))
      → ((store : Store) → Saves id (next (record w { store = store })))
      → Saves id (after_save env w next s)
  after_save-Saves id w next (store, err e) h = λ p. absurd (ground arith)
  after_save-Saves id w next (store, ok u) h = h store

  exported-Saves :
      (st : ReceiveTransferState) (dir : String) (r : Result String (List String)) (w : World)
      → Saves st.transfer_id (exported env st dir r w)
  unfolding save_receive_state
  exported-Saves st dir (err e) w = λ p. absurd (ground arith)
  exported-Saves st dir (ok paths) w =
      let st' = record st { stage = complete_stage; bytes_done = st.bytes_total } in
      elim (Option-cases (env.disk.save_error st')) [
        | inl e ↦ rw e (λ p. (st', get-insert_self st.transfer_id st' w.store, refl))
        | inr (x, e) ↦ rw e (λ p. absurd (ground arith))
      ]

  export_to-Saves :
      (st : ReceiveTransferState) (o : Option String) (w : World)
      → Saves st.transfer_id (export_to env st o w)
  export_to-Saves st none w = λ p. absurd (ground arith)
  export_to-Saves st (some dir) w =
      exported-Saves (record st { receive_dir = some dir }) dir
        (env.export_collection st.collection_hash dir) w

  downloaded-Saves :
      (st : ReceiveTransferState) (r : Result String (Unit {0})) (w : World)
      → Saves st.transfer_id (downloaded env st r w)
  downloaded-Saves st (err e) w = λ p. absurd (ground arith)
  downloaded-Saves st (ok u) w =
      let st' = record st { stage = exporting; bytes_done = st.bytes_total } in
      let o = dir_of env st' st'.receive_dir in
      after_save-Saves st.transfer_id w (export_to env st' o)
        (save_receive_state env.disk st' w.store)
        (λ store. export_to-Saves st' o (record w { store = store }))

  validated-Saves :
      (st : ReceiveTransferState) (r : Result LimitError (Unit {0})) (w : World)
      → Saves st.transfer_id (validated env st r w)
  validated-Saves st (err e) w = λ p. absurd (ground arith)
  validated-Saves st (ok u) w =
      let st' = record st { stage = downloading } in
      let r = env.download_collection st.sender st.collection_hash st.bytes_total in
      after_save-Saves st.transfer_id w (downloaded env st' r)
        (save_receive_state env.disk st' w.store)
        (λ store. downloaded-Saves st' r (record w { store = store }))

  pub run_receive-Saves :
      (st : ReceiveTransferState) (w : World) → Saves st.transfer_id (run_receive env st w)
  unfolding run_receive
  run_receive-Saves st w = validated-Saves st _ w

  after_save-IsKeyed :
      (w : World) (next : World → Ran) (st : ReceiveTransferState) (o : Option String)
      → IsKeyed w.store
      → ((w' : World) → IsKeyed w'.store → IsKeyed (next w').0.store)
      → IsKeyed (after_save env w next (saved_state env.disk st o w.store)).0.store
  after_save-IsKeyed w next st (some e) k h = k
  after_save-IsKeyed w next st none k h =
      h (record w { store = insert st.transfer_id st w.store }) (insert-IsKeyed st w.store k)

  save_then-IsKeyed :
      (st : ReceiveTransferState) (next : World → Ran) (w : World)
      → IsKeyed w.store
      → ((w' : World) → IsKeyed w'.store → IsKeyed (next w').0.store)
      → IsKeyed (save_then env st next w).0.store
  unfolding save_receive_state
  save_then-IsKeyed st next w k h = after_save-IsKeyed w next st (env.disk.save_error st) k h

  export_to-IsKeyed :
      (st : ReceiveTransferState) (o : Option String) (w : World)
      → IsKeyed w.store
      → IsKeyed (export_to env st o w).0.store
  export_to-IsKeyed st none w k = k
  export_to-IsKeyed st (some dir) w k =
      elim (Result-cases (env.export_collection st.collection_hash dir)) [
        | inl (e, failed) ↦ rw failed k
        | inr (paths, done) ↦
            let st' = record st {
              receive_dir = some dir;
              stage = complete_stage;
              bytes_done = st.bytes_total;
            } in
            rw done
              (save_then-IsKeyed st' (notify_files_received env st' paths dir) w k (λ w' k'. k'))
      ]

  downloaded-IsKeyed :
      (st : ReceiveTransferState) (r : Result String (Unit {0})) (w : World)
      → IsKeyed w.store
      → IsKeyed (downloaded env st r w).0.store
  downloaded-IsKeyed st (err e) w k = k
  downloaded-IsKeyed st (ok u) w k =
      let st' = record st { stage = exporting; bytes_done = st.bytes_total } in
      let o = dir_of env st' st'.receive_dir in
      save_then-IsKeyed st' (export_to env st' o) w k (λ w' k'. export_to-IsKeyed st' o w' k')

  validated-IsKeyed :
      (st : ReceiveTransferState) (r : Result LimitError (Unit {0})) (w : World)
      → IsKeyed w.store
      → IsKeyed (validated env st r w).0.store
  validated-IsKeyed st (err e) w k = k
  validated-IsKeyed st (ok u) w k =
      let st' = record st { stage = downloading } in
      let r = env.download_collection st.sender st.collection_hash st.bytes_total in
      save_then-IsKeyed st' (downloaded env st' r) w k (λ w' k'. downloaded-IsKeyed st' r w' k')

  pub run_receive-IsKeyed :
      (st : ReceiveTransferState) (w : World)
      → IsKeyed w.store
      → IsKeyed (run_receive env st w).0.store
  unfolding run_receive
  run_receive-IsKeyed st w k = validated-IsKeyed st _ w k
