-- ===== src/Send/Receive/Left.antt =====
-- feature.rs of crates/failsafe-send: a receive that goes past the limits has a saved state, however it
-- ends.
use failsafe.Prelude.{
  ◌≡◌, refl, inl, inr, ◌⊎◌, Bool-cases, String, Option, none, some, List, map, nat_key, ◌==◌,
  Result, ok, err, arith,
}
use failsafe.Prelude.Assoc.{get, insert, get-insert, get-insert_self}
use failsafe.Clipboard.Limits.{LimitError, validate_entries}
use failsafe.Send.Payload.{Uuid, FileEntry}
use failsafe.Send.TransferState.{
  Store, ReceiveTransferState, downloading, exporting, complete_stage, save_receive_state,
  saved_state,
}
use failsafe.Send.Receive.{
  Env, World, Ran, after_save, save_then, exported, export_to, dir_of, downloaded, validated,
  run_receive, notify_files_received,
}

-- A state is saved under the identifier.
abbrev pub Has : Uuid → Store → Type 0
Has id store = (st : ReceiveTransferState) × (get id store ≡ some st)

insert-Has :
    (id : Uuid) (st : ReceiveTransferState) (store : Store)
    → Has id store
    → Has id (insert st.transfer_id st store)
insert-Has id st store (old, at) =
    let put = get-insert st.transfer_id id st store in
    elim (Bool-cases (st.transfer_id == id)) [
      | inl same ↦ (st, ground (arith, put, same))
      | inr other ↦ (old, ground (arith, put, other, at))
    ]

module _ (env : Env) where
  after_save-Has :
      (id : Uuid) (w : World) (next : World → Ran) (st : ReceiveTransferState) (o : Option String)
      → Has id w.store
      → ((w' : World) → Has id w'.store → Has id (next w').0.store)
      → Has id (after_save env w next (saved_state env.disk st o w.store)).0.store
  after_save-Has id w next st (some e) k h = k
  after_save-Has id w next st none k h =
      h (record w { store = insert st.transfer_id st w.store }) (insert-Has id st w.store k)

  save_then-Has :
      (id : Uuid) (st : ReceiveTransferState) (next : World → Ran) (w : World)
      → Has id w.store
      → ((w' : World) → Has id w'.store → Has id (next w').0.store)
      → Has id (save_then env st next w).0.store
  unfolding save_receive_state
  save_then-Has id st next w k h = after_save-Has id w next st (env.disk.save_error st) k h

  exported-Has :
      (id : Uuid) (st : ReceiveTransferState) (dir : String) (r : Result String (List String))
      (w : World)
      → Has id w.store
      → Has id (exported env st dir r w).0.store
  exported-Has id st dir (err e) w k = k
  exported-Has id st dir (ok paths) w k =
      save_then-Has id (record st { stage = complete_stage; bytes_done = st.bytes_total })
        (notify_files_received env st paths dir) w k (λ w' k'. k')

  export_to-Has :
      (id : Uuid) (st : ReceiveTransferState) (o : Option String) (w : World)
      → Has id w.store
      → Has id (export_to env st o w).0.store
  export_to-Has id st none w k = k
  export_to-Has id st (some dir) w k =
      exported-Has id (record st { receive_dir = some dir }) dir
        (env.export_collection st.collection_hash dir) w k

  downloaded-Has :
      (id : Uuid) (st : ReceiveTransferState) (r : Result String (Unit {0})) (w : World)
      → Has id w.store
      → Has id (downloaded env st r w).0.store
  downloaded-Has id st (err e) w k = k
  downloaded-Has id st (ok u) w k =
      let st' = record st { stage = exporting; bytes_done = st.bytes_total } in
      let o = dir_of env st' st'.receive_dir in
      save_then-Has id st' (export_to env st' o) w k (λ w' k'. export_to-Has id st' o w' k')

  first_save-Has :
      (st : ReceiveTransferState) (next : World → Ran) (w : World)
      → env.disk.save_error st ≡ none
      → ((w' : World) → Has st.transfer_id w'.store → Has st.transfer_id (next w').0.store)
      → Has st.transfer_id (save_then env st next w).0.store
  unfolding save_receive_state
  first_save-Has st next w works h = rw works (
      h (record w { store = insert st.transfer_id st w.store })
        (st, get-insert_self st.transfer_id st w.store))

  -- The limits refused the files and nothing was done, or a state is saved.
  abbrev pub Leaves : ReceiveTransferState → World → Result LimitError (Unit {0}) → Ran → Type 0
  Leaves st w r ran =
      ((e : LimitError) × (r ≡ err e) × (ran ≡ (w, err (env.describe e))))
      ⊎ Has st.transfer_id ran.0.store

  validated-Leaves :
      (st : ReceiveTransferState) (r : Result LimitError (Unit {0})) (w : World)
      → ((st : ReceiveTransferState) → env.disk.save_error st ≡ none)
      → Leaves st w r (validated env st r w)
  validated-Leaves st (err e) w works = inl (e, refl, refl)
  validated-Leaves st (ok u) w works =
      let st' = record st { stage = downloading } in
      let r = env.download_collection st.sender st.collection_hash st.bytes_total in
      inr (
        first_save-Has st' (downloaded env st' r) w (works st')
          (λ w' k. downloaded-Has st.transfer_id st' r w' k))

  pub run_receive-Leaves :
      (st : ReceiveTransferState) (w : World)
      → ((st : ReceiveTransferState) → env.disk.save_error st ≡ none)
      → Leaves st w
          (validate_entries env.limits (map (λ (e : FileEntry). (e.name, e.size)) st.entries))
          (run_receive env st w)
  unfolding run_receive
  run_receive-Leaves st w works = validated-Leaves st _ w works
