-- ===== src/Send/Outbound/Resumed.antt =====
-- outbound.rs: a send that failed and is taken up again.
use failsafe.Prelude.{
  ◌≡◌, refl, ap, subst, true, false, String, none, some, List, nat_key, ok, arith,
}
use failsafe.Prelude.Assoc.{get, insert, get-insert_self}
use failsafe.Prelude.Stateful.{◌>>=◌, ◌>>◌, lift}
use failsafe.Core.Message.{DeviceId}
use failsafe.Send.Payload.{Uuid}
use failsafe.Send.SavedSends.{
  SendPathSpec, waiting_ack, failed_stage, is_done, SendTransferState, Outbox, save_send_state,
  load_send_state,
}
use failsafe.Send.Outbound.{
  Point, SendEnv, import_needed, check_limits, load_or_init_send_state, prepare_send_payload,
  payload_of, mark_send_failed,
}

-- The file system saves and reads, and no one cancels.
pub record IsCalm (env : SendEnv) : Type 0 where
  pub saves : (st : SendTransferState) → env.disk.save_error st ≡ none
  pub reads : (i : Uuid) → env.disk.read_error i ≡ none
  pub goes_on : (p : Point) → env.cancelled p ≡ false

module _ (env : SendEnv) (calm : IsCalm env) (i : Uuid) where
  save_send_state-calm :
      (st : SendTransferState) (o : Outbox)
      → save_send_state env.disk st o
        ≡ (record o { saved = insert st.transfer_id st o.saved }, ok tt)
  unfolding save_send_state ◌>>◌
  save_send_state-calm st o = rw (calm.saves st) refl

  load_send_state-calm :
      (st : SendTransferState) (o : Outbox)
      → get i o.saved ≡ some st
      → load_send_state env.disk i o ≡ (o, ok st)
  unfolding load_send_state
  load_send_state-calm st o at = rw at (rw (calm.reads i) refl)

  resumed :
      (paths : List SendPathSpec) (target : DeviceId) (st : SendTransferState) (hash : String)
      (o : Outbox)
      → get i o.saved ≡ some st
      → is_done st.stage ≡ false
      → check_limits env st ≡ ok tt
      → st.collection_hash ≡ some hash
      → env.is_stored hash st.bytes_total ≡ ok true
      → (prepare_send_payload env paths target i true o).1 ≡ ok (payload_of env i st hash)
  unfolding prepare_send_payload load_or_init_send_state ◌>>=◌ ◌>>◌ lift
  resumed paths target st hash o at open_ fits named stored =
      let read = load_send_state-calm st o at in
      let idle : import_needed env st.collection_hash st.bytes_total ≡ false =
        ground (arith, named, stored) in
      let o' = record o { saved = insert st.transfer_id st o.saved } in
      rw (calm.goes_on Point.at_start) (
        rw read (
          rw open_ (
            rw fits (
              rw (save_send_state-calm st o) (
                rw idle (
                  rw (calm.goes_on Point.after_prepare) (
                    rw (save_send_state-calm (record st { stage = waiting_ack }) o')
                      (ground (arith, named)))))))))

  -- A send that failed after its files were stored is taken up again, with whatever paths the request
  -- names: if the disk works, nothing is cancelled, the limits allow the saved files and the store
  -- still has them all, it gets their payload.
  pub prepare_send_payload-resumed :
      (paths : List SendPathSpec) (target : DeviceId) (message : String) (st : SendTransferState)
      (hash : String) (o : Outbox)
      → get i o.saved ≡ some st
      → st.transfer_id ≡ i
      → check_limits env st ≡ ok tt
      → st.collection_hash ≡ some hash
      → env.is_stored hash st.bytes_total ≡ ok true
      → let o' = (mark_send_failed env i message o).0 in
        (prepare_send_payload env paths target i true o').1 ≡ ok (payload_of env i st hash)
  unfolding mark_send_failed
  prepare_send_payload-resumed paths target message st hash o at keyed fits named stored =
      let st' = record st { stage = failed_stage; error = some message } in
      let o' = record o { saved = insert st.transfer_id st' o.saved } in
      let found : get i o'.saved ≡ some st' =
        subst (λ (k : Uuid). get k o'.saved ≡ some st') keyed
          (get-insert_self st.transfer_id st' o.saved) in
      let marked : (mark_send_failed env i message o).0 ≡ o' =
        rw (load_send_state-calm st o at) (ap (λ s. s.0) (save_send_state-calm st' o)) in
      rw marked (resumed paths target st' hash o' found refl fits named stored)
