-- ===== src/Send/Outbound/Kept.antt =====
-- outbound.rs: preparing and marking a send change nothing but the saved states.
use failsafe.Prelude.{
  Bool, true, false, String, List, nat_key, Result, ok, err, Option-cases, inl, inr,
}
use failsafe.Prelude.Assoc.{get, insert, remove}
use failsafe.Prelude.Stateful.{◌>>◌, lift, Keeps, >>=-Keeps, >>-Keeps, lift-Keeps, if-Keeps}
use failsafe.Core.Message.{DeviceId}
use failsafe.Send.Payload.{Uuid}
use failsafe.Send.SavedSends.{
  SendPathSpec, SendTransferState, importing, Outbox, save_send_state, load_send_state,
  remove_send_state,
}
use failsafe.Send.Outbound.{
  SendEnv, import_step, run_import, hand_over, load_or_init_send_state, prepare_send_payload,
  mark_loaded, mark_send_complete, mark_send_failed,
}

module _ (env : SendEnv) (P : Outbox → Type 0)
    (any : (o : Outbox) (saved : List (Uuid × SendTransferState))
      → P o
      → P (record o { saved = saved })) where
  open env use {disk}

  save_send_state-Keeps : (st : SendTransferState) → Keeps P (save_send_state disk st)
  unfolding save_send_state ◌>>◌
  save_send_state-Keeps st o h = elim (Option-cases (disk.save_error st)) [
    | inl fine ↦ rw fine (any o (insert st.transfer_id st o.saved) h)
    | inr (e, fault) ↦ rw fault h
  ]

  remove_send_state-Keeps : (i : Uuid) → Keeps P (remove_send_state disk i)
  unfolding remove_send_state lift ◌>>◌
  remove_send_state-Keeps i o h = elim (Option-cases (get i o.saved)) [
    | inl none_ ↦ rw none_ h
    | inr (st, there) ↦ elim (Option-cases (disk.remove_error i)) [
      | inl fine ↦ rw there (rw fine (any o (remove i o.saved) h))
      | inr (e, fault) ↦ rw there (rw fault h)
    ]
  ]

  load_send_state-Keeps : (i : Uuid) → Keeps P (load_send_state disk i)
  unfolding load_send_state
  load_send_state-Keeps i o h = h

  load_or_init-Keeps :
      (paths : List SendPathSpec) (target : DeviceId) (i : Uuid) (resume : Bool)
      → Keeps P (load_or_init_send_state env paths target i resume)
  unfolding load_or_init_send_state
  load_or_init-Keeps paths target i true =
      >>=-Keeps P _ _ (load_send_state-Keeps i)
        λ st. >>-Keeps P _ _ (lift-Keeps P _) (lift-Keeps P _)
  load_or_init-Keeps paths target i false =
      >>=-Keeps P _ _ (lift-Keeps P _) (λ previews. lift-Keeps P _)

  run_import-Keeps :
      (paths : List SendPathSpec) (st : SendTransferState) → Keeps P (run_import env paths st)
  run_import-Keeps paths st = >>-Keeps P _ _ (save_send_state-Keeps st) (
      >>=-Keeps P _ _ (lift-Keeps P _) λ sources.
        >>=-Keeps P _ _ (lift-Keeps P _)
          λ imported. >>-Keeps P _ _ (save_send_state-Keeps _) (lift-Keeps P _))

  import_step-Keeps :
      (paths : List SendPathSpec) (st : SendTransferState) → Keeps P (import_step env paths st)
  import_step-Keeps paths st =
      if-Keeps P _ _ _ (run_import-Keeps paths (record st { stage = importing })) (lift-Keeps P _)

  hand_over-Keeps : (i : Uuid) (st : SendTransferState) → Keeps P (hand_over env i st)
  hand_over-Keeps i st = >>-Keeps P _ _ (lift-Keeps P _) (
      >>-Keeps P _ _ (save_send_state-Keeps _)
        (>>=-Keeps P _ _ (lift-Keeps P _) (λ hash. lift-Keeps P _)))

  pub prepare_send_payload-Keeps :
      (paths : List SendPathSpec) (target : DeviceId) (i : Uuid) (resume : Bool)
      → Keeps P (prepare_send_payload env paths target i resume)
  unfolding prepare_send_payload
  prepare_send_payload-Keeps paths target i resume = >>-Keeps P _ _ (lift-Keeps P _) (
      >>=-Keeps P _ _ (load_or_init-Keeps paths target i resume) λ loaded.
        >>-Keeps P _ _ (lift-Keeps P _) (
          >>-Keeps P _ _ (save_send_state-Keeps loaded.1)
            (>>=-Keeps P _ _ (import_step-Keeps loaded.0 loaded.1) λ st. hand_over-Keeps i st)))

  pub mark_send_complete-Keeps : (i : Uuid) → Keeps P (mark_send_complete env i)
  unfolding mark_send_complete
  mark_send_complete-Keeps i =
      >>=-Keeps P _ _ (load_send_state-Keeps i)
        λ st. >>-Keeps P _ _ (save_send_state-Keeps _) (remove_send_state-Keeps i)

  mark_loaded-Keeps :
      (message : String) (r : Outbox × Result String SendTransferState)
      → P r.0
      → P (mark_loaded env message r)
  mark_loaded-Keeps message (o, err e) h = h
  mark_loaded-Keeps message (o, ok st) h = save_send_state-Keeps _ o h

  pub mark_send_failed-Keeps :
      (i : Uuid) (message : String) → Keeps P (mark_send_failed env i message)
  unfolding mark_send_failed
  mark_send_failed-Keeps i message o h =
      mark_loaded-Keeps message (load_send_state disk i o) (load_send_state-Keeps i o h)
