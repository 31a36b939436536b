-- ===== src/Tests/Receive.antt =====
-- Receives at a concrete transfer.
use failsafe.Prelude.{
  ◌≡◌, ◌≢◌, ◌⊎◌, ◌++◌, refl, true, none, some, List, [], ◌∷◌, arith, nat_key, ok, err,
}
use failsafe.Prelude.Assoc.{get, insert}
use failsafe.Core.Message.{DeviceId}
use failsafe.Clipboard.Limits.{default_limits, validate_entries, sum_entries}
use failsafe.Send.Payload.{SendPayload, SendAck}
use failsafe.Send.TransferState.{
  Disk, ReceiveTransferState, downloading, is_done, load_receive_state, save_receive_state,
  receive_state_from_payload,
}
use failsafe.Send.Receive.{
  Env, World, receive_failed, unsupported_version, ack_not_sent, handle_transfer_locked,
  state_or_new, refreshed, acknowledge, run_receive, send_ack, resume_incomplete_receives,
}
use failsafe.Send.Receive.Acks.{Answers, Received, handle_transfer_locked-Answers}
use failsafe.Send.Receive.Saved.{IsKeyed}
use failsafe.Send.Receive.Retry.{handle_transfer_locked-again}
use failsafe.Send.Receive.Failed.{IsFailed, handle_transfer_locked-IsFailed}
use failsafe.Send.Receive.Resume.{Earned, resume_incomplete_receives-Earned}

abbrev disk : Disk
disk = record {
  save_error = λ st. none;
  read_error = λ id. none;
  remove_error = λ id. none;
  list_error = none;
}

-- The files arrive, and the acknowledgement is lost.
abbrev deaf : Env
deaf = record {
  limits = default_limits;
  disk = disk;
  describe = λ e. "too large";
  download_collection = λ d h n. ok tt;
  receive_dir_of = λ name id. some "downloads";
  export_collection = λ h dir. ok ("a" ∷ []);
  send_error = λ d a. some "closed";
}

-- The sender has no files any more.
abbrev gone : Env
gone = record deaf { download_collection = λ d h n. err "not found"; send_error = λ d a. none }

abbrev payload : SendPayload
payload = record {
  version = 1;
  transfer_id = 5;
  sender_name = "desk";
  collection_hash = "abc";
  entries = record { name = "a"; size = 10 } ∷ [];
}

abbrev nothing : World
nothing = record { store = []; acks = []; notified = [] }

nothing-IsKeyed : IsKeyed []
unfolding get
nothing-IsKeyed id st h = absurd (ground arith)

handle_transfer_locked-Answers_example :
    let st = state_or_new gone 7 payload (load_receive_state disk 5 []) in
    let r = handle_transfer_locked gone 7 payload nothing in
    ((payload.version ≡ 1)
      × Answers gone 7 5 []
          ((is_done st.stage ≡ true) ⊎ Received gone (refreshed gone 7 payload st))
          r)
    ⊎ ((payload.version ≢ 1) × (r ≡ (nothing, err (unsupported_version 1))))
handle_transfer_locked-Answers_example = handle_transfer_locked-Answers gone 7 payload nothing

first_lost : (handle_transfer_locked deaf 7 payload nothing).1 ≡ err (ack_not_sent "closed")
unfolding handle_transfer_locked run_receive send_ack load_receive_state save_receive_state
    receive_state_from_payload get insert validate_entries sum_entries
first_lost = refl

handle_transfer_locked-again_example :
    let w' = (handle_transfer_locked deaf 7 payload nothing).0 in
    handle_transfer_locked gone 7 payload w' ≡ acknowledge gone 7 5 w'
handle_transfer_locked-again_example =
    handle_transfer_locked-again deaf gone 7 payload nothing "closed" nothing-IsKeyed first_lost
      refl

not_found : (handle_transfer_locked gone 7 payload nothing).1 ≡ err (receive_failed "not found")
unfolding handle_transfer_locked run_receive send_ack load_receive_state save_receive_state
    receive_state_from_payload get insert validate_entries sum_entries
not_found = refl

handle_transfer_locked-IsFailed_example :
    IsFailed gone payload "not found" [] (handle_transfer_locked gone 7 payload nothing).0.store
handle_transfer_locked-IsFailed_example =
    handle_transfer_locked-IsFailed gone 7 payload nothing "not found" refl nothing-IsKeyed refl
      (λ st. refl) not_found

abbrev saved_receive : ReceiveTransferState
saved_receive = record {
  transfer_id = 5;
  sender = 7;
  sender_name = "desk";
  stage = downloading;
  collection_hash = "abc";
  entries = record { name = "a"; size = 10 } ∷ [];
  receive_dir = none;
  bytes_done = 0;
  bytes_total = 10;
  error = none;
}

abbrev saved : World
saved = record nothing { store = (5, saved_receive) ∷ [] }

resume_incomplete_receives-Earned_example :
    (new : List (DeviceId × SendAck)) × ((resume_incomplete_receives deaf (7 ∷ []) saved).acks
      ≡ [] ++ new)
    × Earned deaf (7 ∷ []) saved.store new
resume_incomplete_receives-Earned_example = resume_incomplete_receives-Earned deaf (7 ∷ []) saved
