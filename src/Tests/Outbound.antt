-- ===== src/Tests/Outbound.antt =====
-- Sends at concrete requests.
use failsafe.Prelude.{
  ◌≡◌, refl, true, false, String, none, some, List, [], ◌∷◌, ok, ◌⊎◌, string_key, nat_key, arith,
}
use failsafe.Prelude.Assoc.{get, contains}
use failsafe.Core.Peer.{is_feature_enabled}
use failsafe.Clipboard.Limits.{validate_entries, sum_entries}
use failsafe.Prelude.Stateful.{◌>>=◌, ◌>>◌, lift}
use failsafe.Send.Payload.{SendPayload, send_payload_version}
use failsafe.Send.SavedSends.{save_send_state, waiting_ack, SendTransferState, SendDisk, Outbox}
use failsafe.Send.Outbound.{
  SendEnv, prepare_send_payload, load_or_init_send_state, payload_of, mark_send_failed,
}
use failsafe.Send.Outbound.Resumed.{IsCalm, prepare_send_payload-resumed}
use failsafe.Send.Outbound.Sound.{Sound}
use failsafe.Send.Control.{
  SendFilesRequest, ControlContext, validate_preconditions, WaitEvent, ack_arrives, Wire,
  handle_send_files, send_complete, send_failed,
}
use failsafe.Send.Control.Outcome.{IsComplete, with_waiter, handle_send_files-Ends}
use failsafe.Send.Control.Completes.{handle_send_files-completes}
use failsafe.Send.Control.Saved.{handle_send_files-Sound}

abbrev disk : SendDisk
disk = record {
  save_error = λ st. none;
  read_error = λ i. none;
  remove_error = λ i. none;
  list_error = none;
}

abbrev env : SendEnv
env = record {
  limits = record { max_file_bytes = 1000; max_total_bytes = 2000 };
  describe = λ e. "too large";
  disk = disk;
  sources_of = λ paths. ok (("note", "/note") ∷ []);
  file_len = λ path. some 12;
  is_stored = λ hash total. ok true;
  import_sources = λ sources. ok ("hash", record { name = "note"; size = 12 } ∷ []);
  cancelled = λ p. false;
  device_name = "laptop";
}

calm : IsCalm env
calm = record { saves = λ st. refl; reads = λ i. refl; goes_on = λ p. refl }

abbrev saved_state : SendTransferState
saved_state = record {
  transfer_id = 7;
  target = 2;
  paths = [];
  stage = waiting_ack;
  collection_hash = some "hash";
  entries = record { name = "note"; size = 12 } ∷ [];
  bytes_done = 12;
  bytes_total = 12;
  error = none;
}

abbrev outbox : Outbox
outbox = record { saved = (7, saved_state) ∷ []; pending = []; notices = []; sent = [] }

prepare_send_payload-resumed_example :
    let o' = (mark_send_failed env 7 "timed out" outbox).0 in
    (prepare_send_payload env [] 2 7 true o').1 ≡ ok (payload_of env 7 saved_state "hash")
unfolding get validate_entries sum_entries
prepare_send_payload-resumed_example =
    prepare_send_payload-resumed env calm 7 [] 2 "timed out" saved_state "hash" outbox refl refl
      refl refl refl

abbrev wire : Wire
wire = record { fits = λ e. true; send_error = λ target e. none }

abbrev context : ControlContext
context = record {
  local_features = "file_send" ∷ [];
  peers = record { peers = 2 ∷ []; disabled = [] };
  connected = 2 ∷ [];
  text = λ d. "two";
}

abbrev request : SendFilesRequest
request = record {
  target = 2;
  paths = record { local = "/note"; label = "note" } ∷ [];
  transfer_id = 9;
  resume = false;
}

abbrev arrivals : List WaitEvent
arrivals = ack_arrives (ok tt) ∷ []

handle_send_files-Ends_example :
    let r = handle_send_files env wire context request false 1 arrivals outbox in
    ((r.events ≡ send_complete 9 ∷ [])
      × (false ≡ false)
      × IsComplete env wire request arrivals (with_waiter env wire request 1 outbox) r.outbox)
    ⊎ ((message : String) × (r.events ≡ send_failed message ∷ []))
unfolding validate_preconditions contains is_feature_enabled
handle_send_files-Ends_example =
    handle_send_files-Ends env wire context request 1 arrivals outbox refl

handle_send_files-Sound_example :
    Sound env (handle_send_files env wire context request false 1 arrivals outbox).outbox
handle_send_files-Sound_example =
    handle_send_files-Sound env wire context request false 1 arrivals outbox
      ((("hash", refl), (("note", "/note") ∷ [], refl, refl)), tt)

abbrev new_payload : SendPayload
new_payload = record {
  version = send_payload_version;
  transfer_id = 9;
  sender_name = "laptop";
  collection_hash = "hash";
  entries = record { name = "note"; size = 12 } ∷ [];
}

handle_send_files-completes_example :
    (handle_send_files env wire context request false 1 arrivals outbox).events
    ≡ send_complete 9 ∷ []
unfolding validate_preconditions contains is_feature_enabled prepare_send_payload
    load_or_init_send_state save_send_state validate_entries sum_entries ◌>>=◌ ◌>>◌ lift
handle_send_files-completes_example =
    handle_send_files-completes env wire context request 1 arrivals outbox new_payload refl
      (λ p. refl) refl (omega arith) (λ e. refl) tt
