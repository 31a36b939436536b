-- ===== src/Tests/Transfers.antt =====
-- Chunked transfers of Send at a concrete payload.
use failsafe.Prelude.{
  ℕ, ◌≡◌, inl, nat_key, refl, Bool, true, none, some, List, [], ◌∷◌, arith, length, ltb, ok, err,
}
use failsafe.Prelude.Shuffle.{Shuffle, nil, put}
use failsafe.Core.Message.{FeatureMessage}
use failsafe.Send.Payload.{
  FileEntry, SendPayload, SendTransferChunk, SendEnvelope, transfer, transfer_chunk,
}
use failsafe.Send.Manifest.{
  plan_chunks, chunk_len_of, halve, into_payload, new_chunk, new, header_of, mark_end,
}
use failsafe.Send.Manifest.Plan.{IsPlan}
use failsafe.Send.Manifest.Reassembly.{received_payload}
use failsafe.Send.Manifest.Pushed.{push_each, into_payload-push_each}
use failsafe.Send.Feature.{State, run, spawn_transfer, spawn_timeout, unknown_end}
use failsafe.Send.Feature.Transfers.{run-chunks-end, run-end-overtakes}
use failsafe.Send.Coordinator.{Pending}
use failsafe.Send.Coordinator.Delivery.{Call, registers, completes}
use failsafe.Prelude.Assoc.{get}
use failsafe.Tests.Json.{envelope_json}

abbrev file : ℕ → FileEntry
file size = record { name = "a"; size = size }

abbrev payload : SendPayload
payload = record {
  version = 1;
  transfer_id = 5;
  sender_name = "a";
  collection_hash = "a";
  entries = file 10 ∷ file 20 ∷ file 30 ∷ [];
}

-- A limit of two entries for each chunk.
abbrev two_fit : SendEnvelope → Bool
two_fit (transfer p) = ltb (length p.entries) 3
two_fit (transfer_chunk c) = ltb (length c.entries) 2
two_fit _ = true

abbrev chunks : List SendTransferChunk
chunks =
    new_chunk 5 0 (file 10 ∷ []) ∷ new_chunk 5 1 (file 20 ∷ []) ∷ new_chunk 5 2 (file 30 ∷ []) ∷ []

chunks_planned : plan_chunks two_fit 5 3 0 payload.entries ≡ some (chunks, 3)
unfolding plan_chunks chunk_len_of halve
chunks_planned = refl

abbrev first_chunk : SendTransferChunk
first_chunk = new_chunk 5 0 (file 10 ∷ [])

abbrev second_chunk : SendTransferChunk
second_chunk = new_chunk 5 1 (file 20 ∷ [])

abbrev third_chunk : SendTransferChunk
third_chunk = new_chunk 5 2 (file 30 ∷ [])

chunks-IsPlan : IsPlan two_fit 5 0 payload.entries chunks 3
chunks-IsPlan = record {
  covers = refl;
  numbered = (refl, refl, omega arith, (refl, refl, omega arith, (refl, refl, omega arith, tt)));
  small = (inl refl, (inl refl, (inl refl, tt)));
  counted = omega arith;
}

abbrev shuffled : List SendTransferChunk
shuffled = third_chunk ∷ first_chunk ∷ second_chunk ∷ []

chunks-shuffled : Shuffle chunks shuffled
chunks-shuffled =
    put (third_chunk ∷ []) (second_chunk ∷ []) refl
      (put (third_chunk ∷ []) [] refl (put [] [] refl nil))

into_payload-push_each_example :
    (into_payload (push_each shuffled (new (header_of payload))) ≡ ok (received_payload payload))
    × (into_payload (mark_end 3 (push_each shuffled (new (header_of payload))))
        ≡ ok (received_payload payload))
into_payload-push_each_example =
    into_payload-push_each two_fit payload chunks 3 chunks-IsPlan (omega arith) shuffled
      chunks-shuffled

abbrev idle : State
idle = record { pending_chunked = []; waiters = [] }

abbrev message : List ℕ → FeatureMessage
message bytes = record { version = 1; from = 7; to = 9; feature = "file_send"; payload = bytes }

abbrev end_last : List FeatureMessage
end_last =
    message (0 ∷ 1 ∷ 5 ∷ 60 ∷ 3 ∷ [])
    ∷ message (1 ∷ 5 ∷ 2 ∷ 30 ∷ [])
    ∷ message (1 ∷ 5 ∷ 0 ∷ 10 ∷ [])
    ∷ message (1 ∷ 5 ∷ 1 ∷ 20 ∷ [])
    ∷ message (2 ∷ 5 ∷ 3 ∷ [])
    ∷ []

run-chunks-end_example :
    let r = run envelope_json end_last idle in
    (get 5 r.0.pending_chunked ≡ none)
    × (r.1 ≡ ok tt ∷ ok tt ∷ ok tt ∷ ok tt ∷ err (unknown_end 5) ∷ [])
    × (r.2 ≡ spawn_transfer 7 (received_payload payload) ∷ [])
run-chunks-end_example =
    run-chunks-end envelope_json two_fit payload chunks 3 chunks-IsPlan (omega arith) 7 end_last
      idle third_chunk (first_chunk ∷ second_chunk ∷ []) chunks-shuffled
      (refl, refl, (refl, refl, (refl, refl, (refl, refl, (refl, refl, tt)))))

abbrev end_early : List FeatureMessage
end_early =
    message (0 ∷ 1 ∷ 5 ∷ 60 ∷ 3 ∷ [])
    ∷ message (1 ∷ 5 ∷ 2 ∷ 30 ∷ [])
    ∷ message (2 ∷ 5 ∷ 3 ∷ [])
    ∷ message (1 ∷ 5 ∷ 0 ∷ 10 ∷ [])
    ∷ message (1 ∷ 5 ∷ 1 ∷ 20 ∷ [])
    ∷ []

run-end-overtakes_example :
    let r = run envelope_json end_early idle in
    (get 5 r.0.pending_chunked ≡ none)
    × (r.1 ≡ ok tt ∷ ok tt ∷ ok tt ∷ ok tt ∷ ok tt ∷ [])
    × (r.2 ≡ spawn_timeout 7 5 ∷ spawn_transfer 7 (received_payload payload) ∷ [])
run-end-overtakes_example =
    run-end-overtakes envelope_json two_fit payload chunks 3 chunks-IsPlan (omega arith) 7 end_early
      idle (third_chunk ∷ []) (second_chunk ∷ []) first_chunk chunks-shuffled
      (refl, refl, (refl, refl, (refl, refl, (refl, refl, (refl, refl, tt)))))

abbrev waiting : Pending
waiting = (5, 1) ∷ (6, 2) ∷ []

abbrev history : List Call
history = completes 6 (ok tt) ∷ registers 5 1 ∷ registers 6 2 ∷ []
