-- ===== src/Send/Manifest/Reassembly.antt =====
-- manifest.rs: the chunks of a plan on the side of the receiver.
use failsafe.Prelude.{
  ℕ, suc, ◌+◌, ◌≤◌, ◌<◌, ◌≡◌, refl, ap, ◌∙◌, Bool, true, false, Option, none, some, List, [], ◌∷◌,
  ◌++◌, arith, length, All, length-append, ok,
}
use failsafe.Prelude.OrdMap
use failsafe.Prelude.Shuffle.{Shuffle, nil, put, All-Shuffle}
use failsafe.Prelude.Words.{u32_max}
use failsafe.Send.Payload.{SendPayload, SendTransferChunk, SendEnvelope, send_payload_version}
use failsafe.Send.Manifest.{ChunkedTransfer, header_of, sort, gather, is_complete, into_payload}
use failsafe.Send.Manifest.Plan.{all_entries, Numbered, IsPlan}
use failsafe.Send.Manifest.Receive.{
  receive, receive-Shuffle, gather-sort, sum_lengths-table, length-table, sum_lengths-receive,
}

-- The receiver after these chunks of the payload, with or without the end's count.
abbrev pub after_chunks : SendPayload → List SendTransferChunk → Option ℕ → Bool → ChunkedTransfer
after_chunks p ds expected ended = record {
  header = header_of p;
  chunks = receive ds [];
  end_received = ended;
  expected_chunk_count = expected;
}

-- The payload as the receiver gets it: under the version of the protocol.
abbrev pub received_payload : SendPayload → SendPayload
received_payload p = record p { version = send_payload_version }

-- The count that the end announced, if it came, is the plan's.
abbrev pub Announces : ℕ → Option ℕ → Type 0
Announces count none = Unit {0}
Announces count (some n) = n ≡ count

all_entries-append :
    (as' bs : List SendTransferChunk)
    → length (all_entries (as' ++ bs)) ≡ length (all_entries as') + length (all_entries bs)
all_entries-append [] bs = omega arith
all_entries-append (a ∷ as') bs = omega (
  arith,
  all_entries-append as' bs,
  length-append a.entries (all_entries (as' ++ bs)),
  length-append a.entries (all_entries as'),
)

all_entries-middle :
    (a : SendTransferChunk) (as' bs : List SendTransferChunk)
    → length (all_entries (as' ++ a ∷ bs)) ≡ length (all_entries (as' ++ bs)) + length a.entries
all_entries-middle a as' bs = omega (
  arith,
  all_entries-append as' bs,
  all_entries-append as' (a ∷ bs),
  length-append a.entries (all_entries bs),
)

all_entries-Shuffle :
    {cs ds : List SendTransferChunk}
    → Shuffle cs ds
    → length (all_entries ds) ≡ length (all_entries cs)
all_entries-Shuffle nil = refl
all_entries-Shuffle (put {x = c} {xs = cs} as' bs e s) = omega (
  arith,
  ap (λ ds. length (all_entries ds)) e,
  all_entries-middle c as' bs,
  all_entries-Shuffle s,
  length-append c.entries (all_entries cs),
)

Numbered-positive :
    (t i : ℕ) (cs : List SendTransferChunk) → Numbered t i cs → All (λ c. 0 < length c.entries) cs
Numbered-positive t i [] n = tt
Numbered-positive t i (c ∷ cs) n = (n.2, Numbered-positive t (suc i) cs n.3)

positive-length :
    (c : SendTransferChunk) (as' bs : List SendTransferChunk)
    → All (λ (c : SendTransferChunk). 0 < length c.entries) (as' ++ c ∷ bs)
    → 0 < length c.entries
positive-length c [] bs h = h.0
positive-length c (a ∷ as') bs h = positive-length c as' bs h.1

module _ (fits : SendEnvelope → Bool) (p : SendPayload) (cs : List SendTransferChunk) (count : ℕ)
    (plan : IsPlan fits p.transfer_id 0 p.entries cs count)
    (small : length p.entries ≤ u32_max) where
  -- While a chunk is missing, the transfer is not complete, whether or not the end has come.
  pub is_complete-missing :
      (as' bs : List SendTransferChunk) (c : SendTransferChunk) (expected : Option ℕ) (ended : Bool)
      → Shuffle cs (as' ++ c ∷ bs)
      → is_complete (after_chunks p as' expected ended) ≡ false
  unfolding is_complete
  is_complete-missing as' bs c expected ended s =
      let pos =
        positive-length c as' bs
          (All-Shuffle _ s (Numbered-positive p.transfer_id 0 cs plan.numbered)) in
      let total = all_entries-Shuffle s in
      ground (
        arith,
        pos,
        total,
        sum_lengths-receive as' [],
        all_entries-middle c as' bs,
        all_entries-append as' bs,
        ap length plan.covers,
      )

  -- With all chunks, in any order, the transfer is complete, before the end and after it.
  pub is_complete-all :
      (ds : List SendTransferChunk) (expected : Option ℕ) (ended : Bool)
      → Shuffle cs ds
      → Announces count expected
      → is_complete (after_chunks p ds expected ended) ≡ true
  unfolding is_complete
  is_complete-all ds none ended s h =
      rw (receive-Shuffle p.transfer_id 0 s plan.numbered)
        (ground (arith, sum_lengths-table cs, length-table cs, ap length plan.covers, plan.counted))
  is_complete-all ds (some n) ended s h =
      rw (receive-Shuffle p.transfer_id 0 s plan.numbered)
        (ground (arith, sum_lengths-table cs, length-table cs, ap length plan.covers, plan.counted))

  -- The payload that is put together from all chunks, in whatever order they came, is the one that
  -- was cut, under the protocol's version.
  pub into_payload-plan :
      (ds : List SendTransferChunk) (expected : Option ℕ) (ended : Bool)
      → Shuffle cs ds
      → Announces count expected
      → into_payload (after_chunks p ds expected ended) ≡ ok (received_payload p)
  unfolding into_payload
  into_payload-plan ds expected ended s h =
      let done = is_complete-all ds expected ended s h in
      let m = receive-Shuffle p.transfer_id 0 s plan.numbered in
      let entries : gather (receive ds []) (sort (OrdMap.keys (receive ds []))) ≡ p.entries =
        ap (λ m. gather m (sort (OrdMap.keys m))) m
        ∙ gather-sort p.transfer_id 0 cs plan.numbered
        ∙ plan.covers in
      rw (entries, into_payload) (ground (arith, done))
