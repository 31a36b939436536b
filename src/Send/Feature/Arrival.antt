-- ===== src/Send/Feature/Arrival.antt =====
-- feature.rs of crates/failsafe-send: one chunk, or the end, of a planned transfer.
use failsafe.Prelude.{
  ℕ, suc, ◌+◌, ◌≤◌, ◌≡◌, refl, ap, ◌∙◌, sym, subst, Bool, true, false, Option, none, some, List, [],
  ◌∷◌, ◌++◌, arith, length, nat_key, ok, err, if◌then◌else◌,
}
use failsafe.Prelude.Assoc.{get, insert, remove, get-insert_self, get-remove_self}
use failsafe.Prelude.Shuffle.{Shuffle}
use failsafe.Prelude.Words.{u32_max}
use failsafe.Core.Message.{DeviceId}
use failsafe.Send.Payload.{SendPayload, SendTransferChunk, SendTransferEnd, SendEnvelope}
use failsafe.Send.Manifest.{
  ChunkedTransfer, new, header_of, push_chunk, mark_end, is_complete, into_payload,
}
use failsafe.Send.Manifest.Plan.{IsPlan}
use failsafe.Send.Manifest.Receive.{receive}
use failsafe.Send.Manifest.Reassembly.{
  after_chunks, received_payload, Announces, is_complete-missing, is_complete-all,
  into_payload-plan,
}
use failsafe.Send.Feature.{
  Chunked, spawn_transfer, spawn_timeout, unknown_end, handle_header, handle_chunk, handle_end,
}

receive-snoc :
    (as' : List SendTransferChunk) (c : SendTransferChunk) (m : _)
    → receive (as' ++ c ∷ []) m
      ≡ failsafe.Prelude.OrdMap.insert c.chunk_index c.entries (receive as' m)
unfolding receive
receive-snoc [] c m = refl
receive-snoc (a ∷ as') c m = receive-snoc as' c _

push-after :
    (p : SendPayload) (as' : List SendTransferChunk) (c : SendTransferChunk) (expected : Option ℕ)
    (ended : Bool)
    → push_chunk c.chunk_index c.entries (after_chunks p as' expected ended)
      ≡ after_chunks p (as' ++ c ∷ []) expected ended
unfolding push_chunk
push-after p as' c expected ended =
    ap (λ m. record (after_chunks p as' expected ended) { chunks = m })
      (sym (receive-snoc as' c []))

-- A chunk that leaves its transfer incomplete.
handle_chunk-incomplete :
    (from : DeviceId) (c : SendTransferChunk) (s : Chunked) (t : ChunkedTransfer)
    → get c.transfer_id s ≡ some t
    → is_complete (push_chunk c.chunk_index c.entries t) ≡ false
    → handle_chunk from c s ≡ record {
      state = insert c.transfer_id (push_chunk c.chunk_index c.entries t) s;
      result = ok tt;
      effects = [];
    }
unfolding handle_chunk
handle_chunk-incomplete from c s t e open_ =
    let at = get-insert_self c.transfer_id (push_chunk c.chunk_index c.entries t) s in
    ground (arith, e, at, open_)

-- A chunk that completes it.
handle_chunk_complete :
    (from : DeviceId) (c : SendTransferChunk) (s : Chunked) (t : ChunkedTransfer) (p : SendPayload)
    → get c.transfer_id s ≡ some t
    → is_complete (push_chunk c.chunk_index c.entries t) ≡ true
    → into_payload (push_chunk c.chunk_index c.entries t) ≡ ok p
    → handle_chunk from c s ≡ record {
      state = remove c.transfer_id (insert c.transfer_id (push_chunk c.chunk_index c.entries t) s);
      result = ok tt;
      effects = spawn_transfer from p ∷ [];
    }
unfolding handle_chunk
handle_chunk_complete from c s t p e done whole =
    let at = get-insert_self c.transfer_id (push_chunk c.chunk_index c.entries t) s in
    ground (arith, e, at, done, whole)

-- An end that comes before the last chunk.
handle_end-incomplete :
    (from : DeviceId) (x : SendTransferEnd) (s : Chunked) (t : ChunkedTransfer)
    → get x.transfer_id s ≡ some t
    → is_complete (mark_end x.chunk_count t) ≡ false
    → handle_end from x s ≡ record {
      state = insert x.transfer_id (mark_end x.chunk_count t) s;
      result = ok tt;
      effects = spawn_timeout from x.transfer_id ∷ [];
    }
unfolding handle_end
handle_end-incomplete from x s t e open_ =
    let at = get-insert_self x.transfer_id (mark_end x.chunk_count t) s in
    ground (arith, e, at, open_)

module _ (fits : SendEnvelope → Bool) (p : SendPayload) (cs : List SendTransferChunk) (count : ℕ)
    (plan : IsPlan fits p.transfer_id 0 p.entries cs count) (small : length p.entries ≤ u32_max)
    (from : DeviceId) (s : Chunked) (as' : List SendTransferChunk) (expected : Option ℕ)
    (ended : Bool) (before : get p.transfer_id s ≡ some (after_chunks p as' expected ended)) where
  module _ (c : SendTransferChunk) (here : c.transfer_id ≡ p.transfer_id) where
    -- While others are missing, a chunk is stored and nothing happens.
    pub handle_chunk-missing :
        (d : SendTransferChunk) (bs : List SendTransferChunk)
        → Shuffle cs ((as' ++ c ∷ []) ++ d ∷ bs)
        → let r = handle_chunk from c s in
          (get p.transfer_id r.state ≡ some (after_chunks p (as' ++ c ∷ []) expected ended))
          × (r.result ≡ ok tt)
          × (r.effects ≡ [])
    handle_chunk-missing d bs sh =
        let t = after_chunks p as' expected ended in
        let next = push-after p as' c expected ended in
        let open_ =
          is_complete-missing fits p cs count plan small (as' ++ c ∷ []) bs d expected ended sh in
        let r =
          handle_chunk-incomplete from c s t (cc (here, before)) (ap is_complete next ∙ open_) in
        let at = get-insert_self c.transfer_id (push_chunk c.chunk_index c.entries t) s in
        (cc (r, at, next, here), cc r, cc r)

    -- The last chunk, whichever it is, starts the transfer with the payload that was sent, and the
    -- transfer leaves the table.
    pub handle_chunk-last :
        Shuffle cs (as' ++ c ∷ [])
        → Announces count expected
        → let r = handle_chunk from c s in
          (get p.transfer_id r.state ≡ none)
          × (r.result ≡ ok tt)
          × (r.effects ≡ spawn_transfer from (received_payload p) ∷ [])
    handle_chunk-last sh h =
        let t = after_chunks p as' expected ended in
        let next = push-after p as' c expected ended in
        let all = as' ++ c ∷ [] in
        let done = is_complete-all fits p cs count plan small all expected ended sh h in
        let whole = into_payload-plan fits p cs count plan small all expected ended sh h in
        let r =
          handle_chunk_complete from c s t (received_payload p) (cc (here, before))
            (ap is_complete next ∙ done) (ap into_payload next ∙ whole) in
        let gone =
          get-remove_self c.transfer_id
            (insert c.transfer_id (push_chunk c.chunk_index c.entries t) s) in
        (cc (r, gone, here), ap (λ r. r.result) r, ap (λ r. r.effects) r)

  -- An end that overtakes chunks is noted, and the others are waited for.
  pub handle_end-missing :
      (d : SendTransferChunk) (bs : List SendTransferChunk)
      → Shuffle cs (as' ++ d ∷ bs)
      → let r = handle_end from (record { transfer_id = p.transfer_id; chunk_count = count }) s in
        (get p.transfer_id r.state ≡ some (after_chunks p as' (some count) true))
        × (r.result ≡ ok tt)
        × (r.effects ≡ spawn_timeout from p.transfer_id ∷ [])
  unfolding mark_end
  handle_end-missing d bs sh =
      let x : SendTransferEnd = record { transfer_id = p.transfer_id; chunk_count = count } in
      let t' = after_chunks p as' (some count) true in
      let open_ = is_complete-missing fits p cs count plan small as' bs d (some count) true sh in
      let r = handle_end-incomplete from x s (after_chunks p as' expected ended) before open_ in
      (
        ap (λ r. get p.transfer_id r.state) r ∙ get-insert_self p.transfer_id t' s,
        ap (λ r. r.result) r,
        ap (λ r. r.effects) r,
      )

-- An end for a transfer that is not in the table is an error and changes nothing.
pub handle_end-unknown :
    (from : DeviceId) (x : SendTransferEnd) (s : Chunked)
    → get x.transfer_id s ≡ none
    → handle_end from x s
      ≡ record { state = s; result = err (unknown_end x.transfer_id); effects = [] }
unfolding handle_end
handle_end-unknown from x s e = ground (arith, e)

-- A header starts a transfer with no chunks.
pub handle_header-new :
    (p : SendPayload) (s : Chunked)
    → get p.transfer_id (handle_header (header_of p) s).state ≡ some (after_chunks p [] none false)
unfolding handle_header new receive
handle_header-new p s = get-insert_self p.transfer_id (new (header_of p)) s
