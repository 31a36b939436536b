-- ===== src/Send/Feature/Transfers.antt =====
-- feature.rs of crates/failsafe-send: a whole planned transfer, its chunks in any order and its
-- end at any place.
use mathlib.Core.List.{append_assoc, append-nil}
use failsafe.Prelude.{
  ℕ, ◌≤◌, ◌≡◌, refl, ap, ◌∙◌, sym, subst, Bool, true, false, Option, none, some, List, [], ◌∷◌,
  ◌++◌, map, length, nat_key, ok, err,
}
use failsafe.Prelude.Assoc.{get}
use failsafe.Prelude.Shuffle.{Shuffle, All-Shuffle, All-split}
use failsafe.Prelude.Words.{u32_max}
use failsafe.Core.Message.{DeviceId, FeatureMessage, Serde}
use failsafe.Send.Payload.{
  SendPayload, SendTransferChunk, SendTransferEnd, SendEnvelope, transfer_header, transfer_chunk,
}
use failsafe.Send.Manifest.{header_of, end_of}
use failsafe.Send.Manifest.Plan.{IsPlan}
use failsafe.Send.Manifest.Reassembly.{after_chunks, received_payload, Announces}
use failsafe.Send.Feature.{
  State, spawn_transfer, spawn_timeout, unknown_end, handle_header, handle_chunk, handle_envelope,
  run, Carries,
}
use failsafe.Send.Feature.Arrival.{
  handle_chunk-missing, handle_chunk-last, handle_end-missing, handle_end-unknown,
  handle_header-new,
}
use failsafe.Send.Feature.Leads.{
  run-Carries, Leads, run_envelopes, Leads-append, Leads-one, OfTransfer, Numbered-OfTransfer,
  arriving, all_ok,
}

module _ (fits : SendEnvelope → Bool) (p : SendPayload) (cs : List SendTransferChunk) (count : ℕ)
    (plan : IsPlan fits p.transfer_id 0 p.entries cs count) (small : length p.entries ≤ u32_max)
    (from : DeviceId) (expected : Option ℕ) (ended : Bool) where
  -- Chunks after which one is still missing.
  run_missing :
      (bs : List SendTransferChunk) (as' : List SendTransferChunk) (s : State)
      (d : SendTransferChunk) (rest : List SendTransferChunk)
      → get p.transfer_id s.pending_chunked ≡ some (after_chunks p as' expected ended)
      → OfTransfer p.transfer_id bs
      → Shuffle cs ((as' ++ bs) ++ d ∷ rest)
      → Leads p.transfer_id
          (run_envelopes from (map transfer_chunk bs) s)
          (some (after_chunks p (as' ++ bs) expected ended))
          (all_ok bs)
          []
  unfolding run_envelopes handle_envelope
  run_missing [] as' s d rest before h sh = record {
    entry = before ∙ ap (λ x. some (after_chunks p x expected ended)) (sym (append-nil as'));
    results = refl;
    effects = refl;
  }
  run_missing (b ∷ []) as' s d rest before h sh =
      let r =
        handle_chunk-missing fits p cs count plan small from s.pending_chunked as' expected ended
          before b h.0 d rest sh in
      record { entry = r.0; results = cc (r.1); effects = cc (r.2) }
  run_missing (b ∷ c ∷ bs) as' s d rest before h sh =
      let e1 : (as' ++ b ∷ c ∷ bs) ++ d ∷ rest ≡ (as' ++ b ∷ []) ++ c ∷ (bs ++ d ∷ rest) =
        simp append_assoc in
      let e2 : (as' ++ b ∷ c ∷ bs) ++ d ∷ rest ≡ ((as' ++ b ∷ []) ++ c ∷ bs) ++ d ∷ rest =
        simp append_assoc in
      let e3 : (as' ++ b ∷ []) ++ c ∷ bs ≡ as' ++ b ∷ c ∷ bs = append_assoc as' (b ∷ []) (c ∷ bs) in
      let r =
        handle_chunk-missing fits p cs count plan small from s.pending_chunked as' expected ended
          before b h.0 c (bs ++ d ∷ rest) (subst (Shuffle cs) e1 sh) in
      let s' : State = record s {
        pending_chunked = (handle_chunk from b s.pending_chunked).state;
      } in
      let next =
        run_missing (c ∷ bs) (as' ++ b ∷ []) s' d rest r.0 h.1 (subst (Shuffle cs) e2 sh) in
      record {
        entry = next.entry ∙ ap (λ x. some (after_chunks p x expected ended)) e3;
        results = cc (r.1, next.results);
        effects = cc (r.2, next.effects);
      }

  -- All the chunks that are missing.
  run_rest :
      (bs : List SendTransferChunk) (b : SendTransferChunk) (as' : List SendTransferChunk)
      (s : State)
      → get p.transfer_id s.pending_chunked ≡ some (after_chunks p as' expected ended)
      → OfTransfer p.transfer_id (b ∷ bs)
      → Announces count expected
      → Shuffle cs (as' ++ b ∷ bs)
      → Leads p.transfer_id
          (run_envelopes from (map transfer_chunk (b ∷ bs)) s)
          none
          (all_ok (b ∷ bs))
          (spawn_transfer from (received_payload p) ∷ [])
  unfolding run_envelopes handle_envelope
  run_rest [] b as' s before h an sh =
      let r =
        handle_chunk-last fits p cs count plan small from s.pending_chunked as' expected ended
          before b h.0 sh an in
      record { entry = r.0; results = cc (r.1); effects = cc (r.2) }
  run_rest (d ∷ bs) b as' s before h an sh =
      let sh' = subst (Shuffle cs) (sym (append_assoc as' (b ∷ []) (d ∷ bs))) sh in
      let r =
        handle_chunk-missing fits p cs count plan small from s.pending_chunked as' expected ended
          before b h.0 d bs sh' in
      let s' : State = record s {
        pending_chunked = (handle_chunk from b s.pending_chunked).state;
      } in
      let next = run_rest bs d (as' ++ b ∷ []) s' r.0 h.1 an sh' in
      record {
        entry = next.entry;
        results = cc (r.1, next.results);
        effects = cc (r.2, next.effects);
      }

module _ (json : Serde SendEnvelope) (fits : SendEnvelope → Bool) (p : SendPayload)
    (cs : List SendTransferChunk) (count : ℕ)
    (plan : IsPlan fits p.transfer_id 0 p.entries cs count) (small : length p.entries ≤ u32_max)
    (from : DeviceId) (ms : List FeatureMessage) (s : State) where
  header_Leads :
      Leads p.transfer_id
        (run_envelopes from (transfer_header (header_of p) ∷ []) s)
        (some (after_chunks p [] none false))
        (ok tt ∷ [])
        []
  unfolding handle_envelope handle_header
  header_Leads =
      Leads-one from p.transfer_id s (transfer_header (header_of p))
        (handle_header-new p s.pending_chunked) refl refl

  -- A chunked transfer whose end comes last: whatever the order of its chunks and whatever else is
  -- pending, its handler is started once, by the last chunk, with the payload that was sent. The
  -- transfer is then unknown, so that its own end is answered by an error.
  pub run-chunks-end :
      (d : SendTransferChunk) (ds : List SendTransferChunk)
      → Shuffle cs (d ∷ ds)
      → Carries json from (arriving p count (d ∷ ds) []) ms
      → let r = run json ms s in
        (get p.transfer_id r.0.pending_chunked ≡ none)
        × (r.1 ≡ ok tt ∷ (all_ok (d ∷ ds) ++ err (unknown_end p.transfer_id) ∷ []))
        × (r.2 ≡ spawn_transfer from (received_payload p) ∷ [])
  unfolding handle_envelope
  run-chunks-end d ds sh carried =
      let t = p.transfer_id in
      let header : List SendEnvelope = transfer_header (header_of p) ∷ [] in
      let chunks = map transfer_chunk (d ∷ ds) in
      let own = All-Shuffle _ sh (Numbered-OfTransfer t 0 cs plan.numbered) in
      let s1 = (run_envelopes from header s).0 in
      let all =
        run_rest fits p cs count plan small from none false ds d [] s1 header_Leads.entry own tt
          sh in
      let s2 = (run_envelopes from chunks s1).0 in
      let x : SendTransferEnd = record { transfer_id = t; chunk_count = count } in
      let late = handle_end-unknown from x s2.pending_chunked all.entry in
      let last =
        Leads-one from t s2 (end_of t count) (ap (λ r. get t r.state) late ∙ all.entry)
          (ap (λ r. r.result) late) (ap (λ r. r.effects) late) in
      let r =
        Leads-append from t s header (chunks ++ end_of t count ∷ []) header_Leads
          (Leads-append from t s1 chunks (end_of t count ∷ []) all last) in
      let whole = run-Carries json from (header ++ (chunks ++ end_of t count ∷ [])) ms s carried in
      (cc (whole, r.entry), cc (whole, r.results), cc (whole, r.effects))

  -- A chunked transfer whose end overtakes at least one chunk: the handler is started once, by the
  -- last chunk, with the payload that was sent, no message is answered by an error, and the only
  -- other effect is the wait for the chunks that the end overtook.
  pub run-end-overtakes :
      (as' bs : List SendTransferChunk) (b : SendTransferChunk)
      → Shuffle cs (as' ++ b ∷ bs)
      → Carries json from (arriving p count as' (b ∷ bs)) ms
      → let r = run json ms s in
        (get p.transfer_id r.0.pending_chunked ≡ none)
        × (r.1 ≡ ok tt ∷ (all_ok as' ++ ok tt ∷ all_ok (b ∷ bs)))
        × (r.2 ≡ spawn_timeout from p.transfer_id ∷ spawn_transfer from (received_payload p) ∷ [])
  unfolding handle_envelope
  run-end-overtakes as' bs b sh carried =
      let t = p.transfer_id in
      let header : List SendEnvelope = transfer_header (header_of p) ∷ [] in
      let early = map transfer_chunk as' in
      let end : List SendEnvelope = end_of t count ∷ [] in
      let rest = map transfer_chunk (b ∷ bs) in
      let own = All-Shuffle _ sh (Numbered-OfTransfer t 0 cs plan.numbered) in
      let halves = All-split _ as' (b ∷ bs) own in
      let s1 = (run_envelopes from header s).0 in
      let first =
        run_missing fits p cs count plan small from none false as' [] s1 b bs header_Leads.entry
          halves.0 sh in
      let s2 = (run_envelopes from early s1).0 in
      let noted =
        handle_end-missing fits p cs count plan small from s2.pending_chunked as' none false
          first.entry b bs sh in
      let second = Leads-one from t s2 (end_of t count) noted.0 noted.1 noted.2 in
      let s3 = (run_envelopes from end s2).0 in
      let last =
        run_rest fits p cs count plan small from (some count) true bs b as' s3 second.entry halves.1
          refl sh in
      let r = Leads-append from t s header (early ++ (end ++ rest)) header_Leads (
        Leads-append from t s1 early (end ++ rest) first
          (Leads-append from t s2 end rest second last)) in
      let whole = run-Carries json from (header ++ (early ++ (end ++ rest))) ms s carried in
      (cc (whole, r.entry), cc (whole, r.results), cc (whole, r.effects))
