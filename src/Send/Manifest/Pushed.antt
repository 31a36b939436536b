-- ===== src/Send/Manifest/Pushed.antt =====
-- manifest.rs: what a receiver holds after `push_chunk` was called with chunks of a plan, from the
-- header on.
use failsafe.Prelude.{
  ℕ, ◌≤◌, ◌≡◌, refl, ap, ◌∙◌, Bool, true, false, none, some, List, [], ◌∷◌, ◌++◌, length, ok,
}
use failsafe.Prelude.Shuffle.{Shuffle}
use failsafe.Prelude.Words.{u32_max}
use failsafe.Send.Payload.{SendPayload, SendTransferChunk, SendEnvelope}
use failsafe.Send.Manifest.{
  ChunkedTransfer, header_of, new, push_chunk, mark_end, is_complete, into_payload,
}
use failsafe.Send.Manifest.Plan.{IsPlan}
use failsafe.Send.Manifest.Receive.{receive}
use failsafe.Send.Manifest.Reassembly.{
  after_chunks, received_payload, is_complete-missing, into_payload-plan,
}

-- The chunks pushed one after the other.
abbrev pub push_each : List SendTransferChunk → ChunkedTransfer → ChunkedTransfer
push_each [] t = t
push_each (c ∷ cs) t = push_each cs (push_chunk c.chunk_index c.entries t)

push_each-receive :
    (cs : List SendTransferChunk) (t : ChunkedTransfer)
    → push_each cs t ≡ record t { chunks = receive cs t.chunks }
unfolding push_chunk receive
push_each-receive [] t = refl
push_each-receive (c ∷ cs) t = push_each-receive cs (push_chunk c.chunk_index c.entries t)

push_each-after_chunks :
    (p : SendPayload) (cs : List SendTransferChunk) (n : ℕ)
    → mark_end n (push_each cs (new (header_of p))) ≡ after_chunks p cs (some n) true
unfolding mark_end new
push_each-after_chunks p cs n = ap (mark_end n) (push_each-receive cs (new (header_of p)))

push_each-new :
    (p : SendPayload) (cs : List SendTransferChunk)
    → push_each cs (new (header_of p)) ≡ after_chunks p cs none false
unfolding new
push_each-new p cs = push_each-receive cs (new (header_of p))

module _ (fits : SendEnvelope → Bool) (p : SendPayload) (cs : List SendTransferChunk) (count : ℕ)
    (plan : IsPlan fits p.transfer_id 0 p.entries cs count)
    (small : length p.entries ≤ u32_max) where
  -- The payload that is put together from all chunks, in whatever order they came, is the one that
  -- was cut, under the protocol's version, before the end comes and after it.
  pub into_payload-push_each :
      (ds : List SendTransferChunk)
      → Shuffle cs ds
      → (into_payload (push_each ds (new (header_of p))) ≡ ok (received_payload p))
        × (into_payload (mark_end count (push_each ds (new (header_of p))))
            ≡ ok (received_payload p))
  into_payload-push_each ds s = (
    ap into_payload (push_each-new p ds)
        ∙ into_payload-plan fits p cs count plan small ds none false s tt,
    ap into_payload (push_each-after_chunks p ds count)
        ∙ into_payload-plan fits p cs count plan small ds (some count) true s refl,
  )

  -- While a chunk of a plan is missing, the transfer is not complete, before the end comes and
  -- after it.
  pub is_complete-push_each :
      (as' bs : List SendTransferChunk) (c : SendTransferChunk)
      → Shuffle cs (as' ++ c ∷ bs)
      → (is_complete (push_each as' (new (header_of p))) ≡ false)
        × (is_complete (mark_end count (push_each as' (new (header_of p)))) ≡ false)
  is_complete-push_each as' bs c s = (
    ap is_complete (push_each-new p as')
        ∙ is_complete-missing fits p cs count plan small as' bs c none false s,
    ap is_complete (push_each-after_chunks p as' count)
        ∙ is_complete-missing fits p cs count plan small as' bs c (some count) true s,
  )
