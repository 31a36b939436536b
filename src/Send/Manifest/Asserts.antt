-- ===== src/Send/Manifest/Asserts.antt =====
-- manifest.rs, `plan_transfer_envelopes`: the assertion that a debug build evaluates.
use failsafe.Prelude.{
  ℕ, zero, suc, ◌≡◌, refl, Bool, true, ◌&&◌, none, some, List, [], ◌∷◌, length, take, drop, min,
  nat_beq, if◌then◌else◌,
}
use failsafe.Prelude.Words.{u32_max, saturating_add}
use failsafe.Send.Payload.{Uuid, FileEntry, SendPayload, SendEnvelope, transfer, transfer_chunk}
use failsafe.Send.Manifest.{initial_chunk_entries, new_chunk, halve, chunk_len_of}

module _ (fits : SendEnvelope → Bool) (transfer_id : Uuid) where
  -- `debug_assert!` in a turn of the outer loop: a chunk of one entry that is sent because none of the
  -- lengths fitted is asserted to fit.
  unfoldable pub turn_asserts : ℕ → List FileEntry → Bool
  turn_asserts chunk_index entries =
      let start = min initial_chunk_entries (length entries) in
      elim (halve fits transfer_id (suc start) start chunk_index entries) [
        | none ↦ true
        | some chunk_len ↦
            if nat_beq chunk_len 0
            then fits (transfer_chunk (new_chunk transfer_id chunk_index (take 1 entries)))
            else true
      ]

  -- Whether the assertions of all turns hold. A debug build panics if not, a release build does not
  -- evaluate them.
  unfoldable pub asserts_hold : ℕ → ℕ → List FileEntry → Bool
  asserts_hold fuel chunk_index [] = true
  asserts_hold zero chunk_index (entry ∷ entries) = true
  asserts_hold (suc fuel) chunk_index (entry ∷ entries) =
      let left = entry ∷ entries in
      elim (chunk_len_of fits transfer_id chunk_index left) [
        | none ↦ true
        | some chunk_len ↦
            turn_asserts chunk_index left
            && asserts_hold fuel (saturating_add u32_max chunk_index 1) (drop chunk_len left)
      ]

  pub asserts_hold-suc :
      (fuel i : ℕ) (x : FileEntry) (xs : List FileEntry) (len : ℕ)
      → chunk_len_of fits transfer_id i (x ∷ xs) ≡ some len
      → asserts_hold (suc fuel) i (x ∷ xs) ≡ (
          turn_asserts i (x ∷ xs)
          && asserts_hold fuel (saturating_add u32_max i 1) (drop len (x ∷ xs)))
  unfolding asserts_hold
  asserts_hold-suc fuel i x xs len found = rw (found, asserts_hold) refl

-- Whether a debug build plans without a panic, and then it plans the same.
unfoldable pub plan_asserts : (SendEnvelope → Bool) → SendPayload → Bool
plan_asserts fits payload =
    if fits (transfer payload)
    then true
    else asserts_hold fits payload.transfer_id (length payload.entries) 0 payload.entries
