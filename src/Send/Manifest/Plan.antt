-- ===== src/Send/Manifest/Plan.antt =====
-- manifest.rs, `plan_transfer_envelopes`: the chunks of a plan.
use failsafe.Prelude.{
  ℕ, zero, suc, ◌+◌, ◌-◌, ◌/◌, ◌≤◌, ◌<◌, ◌≡◌, refl, sym, ap, ◌&&◌, ◌∙◌, ◌⊎◌, inl, inr, Bool, true,
  false, some, List, [], ◌∷◌, ◌++◌, map, arith, length, take, drop, min, nat_beq, Bool-cases,
  length-take, length-drop, take-append-drop,
}
use failsafe.Prelude.Words.{u32_max, saturating_add}
use failsafe.Send.Payload.{
  Uuid, FileEntry, SendPayload, SendTransferChunk, SendEnvelope, transfer, transfer_header,
  transfer_chunk,
}
use failsafe.Send.Manifest.{
  initial_chunk_entries, new_chunk, halve, chunk_len_of, plan_chunks, plan_transfer_envelopes,
  header_of, end_of,
}
use failsafe.Send.Manifest.Asserts.{turn_asserts, asserts_hold, asserts_hold-suc, plan_asserts}

-- The entries of the chunks, in their order.
abbrev pub all_entries : List SendTransferChunk → List FileEntry
all_entries [] = []
all_entries (c ∷ cs) = c.entries ++ all_entries cs

-- Chunks of one transfer, numbered from `i`, none of them empty.
abbrev pub Numbered : Uuid → ℕ → List SendTransferChunk → Type 0
Numbered t i [] = Unit {0}
Numbered t i (c ∷ cs) =
    (c.transfer_id ≡ t) × (c.chunk_index ≡ i) × (0 < length c.entries) × Numbered t (suc i) cs

module _ (fits : SendEnvelope → Bool) where
  -- A chunk fits one message, or cannot be cut further.
  abbrev pub Small : List SendTransferChunk → Type 0
  Small [] = Unit {0}
  Small (c ∷ cs) = ((fits (transfer_chunk c) ≡ true) ⊎ (length c.entries ≡ 1)) × Small cs

  -- All chunks fit one message.
  abbrev pub all_fit : List SendTransferChunk → Bool
  all_fit [] = true
  all_fit (c ∷ cs) = fits (transfer_chunk c) && all_fit cs

  module _ (t : Uuid) where
    halve_total :
        (fuel n i : ℕ) (es : List FileEntry)
        → n < fuel
        → (m : ℕ) × (halve fits t fuel n i es ≡ some m)
          × (m ≤ n)
          × ((m ≡ 0) ⊎ (fits (transfer_chunk (new_chunk t i (take m es))) ≡ true))
    unfolding halve
    halve_total zero n i es h = absurd (omega arith)
    halve_total (suc fuel) n i es h = elim (Bool-cases (nat_beq n 0)) [
      | inl stop ↦ (0, rw stop, omega arith, inl refl)
      | inr go ↦ elim (Bool-cases (fits (transfer_chunk (new_chunk t i (take n es))))) [
        | inl good ↦ (n, rw (go, good), omega arith, inr good)
        | inr bad ↦
            let (m, e, le, why) = halve_total fuel (n / 2) i es (ground arith) in
            (m, rw (go, bad) e, omega arith, why)
      ]
    ]

    -- The length of the next chunk.
    record NextLen (i : ℕ) (es : List FileEntry) : Type 0 where
      len : ℕ
      found : chunk_len_of fits t i es ≡ some len
      positive : 0 < len
      within : len ≤ length es
      small :
          (fits (transfer_chunk (new_chunk t i (take len es))) ≡ true) ⊎ (length (take len es) ≡ 1)
      asserts : turn_asserts fits t i es ≡ fits (transfer_chunk (new_chunk t i (take len es)))

    chunk_len_of_total : (i : ℕ) (es : List FileEntry) → 0 < length es → NextLen i es
    unfolding chunk_len_of turn_asserts
    chunk_len_of_total i es h =
        let start = min initial_chunk_entries (length es) in
        let (m, e, le, why) = halve_total (suc start) start i es (omega arith) in
        elim why [
          | inl none_fits ↦ record {
            len = 1;
            found = ground (arith, e, none_fits);
            positive = omega arith;
            within = h;
            small = inr (length-take 1 es h);
            asserts = rw (e, turn_asserts) (rw none_fits refl);
          }
          | inr good ↦ elim (Bool-cases (nat_beq m 0)) [
            | inl z ↦ record {
              len = 1;
              found = ground (arith, e, z);
              positive = omega arith;
              within = h;
              small = inr (length-take 1 es h);
              asserts = rw (e, turn_asserts) (rw z refl);
            }
            | inr nz ↦ record {
              len = m;
              found = ground (arith, e, nz);
              positive = ground arith;
              within = omega arith;
              small = inl good;
              asserts = rw (e, turn_asserts) (rw nz (sym good));
            }
          ]
        ]

    -- What the planner returns for the entries `es`, from the chunk number `i` on.
    pub record IsPlan (i : ℕ) (es : List FileEntry) (cs : List SendTransferChunk) (count : ℕ)
        : Type 0 where
      pub covers : all_entries cs ≡ es
      pub numbered : Numbered t i cs
      pub small : Small cs
      pub counted : count ≡ i + length cs

    pub plan_chunks_total :
        (fuel i : ℕ) (es : List FileEntry)
        → length es ≤ fuel
        → i + length es ≤ u32_max
        → (cs : List SendTransferChunk) × (count : ℕ) × (plan_chunks fits t fuel i es
            ≡ some (cs, count))
          × IsPlan i es cs count
          × (asserts_hold fits t fuel i es ≡ all_fit cs)
    unfolding plan_chunks asserts_hold
    plan_chunks_total fuel i [] h room = (
      [],
      i,
      refl,
      record { covers = refl; numbered = tt; small = tt; counted = omega arith },
      refl,
    )
    plan_chunks_total zero i (x ∷ xs) h room = absurd (omega arith)
    plan_chunks_total (suc fuel) i (x ∷ xs) h room =
        let es = x ∷ xs in
        let l = chunk_len_of_total i es (omega arith) in
        let shorter : length (drop l.len es) ≡ length es - l.len = length-drop l.len es in
        let (cs, count, e, plan, asserts) =
          plan_chunks_total fuel (suc i) (drop l.len es) (let p = l.positive in omega arith)
            (let p = l.positive in omega arith) in
        let next : saturating_add u32_max i 1 ≡ suc i = omega arith in
        let full = length-take l.len es l.within in
        (
          new_chunk t i (take l.len es) ∷ cs,
          count,
          ground (arith, l.found, next, e),
          record {
            covers = ap (λ r. take l.len es ++ r) plan.covers ∙ take-append-drop l.len es;
            numbered = (refl, refl, (let p = l.positive in omega arith), plan.numbered);
            small = (l.small, plan.small);
            counted = (let c = plan.counted in omega arith);
          },
          asserts_hold-suc fits t fuel i x xs l.len l.found
              ∙ rw next (rw l.asserts (rw asserts refl)),
        )

-- The envelopes of a payload: itself, if it fits, or a header, the chunks of a plan and an end; and
-- whether the assertions of a debug build hold, which is whether the chunks fit.
pub data Envelopes (fits : SendEnvelope → Bool) (p : SendPayload) (es : List SendEnvelope)
    : Type 0 where
  single :
      fits (transfer p) ≡ true
      → plan_asserts fits p ≡ true
      → es ≡ transfer p ∷ []
      → Envelopes fits p es
  chunked :
      fits (transfer p) ≡ false
      → (cs : List SendTransferChunk) (count : ℕ) → IsPlan fits p.transfer_id 0 p.entries cs count
      → plan_asserts fits p ≡ all_fit fits cs
      → es
        ≡ transfer_header (header_of p) ∷ (map transfer_chunk cs ++ end_of p.transfer_id count ∷ [])
      → Envelopes fits p es

pub plan_transfer_envelopes-Envelopes :
    (fits : SendEnvelope → Bool) (p : SendPayload)
    → length p.entries ≤ u32_max
    → (es : List SendEnvelope) × (plan_transfer_envelopes fits p ≡ some es) × Envelopes fits p es
unfolding plan_transfer_envelopes plan_asserts
plan_transfer_envelopes-Envelopes fits p h =
    let t = p.transfer_id in
    let (cs, count, e, plan, asserts) =
      plan_chunks_total fits t (length p.entries) 0 p.entries (omega arith) (omega arith) in
    elim (Bool-cases (fits (transfer p))) [
      | inl whole ↦ (transfer p ∷ [], ground (arith, whole), single whole (rw whole refl) refl)
      | inr cut ↦ (
        transfer_header (header_of p) ∷ (map transfer_chunk cs ++ end_of t count ∷ []),
        ground (arith, cut, e),
        chunked cut cs count plan (rw cut asserts) refl,
      )
    ]
