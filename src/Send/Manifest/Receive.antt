-- ===== src/Send/Manifest/Receive.antt =====
-- manifest.rs, `ChunkedTransfer`: chunks put together in any order.
use failsafe.Prelude.{
  ℕ, suc, ◌+◌, ◌≤◌, ◌<◌, ◌≡◌, ◌≢◌, refl, ap, ◌∙◌, sym, subst, List, [], ◌∷◌, ◌++◌, arith, length,
  All, length-append,
}
use failsafe.Prelude.OrdMap
use failsafe.Prelude.OrdMap.{insert, insert_comm, insert_front, keys, values, Above}
use failsafe.Prelude.Shuffle.{Shuffle, nil, put, All-Shuffle}
use failsafe.Send.Payload.{FileEntry, SendTransferChunk}
use failsafe.Send.Manifest.{sum_lengths, sorted_insert, sort, gather}
use failsafe.Send.Manifest.Plan.{all_entries, Numbered}

abbrev pub ChunkMap : Type 0
ChunkMap = List (ℕ × List FileEntry)

-- The chunks pushed one after the other.
unfoldable pub receive : List SendTransferChunk → ChunkMap → ChunkMap
receive [] m = m
receive (c ∷ cs) m = receive cs (insert c.chunk_index c.entries m)

-- The map that holds exactly these chunks.
abbrev pub table : List SendTransferChunk → ChunkMap
table [] = []
table (c ∷ cs) = (c.chunk_index, c.entries) ∷ table cs

abbrev Fresh : ℕ → List SendTransferChunk → Type 0
Fresh i cs = All (λ d. i ≢ d.chunk_index) cs

receive-insert :
    (i : ℕ) (es : List FileEntry) (bs : List SendTransferChunk) (m : ChunkMap)
    → Fresh i bs
    → receive bs (insert i es m) ≡ insert i es (receive bs m)
unfolding receive
receive-insert i es [] m h = refl
receive-insert i es (b ∷ bs) m h =
    ap (receive bs) (sym (insert_comm i b.chunk_index es b.entries m h.0))
    ∙ receive-insert i es bs (insert b.chunk_index b.entries m) h.1

receive-middle :
    (c : SendTransferChunk) (as' bs : List SendTransferChunk) (m : ChunkMap)
    → Fresh c.chunk_index (as' ++ bs)
    → receive (as' ++ c ∷ bs) m ≡ insert c.chunk_index c.entries (receive (as' ++ bs) m)
unfolding receive
receive-middle c [] bs m h = receive-insert c.chunk_index c.entries bs m h
receive-middle c (a ∷ as') bs m h = receive-middle c as' bs (insert a.chunk_index a.entries m) h.1

pub Numbered-Above : (t i : ℕ) (cs : List SendTransferChunk) → Numbered t i cs → Above i (table cs)
Numbered-Above t i [] h = tt
Numbered-Above t i (c ∷ cs) h = let rest = Numbered-Above t (suc i) cs h.3 in ground (arith, rest)

Numbered-Fresh : (t i j : ℕ) (cs : List SendTransferChunk) → i < j → Numbered t j cs → Fresh i cs
Numbered-Fresh t i j [] h n = tt
Numbered-Fresh t i j (c ∷ cs) h n =
    (λ e. absurd (omega (arith, n.1, e)), Numbered-Fresh t i (suc j) cs (omega arith) n.3)

-- In whatever order numbered chunks come, the same map results.
pub receive-Shuffle :
    (t i : ℕ) {cs ds : List SendTransferChunk}
    → Shuffle cs ds
    → Numbered t i cs
    → receive ds [] ≡ table cs
unfolding receive
receive-Shuffle t i nil n = refl
receive-Shuffle t i (put {x = c} {xs = cs} as' bs e s) n =
    let fresh =
      All-Shuffle _ s (Numbered-Fresh t c.chunk_index (suc i) cs (omega (arith, n.1)) n.3) in
    let above = Numbered-Above t (suc i) cs n.3 in
    ap (λ ds. receive ds []) e
    ∙ receive-middle c as' bs [] fresh
    ∙ ap (insert c.chunk_index c.entries) (receive-Shuffle t (suc i) s n.3)
    ∙ insert_front c.chunk_index c.entries (table cs)
        (subst (λ k. Above (suc k) (table cs)) (sym n.1) above)

-- Sorting the keys of a map in order changes nothing.
sorted_insert-front : (n : ℕ) (m : ChunkMap) → Above n m → sorted_insert n (keys m) ≡ n ∷ keys m
sorted_insert-front n [] h = refl
sorted_insert-front n ((k, v) ∷ m) h = ground arith

Above-weaken : (n : ℕ) (m : ChunkMap) → Above (suc n) m → Above n m
Above-weaken n [] h = tt
Above-weaken n ((k, v) ∷ m) h = (omega arith, h.1)

sort-keys : (n : ℕ) (m : ChunkMap) → Above n m → sort (keys m) ≡ keys m
sort-keys n [] h = refl
sort-keys n ((k, v) ∷ m) h =
    ap (sorted_insert k) (sort-keys (suc k) m h.1) ∙ sorted_insert-front k m (Above-weaken k m h.1)

-- Looking up larger keys does not meet the first entry.
gather-tail :
    (k n : ℕ) (v : List FileEntry) (m r : ChunkMap)
    → k < n
    → Above n r
    → gather ((k, v) ∷ m) (keys r) ≡ gather m (keys r)
unfolding OrdMap.get
gather-tail k n v m [] lt h = refl
gather-tail k n v m ((j, w) ∷ r) lt h = ground (arith, gather-tail k (suc j) v m r)

gather-table :
    (t i : ℕ) (cs : List SendTransferChunk)
    → Numbered t i cs
    → gather (table cs) (keys (table cs)) ≡ all_entries cs
unfolding OrdMap.get
gather-table t i [] n = refl
gather-table t i (c ∷ cs) n =
    let above = Numbered-Above t (suc i) cs n.3 in
    ground (
      arith,
      gather-tail c.chunk_index (suc i) c.entries (table cs) (table cs),
      n.1,
      gather-table t (suc i) cs n.3,
    )

-- The entries that the receiver puts together are those of the plan, in order.
pub gather-sort :
    (t i : ℕ) (cs : List SendTransferChunk)
    → Numbered t i cs
    → gather (table cs) (sort (keys (table cs))) ≡ all_entries cs
gather-sort t i cs n =
    ap (gather (table cs)) (sort-keys i (table cs) (Numbered-Above t i cs n))
    ∙ gather-table t i cs n

pub sum_lengths-table :
    (cs : List SendTransferChunk) → sum_lengths (values (table cs)) ≡ length (all_entries cs)
sum_lengths-table [] = refl
sum_lengths-table (c ∷ cs) =
    omega (arith, sum_lengths-table cs, length-append c.entries (all_entries cs))

pub length-table : (cs : List SendTransferChunk) → length (table cs) ≡ length cs
length-table [] = refl
length-table (c ∷ cs) = ap suc (length-table cs)

-- Overwriting a chunk can only lose entries.
sum_lengths-insert :
    (i : ℕ) (es : List FileEntry) (m : ChunkMap)
    → sum_lengths (values (insert i es m)) ≤ length es + sum_lengths (values m)
unfolding insert
sum_lengths-insert i es [] = omega arith
sum_lengths-insert i es ((k, v) ∷ m) = ground (arith, sum_lengths-insert i es m)

pub sum_lengths-receive :
    (ds : List SendTransferChunk) (m : ChunkMap)
    → sum_lengths (values (receive ds m)) ≤ length (all_entries ds) + sum_lengths (values m)
unfolding receive
sum_lengths-receive [] m = omega arith
sum_lengths-receive (d ∷ ds) m = omega (
  arith,
  sum_lengths-receive ds (insert d.chunk_index d.entries m),
  sum_lengths-insert d.chunk_index d.entries m,
  length-append d.entries (all_entries ds),
)
