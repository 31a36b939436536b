-- ===== src/Transport/Stream/Reading.antt =====
-- iroh/stream.rs, `read_exact`: bytes that come in pieces.
use failsafe.Prelude.{
  ap, ◌∙◌, take-length-append, drop-length-append, ℕ, zero, suc, ◌-◌, ◌≤◌, ◌<◌, ◌≡◌, refl, List, [],
  ◌∷◌, ◌++◌, arith, length, take, drop, take-append_long, drop-append_long, take-append_short,
  drop-append_short, length-drop, ok, err, length-append,
}
use native.Mathlib.Decide.{dec_le}
use failsafe.Transport.Codec.{codec, stream_closed}
use failsafe.Transport.Stream.{RecvStream, chunk, reset, read_exact}

-- All bytes of a stream, without the cuts.
abbrev pub bytes : RecvStream → List ℕ
bytes [] = []
bytes (chunk bs ∷ s) = bs ++ bytes s
bytes (reset ∷ s) = []

-- A stream that gives at least a byte at every read until it ends.
abbrev pub IsLive : RecvStream → Type 0
IsLive [] = Unit {0}
IsLive (chunk [] ∷ s) = ⊥
IsLive (chunk (b ∷ bs) ∷ s) = IsLive s
IsLive (reset ∷ s) = ⊥

pub record Reads (n : ℕ) (s : RecvStream) : Type 0 where
  pub rest : RecvStream
  pub reads : read_exact n s ≡ ok (take n (bytes s), rest)
  pub left : bytes rest ≡ drop n (bytes s)
  pub live : IsLive rest

IsLive-chunk : (xs : List ℕ) (s : RecvStream) → 0 < length xs → IsLive s → IsLive (chunk xs ∷ s)
IsLive-chunk [] s h live = absurd (omega arith)
IsLive-chunk (x ∷ xs) s h live = live

module _ (n : ℕ) (b : ℕ) (bs : List ℕ) (s : RecvStream) where
  Reads-whole : length bs ≤ n → Reads (n - length bs) s → Reads (suc n) (chunk (b ∷ bs) ∷ s)
  unfolding read_exact
  Reads-whole h r = record {
    rest = r.rest;
    reads = ground (arith, r.reads, take-append_long n bs (bytes s));
    left = ground (arith, r.left, drop-append_long n bs (bytes s));
    live = r.live;
  }

  Reads-part : n < length bs → IsLive s → Reads (suc n) (chunk (b ∷ bs) ∷ s)
  unfolding read_exact
  Reads-part h live = record {
    rest = chunk (drop n bs) ∷ s;
    reads = ground (arith, take-append_short n bs (bytes s));
    left = ground (arith, drop-append_short n bs (bytes s));
    live = IsLive-chunk (drop n bs) s (omega (arith, length-drop n bs)) live;
  }

-- On a live stream that holds enough bytes `read_exact` gives the next `n` of them and leaves the
-- others, however they are cut.
pub read_exact-Reads : (n : ℕ) (s : RecvStream) → IsLive s → n ≤ length (bytes s) → Reads n s
unfolding read_exact
read_exact-Reads zero s live h = record { rest = s; reads = refl; left = refl; live = live }
read_exact-Reads (suc n) [] live h = absurd (omega arith)
read_exact-Reads (suc n) (reset ∷ s) live h = elim live [ ]
read_exact-Reads (suc n) (chunk [] ∷ s) live h = elim live [ ]
read_exact-Reads (suc n) (chunk (b ∷ bs) ∷ s) live h = elim (dec_le (length bs) n) [
  | yes fits ↦
      Reads-whole n b bs s fits
        (read_exact-Reads (n - length bs) s live (omega (arith, length-append bs (bytes s))))
  | no long ↦ Reads-part n b bs s (omega arith) live
]

-- A live stream that ends before `n` bytes is reported as closed.
pub read_exact-eq-closed :
    (n : ℕ) (s : RecvStream)
    → IsLive s
    → length (bytes s) < n
    → read_exact n s ≡ err (codec stream_closed)
unfolding read_exact
read_exact-eq-closed zero s live h = absurd (omega arith)
read_exact-eq-closed (suc n) [] live h = refl
read_exact-eq-closed (suc n) (reset ∷ s) live h = elim live [ ]
read_exact-eq-closed (suc n) (chunk [] ∷ s) live h = elim live [ ]
read_exact-eq-closed (suc n) (chunk (b ∷ bs) ∷ s) live h =
    let rest =
      read_exact-eq-closed (n - length bs) s live (omega (arith, length-append bs (bytes s))) in
    ground (arith, rest, length-append bs (bytes s))

-- The stream that is left once `xs` have been read off its front.
pub record Prefix (xs ys : List ℕ) (s : RecvStream) : Type 0 where
  pub rest : RecvStream
  pub reads : read_exact (length xs) s ≡ ok (xs, rest)
  pub left : bytes rest ≡ ys
  pub live : IsLive rest

pub read_exact-Prefix :
    (xs ys : List ℕ) (s : RecvStream) → IsLive s → bytes s ≡ xs ++ ys → Prefix xs ys s
read_exact-Prefix xs ys s live e =
    let r = read_exact-Reads (length xs) s live (omega (arith, ap length e, length-append xs ys)) in
    record {
      rest = r.rest;
      reads = cc (r.reads, ap (take (length xs)) e, take-length-append xs ys);
      left = r.left ∙ ap (drop (length xs)) e ∙ drop-length-append xs ys;
      live = r.live;
    }
