-- ===== src/Client/Chunks.antt =====
-- The chunks of `SplitOpaque` (client/adapter.go) and the geometry that the relay accepts.
use nex_talk_file_relay.Base.{
  ℕ, zero, suc, ◌+◌, ◌-◌, ◌*◌, ◌/◌, ◌<◌, ◌≤◌, ◌≡◌, refl, ap, subst, ◌⊎◌, inl, inr, Bool-cases, leb,
  ◌∙◌, arith, min, List, [], ◌∷◌, ◌++◌, Bytes, length, get_or, take, drop, length-take, length-drop,
  append-take-drop,
}
use nex_talk_file_relay.Protocol.Limits.{max_chunk_bytes, max_file_bytes, max_chunks_per_transfer}
use nex_talk_file_relay.Protocol.Errors.{ok}
use nex_talk_file_relay.Protocol.Validate.{validate_transfer_create}
use nex_talk_file_relay.Protocol.Validate.Bounds.{ceiling_bounds}
use nex_talk_file_relay.Store.Transfers.Presence.{chunk_length}
use nex_talk_file_relay.Client.Adapter.{split_loop, split_opaque}

-- The chunks one behind the other.
abbrev pub joined : List Bytes → Bytes
joined [] = []
joined (c ∷ cs) = c ++ joined cs

-- Every chunk but the last is full, and the last is not empty: `count` chunks of `size` bytes cover
-- `total` with none to spare, and chunk `i` has the length that the relay expects of it.
pub record AreChunks (size : ℕ) (content : Bytes) (cs : List Bytes) : Type 0 where
  pub whole : joined cs ≡ content
  pub covers : length content ≤ length cs * size
  pub tight : length cs * size < length content + size
  pub sized :
      (i : ℕ)
      → i < length cs
      → length (get_or cs i []) ≡ chunk_length (length content) size (length cs) i

-- Fewer bytes than a chunk make no full one.
few_rounds : (count size : ℕ) → count * size < size → count ≡ 0
few_rounds zero size h = refl
few_rounds (suc count) size h = absurd (omega arith)

some_rounds : (count size left : ℕ) → 0 < left → left ≤ count * size → 0 < count
some_rounds zero size left pos h = absurd (omega arith)
some_rounds (suc count) size left pos h = omega arith

-- One chunk more, of a file of `n` bytes of which `left` are left after it.
module _ (n left size count : ℕ) (some_bytes : 0 < n) (p : 0 < size) (gone : left + min size n ≡ n)
    (covers : left ≤ count * size) (tight : count * size < left + size) where
  last_or_full : ((left ≡ 0) × (count ≡ 0) × (n ≤ size)) ⊎ ((left + size ≡ n) × (0 < count))
  last_or_full = elim (Bool-cases (leb n size)) [
    | inl small ↦ inl (ground arith, few_rounds count size (ground arith), ground arith)
    | inr large ↦ inr (ground arith, some_rounds count size left (ground arith) covers)
  ]

  covers_more : n ≤ suc count * size
  covers_more = omega (arith, last_or_full)

  tight_more : suc count * size < n + size
  tight_more = grind (arith, last_or_full)

  first_chunk : min size n ≡ chunk_length n size (suc count) 0
  first_chunk = elim last_or_full [
    | inl (a, b, c) ↦ ground (arith, a, b, c)
    | inr (a, b) ↦ ground (arith, a, b)
  ]

  later_chunk :
      (j : ℕ) → j < count → chunk_length left size count j ≡ chunk_length n size (suc count) (suc j)
  later_chunk j less = elim last_or_full [
    | inl (a, b, c) ↦ absurd (omega arith)
    | inr (a, b) ↦ ground (arith, a, b)
  ]

sized_more :
    (size : ℕ) (content : Bytes) (cs : List Bytes)
    → 0 < size
    → 0 < length content
    → AreChunks size (drop size content) cs
    → (i : ℕ) → i < suc (length cs)
    → length (get_or (take size content ∷ cs) i [])
      ≡ chunk_length (length content) size (suc (length cs)) i
sized_more size content cs p q later zero h =
    length-take size content
    ∙ first_chunk (length content) (length (drop size content)) size (length cs) q p
        (length-drop size content) later.covers later.tight
sized_more size content cs p q later (suc j) h =
    later.sized j (omega arith)
    ∙ later_chunk (length content) (length (drop size content)) size (length cs) q p
        (length-drop size content) later.covers later.tight j (omega arith)

split_loop-AreChunks :
    (size fuel : ℕ) (content : Bytes)
    → 0 < size
    → length content ≤ fuel
    → AreChunks size content (split_loop size fuel content)
unfolding split_loop
split_loop-AreChunks size fuel [] p h = record {
  whole = refl;
  covers = omega arith;
  tight = omega (arith, p);
  sized = λ i less. absurd (omega arith);
}
split_loop-AreChunks size zero (b ∷ rest) p h = absurd (omega arith)
split_loop-AreChunks size (suc fuel) (b ∷ rest) p h =
    let content = b ∷ rest in
    let gone = length-drop size content in
    let first = length-take size content in
    let later = split_loop-AreChunks size fuel (drop size content) p (omega arith) in
    let n = length content in
    let left = length (drop size content) in
    let count = length (split_loop size fuel (drop size content)) in
    record {
      whole = ap (λ t. take size content ++ t) later.whole ∙ append-take-drop size content;
      covers = covers_more n left size count (omega arith) p gone later.covers later.tight;
      tight = tight_more n left size count (omega arith) p gone later.covers later.tight;
      sized = sized_more size content _ p (omega arith) later;
    }

-- The ceiling quotient is the only number of chunks that fits.
same_count : (n size a b : ℕ) → 0 < size → n ≤ a * size → b * size < n + size → b ≤ a
same_count n size a b p h k = grind arith

accepted :
    (n size count : ℕ)
    → 0 < n
    → 0 < size
    → size ≤ max_chunk_bytes
    → n ≤ max_file_bytes
    → count ≤ max_chunks_per_transfer
    → n ≤ count * size
    → count * size < n + size
    → validate_transfer_create n size count ≡ ok tt
unfolding validate_transfer_create
accepted n size count q p small fits few covers tight =
    let (up, down, bound) = ceiling_bounds n size p in
    let same : count ≡ (n + size - 1) / size = omega (
      arith,
      same_count n size count ((n + size - 1) / size) p covers down,
      same_count n size ((n + size - 1) / size) count p up tight,
    ) in
    let pos = some_rounds count size n q covers in rw (← same) (ground (arith, pos))

-- What `SplitOpaque` returns is the data in chunks: joined they are the data, their number is the
-- ceiling quotient, and chunk `i` has the length that the relay expects of chunk `i`. The relay
-- accepts this geometry, if there is a byte to send and the chunks are not more than it takes.
pub split_opaque-AreChunks :
    (content : Bytes) (size : ℕ) (cs : List Bytes)
    → 0 < length content
    → length cs ≤ max_chunks_per_transfer
    → split_opaque content size ≡ ok cs
    → AreChunks size content cs
      × (validate_transfer_create (length content) size (length cs) ≡ ok tt)
unfolding split_opaque
split_opaque-AreChunks content size cs q few h =
    let same : split_loop size (length content) content ≡ cs = ground arith in
    let pos : 0 < size = ground arith in
    let chunks =
      subst (AreChunks size content) same
        (split_loop-AreChunks size (length content) content pos (omega arith)) in
    (
      chunks,
      accepted (length content) size (length cs) q pos (ground arith) (ground arith) few
          chunks.covers chunks.tight,
    )
