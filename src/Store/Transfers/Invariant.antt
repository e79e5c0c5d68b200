-- ===== src/Store/Transfers/Invariant.antt =====
-- The invariant of a stored transfer (server/storage/memstore.go) under creation and upload.
use nex_talk_file_relay.Base.{
  ℕ, ◌+◌, ◌<◌, ◌≤◌, ◌≡◌, sym, ap, ◌∙◌, Bool, true, false, Option, none, some, Bytes, bytes_key,
  number_key, arith, ◌==◌, length, length-set, length-replicate, get_or, get_or-set, set,
  if◌then◌else◌,
}
use nex_talk_file_relay.Base.Map.{lookup, lookup-insert}
use nex_talk_file_relay.Protocol.Limits.{upload_ttl_max_seconds}
use nex_talk_file_relay.Protocol.Messages.{ChunkUpload, TransferCreate}
use nex_talk_file_relay.Protocol.Validate.Bounds.{Geometry}
use nex_talk_file_relay.Store.Types.{TransferData, millis}
use nex_talk_file_relay.Store.Transfers.{new_transfer, store_chunk, is_complete}
use nex_talk_file_relay.Store.Transfers.Presence.{
  count_true, leading, present_bytes, chunk_length, count_true-le, count_true-replicate,
  get_or-replicate, leading-replicate, present_bytes-replicate, count_true-set, present_bytes-set,
  highest_loop-leading,
}
use nex_talk_file_relay.Store.Transfers.Geometry.{HasGeometry, Fits}

abbrev pub is_some {ℓ} : {A : Type ℓ} → Option A → Bool
is_some none = false
is_some (some a) = true

module _ (sha256 : Bytes → Bytes) where
  -- The bookkeeping agrees with the chunks that are stored.
  pub record IsTransfer (t : TransferData) : Type 0 where
    pub geometry : HasGeometry t
    pub marks : length t.present ≡ t.chunk_count
    pub counted : t.present_count ≡ count_true t.present
    pub contiguous : t.highest ≡ leading t.present
    pub bytes : t.stored_bytes ≡ present_bytes t.chunk_size t.total_size t.present
    pub marked : (i : ℕ) → get_or t.present i false ≡ is_some (lookup i t.chunks)
    pub sized :
        (i : ℕ) (p : Bytes)
        → lookup i t.chunks ≡ some p
        → length p ≡ chunk_length t.total_size t.chunk_size t.chunk_count i
    pub hashed :
        (i : ℕ) (p : Bytes) → lookup i t.chunks ≡ some p → lookup i t.hashes ≡ some (sha256 p)
    pub capped :
        is_complete t.state ≡ false → t.expires_at ≤ t.created_at + millis upload_ttl_max_seconds
    pub full : is_complete t.state ≡ true → t.present_count ≡ t.chunk_count

  -- A new transfer with an accepted geometry is well formed.
  pub new_transfer-IsTransfer :
      (now : ℕ) (mid ticket : Bytes) (t : TransferCreate)
      → Geometry t.total_size t.chunk_size t.chunk_count
      → IsTransfer (new_transfer sha256 now mid ticket t)
  unfolding new_transfer lookup
  new_transfer-IsTransfer now mid ticket t g = record {
    geometry = g;
    marks = length-replicate t.chunk_count false;
    counted = sym (count_true-replicate t.chunk_count);
    contiguous = sym (leading-replicate t.chunk_count);
    bytes = sym (present_bytes-replicate t.chunk_count t.chunk_size t.total_size);
    marked = λ i. get_or-replicate t.chunk_count i;
    sized = λ i p e. cc;
    hashed = λ i p e. cc;
    capped = λ e. omega arith;
    full = λ e. cc;
  }

  -- Storing a chunk that fits and is not there keeps the transfer well formed.
  module _ (now : ℕ) (c : ChunkUpload) (t : TransferData) (v : IsTransfer t) (f : Fits sha256 t c)
      (absent : lookup c.index t.chunks ≡ none) where
    unmarked : get_or t.present c.index false ≡ false
    unmarked = v.marked c.index ∙ (rw absent)

    in_marks : c.index < length t.present
    in_marks = rw v.marks f.in_range

    store_chunk-present : (store_chunk sha256 now c t).present ≡ set t.present c.index true
    unfolding store_chunk
    store_chunk-present = rw unmarked

    store_chunk-chunks :
        (i : ℕ)
        → lookup i (store_chunk sha256 now c t).chunks
          ≡ (if c.index == i then some c.payload else lookup i t.chunks)
    unfolding store_chunk
    store_chunk-chunks i = lookup-insert c.index i c.payload t.chunks

    store_chunk-hashes :
        (i : ℕ)
        → lookup i (store_chunk sha256 now c t).hashes
          ≡ (if c.index == i then some (sha256 c.payload) else lookup i t.hashes)
    unfolding store_chunk
    store_chunk-hashes i = ground (
      arith,
      lookup-insert c.index i (if length c.chunk_hash == 32 then c.chunk_hash else sha256 c.payload)
          t.hashes,
      f.hashed,
    )

    -- The counts of the stored chunk, without wrap.
    store_chunk-counts :
        ((store_chunk sha256 now c t).present_count ≡ t.present_count + 1)
        × ((store_chunk sha256 now c t).stored_bytes ≡ t.stored_bytes + length c.payload)
    unfolding store_chunk
    store_chunk-counts =
        ground (arith, unmarked, v.counted, count_true-le t.present, v.marks, v.geometry)

    store_chunk-counted :
        (store_chunk sha256 now c t).present_count ≡ count_true (store_chunk sha256 now c t).present
    store_chunk-counted = omega (
      arith,
      store_chunk-counts.0,
      ap count_true store_chunk-present,
      count_true-set t.present c.index in_marks unmarked,
      v.counted,
    )

    store_chunk-contiguous :
        (store_chunk sha256 now c t).highest ≡ leading (store_chunk sha256 now c t).present
    unfolding store_chunk
    store_chunk-contiguous =
        rw unmarked
          (rw (← v.marks) (rw (← length-set t.present c.index true) (highest_loop-leading _)))

    store_chunk-bytes :
        (store_chunk sha256 now c t).stored_bytes
        ≡ present_bytes t.chunk_size t.total_size (store_chunk sha256 now c t).present
    store_chunk-bytes = omega (
      arith,
      store_chunk-counts.1,
      ap (present_bytes t.chunk_size t.total_size) store_chunk-present,
      present_bytes-set t.chunk_size t.total_size t.present c.index in_marks unmarked,
      ap (λ n. chunk_length t.total_size t.chunk_size n c.index) v.marks,
      f.sized,
      v.bytes,
    )

    store_chunk-marked :
        (i : ℕ)
        → get_or (store_chunk sha256 now c t).present i false
          ≡ is_some (lookup i (store_chunk sha256 now c t).chunks)
    store_chunk-marked i =
        rw (store_chunk-present, store_chunk-chunks i)
          (ground (arith, get_or-set t.present c.index i true false in_marks, v.marked i))

    store_chunk-sized :
        (i : ℕ) (p : Bytes)
        → lookup i (store_chunk sha256 now c t).chunks ≡ some p
        → length p ≡ chunk_length t.total_size t.chunk_size t.chunk_count i
    store_chunk-sized i p e = ground (arith, store_chunk-chunks i, v.sized i p, f.sized)

    store_chunk-hashed :
        (i : ℕ) (p : Bytes)
        → lookup i (store_chunk sha256 now c t).chunks ≡ some p
        → lookup i (store_chunk sha256 now c t).hashes ≡ some (sha256 p)
    store_chunk-hashed i p e =
        ground (arith, store_chunk-chunks i, store_chunk-hashes i, v.hashed i p)

    pub store_chunk-IsTransfer : IsTransfer (store_chunk sha256 now c t)
    unfolding store_chunk
    store_chunk-IsTransfer = record {
      geometry = v.geometry;
      marks = ap length store_chunk-present ∙ length-set t.present c.index true ∙ v.marks;
      counted = store_chunk-counted;
      contiguous = store_chunk-contiguous;
      bytes = store_chunk-bytes;
      marked = store_chunk-marked;
      sized = store_chunk-sized;
      hashed = store_chunk-hashed;
      capped = λ e. ground arith;
      full = λ e. ground (arith, f.not_complete);
    }
