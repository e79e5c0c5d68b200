-- ===== src/Store/Uploads/Chunks.antt =====
-- One chunk (server/storage/memstore.go): upload, upload again, conflict and download by ticket.
use nex_talk_file_relay.Base.{
  ℕ, ◌+◌, ◌<◌, ◌≡◌, refl, Bool, true, false, not, ◌&&◌, none, some, Bytes, bytes_eq_refl, bytes_key,
  number_key, arith, ltb, ◌==◌, length, if◌then◌else◌, inl, inr, bytes_eq_iff,
}
use nex_talk_file_relay.Base.Map.{lookup, lookup-insert}
use nex_talk_file_relay.Protocol.Limits.{max_stored_bytes_per_mailbox}
use nex_talk_file_relay.Protocol.Errors.{ok, Result-cases}
use nex_talk_file_relay.Protocol.Messages.{ChunkUpload}
use nex_talk_file_relay.Protocol.Validate.{validate_chunk_upload}
use nex_talk_file_relay.Store.Types.{TransferData, MemStore, put_transfer, to_array}
use nex_talk_file_relay.Store.Transfers.{
  check_chunk, store_chunk, put_chunk_into, put_chunk, slide_owner, mailbox_stored_bytes,
}
use nex_talk_file_relay.Store.Transfers.Geometry.{check_chunk-Fits}
use nex_talk_file_relay.Store.Transfers.Invariant.{IsTransfer}
use nex_talk_file_relay.Store.Downloads.{check_ticket, or_nil, read_chunk, get_chunk_by_ticket}
use nex_talk_file_relay.Store.Guards.{has_run_out, with_transfer-live, slide_owner-rule}

-- An upload to a place that is taken changes nothing, and succeeds only with the bytes of what is
-- there, as far as length and hash tell.
put_chunk_into-old :
    (sha256 : Bytes → Bytes) (now : ℕ) (tid : Bytes) (c : ChunkUpload) (t : TransferData)
    (s : MemStore) (old : Bytes)
    → lookup c.index t.chunks ≡ some old
    → ((put_chunk_into sha256 now tid c t s).1 ≡ s)
      × ((n : ℕ)
          → (put_chunk_into sha256 now tid c t s).0 ≡ ok n
          → (length c.payload ≡ length old)
            × (sha256 c.payload ≡ sha256 old)
            × (n ≡ t.present_count))
unfolding put_chunk_into
put_chunk_into-old sha256 now tid c t s old there = elim (Result-cases (check_chunk sha256 t c)) [
  | inl (e, bad) ↦ (ground (arith, bad), λ n h. absurd (ground (arith, bad, h)))
  | inr (u, good) ↦ (
    ground (arith, good, there),
    λ n h. ground (arith, good, there, h, bytes_eq_iff (sha256 old) (sha256 c.payload)),
  )
]

module _ (sha256 : Bytes → Bytes) (now : ℕ) (c : ChunkUpload) (s : MemStore)
    (t : TransferData) where
  -- A well-formed chunk for a transfer that is stored and has not run out.
  pub record Arrives : Type 0 where
    pub valid : validate_chunk_upload c ≡ ok tt
    pub found : lookup (to_array 16 c.transfer_id) s.transfers ≡ some t
    pub live : has_run_out now t ≡ false
    pub checked : check_chunk sha256 t c ≡ ok tt

  -- The mailbox, if there is one, has room for the chunk.
  abbrev pub has_room : Bool
  has_room = not (
      t.has_mailbox
      && ltb max_stored_bytes_per_mailbox (mailbox_stored_bytes t.mailbox_id s + length c.payload))

  abbrev pub stored_transfer : TransferData
  stored_transfer = store_chunk sha256 now c t

  abbrev pub stored_store : MemStore
  stored_store =
      let s' = put_transfer (to_array 16 c.transfer_id) stored_transfer s in
      if t.has_mailbox then slide_owner now t.mailbox_id s' else s'

  pub put_chunk-Arrives :
      Arrives
      → put_chunk sha256 now c s ≡ put_chunk_into sha256 now (to_array 16 c.transfer_id) c t s
  unfolding put_chunk
  put_chunk-Arrives a = ground (
    arith,
    a.valid,
    with_transfer-live now (to_array 16 c.transfer_id) s
        (put_chunk_into sha256 now (to_array 16 c.transfer_id) c) t a.found a.live,
  )

  -- A new chunk that fits the quota is stored and counted.
  pub put_chunk-new :
      Arrives
      → lookup c.index t.chunks ≡ none
      → has_room ≡ true
      → put_chunk sha256 now c s ≡ (ok stored_transfer.present_count, stored_store)
  unfolding put_chunk_into
  put_chunk-new a absent room = ground (arith, put_chunk-Arrives a, a.checked)

  slide_owner-transfers :
      (mid : Bytes) (r : MemStore) → (slide_owner now mid r).transfers ≡ r.transfers
  slide_owner-transfers mid r =
      slide_owner-rule (λ q. q.transfers ≡ r.transfers) now mid r refl (λ mb e. refl)

  pub stored_store-lookup :
      lookup (to_array 16 c.transfer_id) stored_store.transfers ≡ some stored_transfer
  stored_store-lookup =
      let tid = to_array 16 c.transfer_id in
      let s' = put_transfer tid stored_transfer s in
      ground (
        arith,
        slide_owner-transfers t.mailbox_id s',
        lookup-insert tid tid stored_transfer s.transfers,
        bytes_eq_refl tid,
      )

  -- The geometry, the ticket and the openness of a transfer outlive the upload.
  check_chunk-store_chunk : check_chunk sha256 stored_transfer c ≡ check_chunk sha256 t c
  unfolding check_chunk store_chunk
  check_chunk-store_chunk = ground arith

  store_chunk-holds : lookup c.index stored_transfer.chunks ≡ some c.payload
  unfolding store_chunk
  store_chunk-holds = ground (arith, lookup-insert c.index c.index c.payload t.chunks)

  store_chunk-hash :
      IsTransfer sha256 t
      → check_chunk sha256 t c ≡ ok tt
      → lookup c.index stored_transfer.hashes ≡ some (sha256 c.payload)
  unfolding store_chunk
  store_chunk-hash w good =
      let fits = check_chunk-Fits sha256 t c w.geometry good in
      ground (
        arith,
        lookup-insert c.index c.index
            (if length c.chunk_hash == 32 then c.chunk_hash else sha256 c.payload) t.hashes,
        fits.hashed,
      )

  store_chunk-count : stored_transfer.chunk_count ≡ t.chunk_count
  unfolding store_chunk
  store_chunk-count = refl

  -- A new chunk that fits the transfer and the quota, sent once more before the transfer runs out, is
  -- acknowledged with the same count and changes nothing.
  pub put_chunk-again :
      (later : ℕ)
      → Arrives
      → lookup c.index t.chunks ≡ none
      → has_room ≡ true
      → later < stored_transfer.expires_at
      → put_chunk sha256 later c (put_chunk sha256 now c s).1 ≡ put_chunk sha256 now c s
  unfolding put_chunk put_chunk_into
  put_chunk-again later a absent room early =
      let tid = to_array 16 c.transfer_id in
      rw (put_chunk-new a absent room) (
        ground (
          arith,
          a.valid,
          a.checked,
          with_transfer-live later tid stored_store (put_chunk_into sha256 later tid c)
              stored_transfer stored_store-lookup (ground arith),
          check_chunk-store_chunk,
          store_chunk-holds,
          bytes_eq_refl (sha256 c.payload),
        ))

  check_ticket-store_chunk :
      (ticket : Bytes) → check_ticket sha256 stored_transfer ticket ≡ check_ticket sha256 t ticket
  unfolding check_ticket store_chunk
  check_ticket-store_chunk ticket = refl

  download_stored :
      (later : ℕ) (ticket : Bytes)
      → IsTransfer sha256 t
      → Arrives
      → check_ticket sha256 t ticket ≡ ok tt
      → later < stored_transfer.expires_at
      → (get_chunk_by_ticket sha256 later (to_array 16 c.transfer_id) ticket c.index stored_store).0
        ≡ ok (c.payload, sha256 c.payload)
  unfolding get_chunk_by_ticket read_chunk or_nil
  download_stored later ticket w a ours early =
      let fits = check_chunk-Fits sha256 t c w.geometry a.checked in
      rw
        (with_transfer-live later (to_array 16 c.transfer_id) stored_store _ stored_transfer
          stored_store-lookup (ground arith))
        (ground (
          arith,
          check_ticket-store_chunk ticket,
          store_chunk-holds,
          store_chunk-hash w a.checked,
          store_chunk-count,
          fits.in_range,
        ))

  -- Whatever is uploaded to the place of the chunk, the store stays as it is.
  put_chunk-kept :
      (later : ℕ) (other : ChunkUpload)
      → to_array 16 other.transfer_id ≡ to_array 16 c.transfer_id
      → other.index ≡ c.index
      → later < stored_transfer.expires_at
      → ((put_chunk sha256 later other stored_store).1 ≡ stored_store)
        × ((n : ℕ)
            → (put_chunk sha256 later other stored_store).0 ≡ ok n
            → (length other.payload ≡ length c.payload)
              × (sha256 other.payload ≡ sha256 c.payload)
              × (n ≡ stored_transfer.present_count))
  unfolding put_chunk put_chunk_into
  put_chunk-kept later other same there early =
      let tid = to_array 16 c.transfer_id in
      let lasts =
        with_transfer-live later tid stored_store (put_chunk_into sha256 later tid other)
          stored_transfer stored_store-lookup (ground arith) in
      let here : lookup other.index stored_transfer.chunks ≡ some c.payload =
        rw there store_chunk-holds in
      let onto =
        put_chunk_into-old sha256 later tid other stored_transfer stored_store c.payload here in
      elim (Result-cases (validate_chunk_upload other)) [
        | inl (e, bad) ↦ ground (arith, bad)
        | inr (u, good) ↦ ground (arith, good, same, there, lasts, onto)
      ]

  -- A new chunk that fits a well-formed transfer and the quota is, once uploaded, what the holder of
  -- the right ticket downloads while the transfer lives: the payload, and its SHA-256.
  pub put_chunk-download :
      (later : ℕ) (ticket : Bytes)
      → IsTransfer sha256 t
      → Arrives
      → lookup c.index t.chunks ≡ none
      → has_room ≡ true
      → check_ticket sha256 t ticket ≡ ok tt
      → later < stored_transfer.expires_at
      → (get_chunk_by_ticket sha256 later
          (to_array 16 c.transfer_id)
          ticket
          c.index
          (put_chunk sha256 now c s).1).0
        ≡ ok (c.payload, sha256 c.payload)
  put_chunk-download later ticket w a absent room ours early =
      rw (put_chunk-new a absent room) (download_stored later ticket w a ours early)

  -- The first upload of a chunk is final. While the transfer lives, whatever else is uploaded to the
  -- place of a new chunk that was stored in a well-formed transfer leaves the store as it is, so the
  -- holder of the ticket still downloads the first payload; and the upload succeeds only with a
  -- payload of the same length and SHA-256, with the count that the first one got.
  pub put_chunk-first :
      (later after : ℕ) (other : ChunkUpload) (ticket : Bytes)
      → IsTransfer sha256 t
      → Arrives
      → lookup c.index t.chunks ≡ none
      → has_room ≡ true
      → check_ticket sha256 t ticket ≡ ok tt
      → to_array 16 other.transfer_id ≡ to_array 16 c.transfer_id
      → other.index ≡ c.index
      → later < stored_transfer.expires_at
      → after < stored_transfer.expires_at
      → let (r, s1) = put_chunk sha256 now c s in
        let (r2, s2) = put_chunk sha256 later other s1 in
        (s2 ≡ s1)
        × ((get_chunk_by_ticket sha256 after (to_array 16 c.transfer_id) ticket c.index s2).0
            ≡ ok (c.payload, sha256 c.payload))
        × ((n : ℕ)
            → r2 ≡ ok n
            → (length other.payload ≡ length c.payload)
              × (sha256 other.payload ≡ sha256 c.payload)
              × (r ≡ ok n))
  put_chunk-first later after other ticket w a absent room ours same there early soon =
      let (kept, agrees) = put_chunk-kept later other same there early in
      let first = put_chunk-new a absent room in
      rw first (
        kept,
        rw kept (download_stored after ticket w a ours soon),
        λ n h. (let (size, hash, count) = agrees n h in (size, hash, rw count refl)),
      )
