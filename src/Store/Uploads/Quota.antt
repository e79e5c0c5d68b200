-- ===== src/Store/Uploads/Quota.antt =====
-- The byte quota of a mailbox (server/storage/memstore.go) under uploads.
use nex_talk_file_relay.Base.{
  ℕ, ◌+◌, ◌≤◌, ◌≡◌, refl, true, false, [], ◌∷◌, none, some, Bytes, bytes_eq_refl, bytes_key,
  number_key, arith, length, Bool-cases, Option-cases, inl, inr,
}
use nex_talk_file_relay.Base.Map.{Map, lookup, insert, lookup-insert}
use nex_talk_file_relay.Protocol.Limits.{max_stored_bytes_per_mailbox}
use nex_talk_file_relay.Protocol.Messages.{ChunkUpload}
use nex_talk_file_relay.Store.Types.{TransferData, MemStore, put_transfer, to_array}
use nex_talk_file_relay.Store.Mailboxes.{slide_mailbox}
use nex_talk_file_relay.Store.Transfers.{
  transfer_bytes, queue_bytes, mailbox_stored_bytes, slide_owner, store_chunk, put_chunk,
  put_chunk_into,
}
use nex_talk_file_relay.Store.Transfers.Invariant.{IsTransfer}
use nex_talk_file_relay.Store.Uploads.Chunks.{
  Arrives, has_room, stored_store, put_chunk-new, put_chunk-Arrives,
}

-- A transfer that grows by `n` bytes.
record Grows (n : ℕ) (t u : TransferData) : Type 0 where
  owned : u.has_mailbox ≡ t.has_mailbox
  addressed : u.mailbox_id ≡ t.mailbox_id
  described : u.manifest ≡ t.manifest
  grown : u.stored_bytes ≡ t.stored_bytes + n

transfer_bytes-insert :
    (mid id : Bytes) (n : ℕ) (t u : TransferData) (m : Map Bytes TransferData)
    → lookup id m ≡ some t
    → Grows n t u
    → transfer_bytes mid (insert id u m) ≤ transfer_bytes mid m + n
unfolding transfer_bytes lookup insert
transfer_bytes-insert mid id n t u [] found g = cc
transfer_bytes-insert mid id n t u ((j, w) ∷ m) found g =
    ground (arith, transfer_bytes-insert mid id n t u m, g.owned, g.addressed, g.described, g.grown)

put_transfer-bytes :
    (mid id : Bytes) (n : ℕ) (t u : TransferData) (s : MemStore)
    → lookup id s.transfers ≡ some t
    → Grows n t u
    → mailbox_stored_bytes mid (put_transfer id u s) ≤ mailbox_stored_bytes mid s + n
unfolding mailbox_stored_bytes
put_transfer-bytes mid id n t u s found g =
    omega (arith, transfer_bytes-insert mid id n t u s.transfers found g)

slide_owner-bytes :
    (now : ℕ) (mid : Bytes) (s : MemStore)
    → mailbox_stored_bytes mid (slide_owner now mid s) ≡ mailbox_stored_bytes mid s
unfolding mailbox_stored_bytes slide_owner queue_bytes
slide_owner-bytes now mid s = elim (Option-cases (lookup mid s.mailboxes)) [
  | inl e ↦ ground arith
  | inr (mb, e) ↦
      ground (arith, lookup-insert mid mid (slide_mailbox now mb) s.mailboxes, bytes_eq_refl mid)
]

module _ (sha256 : Bytes → Bytes) (now : ℕ) (c : ChunkUpload) (s : MemStore)
    (t : TransferData) where
  store_chunk-Grows :
      IsTransfer sha256 t
      → lookup c.index t.chunks ≡ none
      → Grows (length c.payload) t (store_chunk sha256 now c t)
  unfolding store_chunk
  store_chunk-Grows w absent = record {
    owned = refl;
    addressed = refl;
    described = refl;
    grown = ground (arith, w.marked c.index);
  }

  put_chunk-full :
      Arrives sha256 now c s t
      → lookup c.index t.chunks ≡ none
      → has_room sha256 now c s t ≡ false
      → (put_chunk sha256 now c s).1 ≡ s
  unfolding put_chunk_into
  put_chunk-full a absent full = ground (arith, put_chunk-Arrives sha256 now c s t a, a.checked)

  stored_store-bytes :
      Arrives sha256 now c s t
      → IsTransfer sha256 t
      → t.has_mailbox ≡ true
      → lookup c.index t.chunks ≡ none
      → mailbox_stored_bytes t.mailbox_id (stored_store sha256 now c s t)
        ≤ mailbox_stored_bytes t.mailbox_id s + length c.payload
  stored_store-bytes a w owned absent =
      let tid = to_array 16 c.transfer_id in
      let u = store_chunk sha256 now c t in
      let slid = slide_owner-bytes now t.mailbox_id (put_transfer tid u s) in
      ground (
        arith,
        slid,
        put_transfer-bytes t.mailbox_id tid (length c.payload) t u s a.found
            (store_chunk-Grows w absent),
      )

  -- An upload to a mailbox that is within its byte quota, messages, chunks and manifests together,
  -- leaves it within the quota, whether the chunk is stored or refused for lack of room. The chunk is
  -- new and fits its transfer, which is well formed.
  pub put_chunk-quota :
      Arrives sha256 now c s t
      → IsTransfer sha256 t
      → t.has_mailbox ≡ true
      → lookup c.index t.chunks ≡ none
      → mailbox_stored_bytes t.mailbox_id s ≤ max_stored_bytes_per_mailbox
      → mailbox_stored_bytes t.mailbox_id (put_chunk sha256 now c s).1
        ≤ max_stored_bytes_per_mailbox
  put_chunk-quota a w owned absent within = elim (Bool-cases (has_room sha256 now c s t)) [
    | inl room ↦
        let more = stored_store-bytes a w owned absent in
        rw (put_chunk-new sha256 now c s t a absent room) (ground arith)
    | inr full ↦ rw (put_chunk-full a absent full) within
  ]
