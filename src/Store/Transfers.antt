-- ===== src/Store/Transfers.antt =====
-- The transfers of server/storage/memstore.go: upload, sealing and cancelling. The child Creation is
-- about what a mailbox holds and about creating a transfer.
mod Creation
pub mod Presence
pub mod Geometry
pub mod Invariant
unfoldable pub use Creation.*
use nex_talk_file_relay.Base.{
  ℕ, zero, suc, ◌+◌, ◌-◌, ◌*◌, ◌%◌, ◌^◌, Bool, true, false, not, ◌&&◌, ◌||◌, List, [], ◌∷◌, Option,
  none, some, Bytes, bytes_eq, bytes_key, number_key, ltb, leb, ◌==◌, length, get_or, set,
  replicate, min, if◌then◌else◌,
}
use nex_talk_file_relay.Base.Map.{Map, lookup, insert, delete}
use nex_talk_file_relay.Protocol.Limits.{
  max_active_transfers_per_mailbox, max_stored_bytes_per_mailbox, upload_ttl_seconds,
  upload_ttl_max_seconds, complete_ttl_seconds,
}
use nex_talk_file_relay.Protocol.Errors.{
  Result, ok, err, fail, err_mailbox_not_found, err_quota_exceeded, err_storage_unavailable,
  err_transfer_expired, err_transfer_not_found, err_transfer_conflict, err_chunk_out_of_range,
  err_chunk_invalid, err_hash_mismatch, err_chunk_conflict, err_auth_failed,
}
use nex_talk_file_relay.Protocol.Messages.{TransferCreate, ChunkUpload, TransferComplete}
use nex_talk_file_relay.Protocol.Validate.{
  validate_transfer_create_msg, validate_chunk_upload, validate_transfer_complete,
}
use nex_talk_file_relay.Store.Types.{
  TransferState, created, uploading, complete, cancelled, expired, TransferData, TransferView,
  MailboxData, MemStore, Outcome, put_mailbox, put_transfer, millis, to_array,
}
use nex_talk_file_relay.Store.Mailboxes.{slide_mailbox, get_mailbox_locked, with_owner}

-- A transfer that has run out is marked, and reported as missing.
unfoldable pub get_transfer_locked : Bytes → ℕ → MemStore → Option TransferData × MemStore
get_transfer_locked id now s = elim (lookup id s.transfers) [
  | none ↦ (none, s)
  | some t ↦
      if leb t.expires_at now && not (is_complete t.state)
      then (none, put_transfer id (record t { state = expired }) s)
      else (some t, s)
]

-- The guard of every transfer operation, with the error that tells expired from unknown.
unfoldable pub with_transfer {ℓ} :
    {A : Type ℓ} → ℕ → Bytes → MemStore → (TransferData → MemStore → Outcome A) → Outcome A
with_transfer now id s k =
    let (found, s') = get_transfer_locked id now s in
    elim found [
      | some t ↦ k t s'
      | none ↦ elim (lookup id s'.transfers) [
        | some _ ↦ (fail err_transfer_expired "transfer expired", s')
        | none ↦ (fail err_transfer_not_found "transfer not found", s')
      ]
    ]

-- for h < t.chunkCount && t.present[h] { h++ }, with the rounds that are left.
unfoldable pub highest_loop : ℕ → ℕ → List Bool → ℕ
highest_loop zero h present = h
highest_loop (suc rounds) h present =
    let rest = highest_loop rounds (h + 1) present in if get_or present h false then rest else h

-- Products and differences are those of `uint64`, `t.chunkCount-1` that of `uint32`.
abbrev pub chunk_offset : TransferData → ℕ → ℕ
chunk_offset t index = (index * t.chunk_size) % 2 ^ 64

abbrev pub is_last : TransferData → ℕ → Bool
is_last t index = index == (t.chunk_count + 2 ^ 32 - 1) % 2 ^ 32

abbrev pub expected_last : TransferData → ℕ → ℕ
expected_last t index = (t.total_size + 2 ^ 64 - chunk_offset t index) % 2 ^ 64

module _ (sha256 : Bytes → Bytes) where
  -- The checks of `PutChunk` that read the transfer alone.
  unfoldable pub check_chunk : TransferData → ChunkUpload → Result (Unit {0})
  check_chunk t c =
      if is_complete t.state || is_cancelled t.state
      then fail err_transfer_conflict "transfer closed"
      else if leb t.chunk_count c.index
      then fail err_chunk_out_of_range "index out of range"
      else if not (c.offset == chunk_offset t c.index)
      then fail err_chunk_invalid "offset mismatch"
      else if not (is_last t c.index) && not (length c.payload == t.chunk_size)
      then fail err_chunk_invalid "non-final chunk must equal chunk_size"
      else if is_last t c.index && not (length c.payload == expected_last t c.index)
      then fail err_chunk_invalid "final chunk size mismatch"
      else if length c.chunk_hash == 32 && not (bytes_eq (sha256 c.payload) c.chunk_hash)
      then fail err_hash_mismatch "chunk hash mismatch"
      else ok tt

  -- The writes of `PutChunk` to the transfer.
  unfoldable pub store_chunk : ℕ → ChunkUpload → TransferData → TransferData
  store_chunk now c t =
      let fresh = not (get_or t.present c.index false) in
      let present = if fresh then set t.present c.index true else t.present in
      record t {
        chunks = insert c.index c.payload t.chunks;
        hashes =
            insert c.index (if length c.chunk_hash == 32 then c.chunk_hash else sha256 c.payload)
              t.hashes;
        present = present;
        present_count = if fresh then (t.present_count + 1) % 2 ^ 32 else t.present_count;
        stored_bytes = if fresh then t.stored_bytes + length c.payload else t.stored_bytes;
        state = elim t.state [ created ↦ uploading | other ↦ other ];
        expires_at =
            (if ltb (t.created_at + millis upload_ttl_max_seconds) (now + millis upload_ttl_seconds)
              then t.created_at + millis upload_ttl_max_seconds
              else now + millis upload_ttl_seconds);
        highest = highest_loop t.chunk_count 0 present;
      }

  unfoldable pub put_chunk_into : ℕ → Bytes → ChunkUpload → TransferData → MemStore → Outcome ℕ
  put_chunk_into now tid c t s = elim (check_chunk t c) [
    | err e ↦ (err e, s)
    | ok _ ↦ elim (lookup c.index t.chunks) [
      | some old ↦
          if length old == length c.payload && bytes_eq (sha256 old) (sha256 c.payload)
          then (ok t.present_count, s)
          else (fail err_chunk_conflict "chunk exists with different bytes", s)
      | none ↦
          if t.has_mailbox
            && ltb max_stored_bytes_per_mailbox
                (mailbox_stored_bytes t.mailbox_id s + length c.payload)
          then (fail err_quota_exceeded "mailbox byte quota", s)
          else (let t' = store_chunk now c t in
              let s' = put_transfer tid t' s in
              (ok t'.present_count, if t.has_mailbox then slide_owner now t.mailbox_id s' else s'))
    ]
  ]

  -- The result is the number of chunks present.
  unfoldable pub put_chunk : ℕ → ChunkUpload → MemStore → Outcome ℕ
  put_chunk now c s = elim (validate_chunk_upload c) [
    | err e ↦ (err e, s)
    | ok _ ↦
        let tid = to_array 16 c.transfer_id in with_transfer now tid s (put_chunk_into now tid c)
  ]

  -- The guard on the mailbox that GetChunk, Resume and CancelTransfer share.
  unfoldable pub with_recipient {ℓ} :
      {A : Type ℓ}
      → ℕ
      → TransferData
      → Bytes
      → Bytes
      → MemStore
      → (MemStore → Outcome A)
      → Outcome A
  with_recipient now t mailbox_id read_secret s k =
      if not t.has_mailbox
      then k s
      else if not (bytes_eq t.mailbox_id mailbox_id)
      then (fail err_auth_failed "mailbox mismatch", s)
      else with_owner sha256 now mailbox_id read_secret s
          λ mb. k (put_mailbox mailbox_id (slide_mailbox now mb) s)

  -- The transfer is marked cancelled and then deleted, so the mark is not seen.
  unfoldable pub cancel_transfer : ℕ → Bytes → Bytes → Bytes → MemStore → Outcome (Unit {0})
  cancel_transfer now transfer_id mailbox_id read_secret s = elim (lookup transfer_id s.transfers) [
    | none ↦ (fail err_transfer_not_found "transfer not found", s)
    | some t ↦
        with_recipient now t mailbox_id read_secret s
          λ s'. (ok tt, record s' { transfers = delete transfer_id s'.transfers })
  ]

-- What `CompleteTransfer` does with the transfer: the result is `sealed`, the chunks present and the
-- chunk count.
unfoldable pub seal : ℕ → Bytes → TransferData → MemStore → Outcome (Bool × ℕ × ℕ)
seal now tid t s =
    if is_complete t.state
    then (ok (true, t.present_count, t.chunk_count), s)
    else if is_cancelled t.state
    then (fail err_transfer_conflict "transfer cancelled", s)
    else if not (t.present_count == t.chunk_count)
    then (fail err_transfer_conflict "chunks missing", s)
    else (
      ok (true, t.present_count, t.chunk_count),
      put_transfer tid
          (record t { state = complete; expires_at = now + millis complete_ttl_seconds }) s,
    )

unfoldable pub complete_transfer : ℕ → TransferComplete → MemStore → Outcome (Bool × ℕ × ℕ)
complete_transfer now t s = elim (validate_transfer_complete t) [
  | err e ↦ (err e, s)
  | ok _ ↦ let tid = to_array 16 t.transfer_id in with_transfer now tid s (seal now tid)
]

-- The copy-out snapshot.
unfoldable pub transfer_view : Bytes → TransferData → TransferView
transfer_view transfer_id t = record {
  id = transfer_id;
  mailbox_id = t.mailbox_id;
  has_mailbox = t.has_mailbox;
  total_size = t.total_size;
  chunk_size = t.chunk_size;
  chunk_count = t.chunk_count;
  manifest = t.manifest;
  sender_pub = t.sender_pub;
  state = t.state;
  present_count = t.present_count;
  highest_contiguous = t.highest;
  created_at = t.created_at;
  expires_at = t.expires_at;
}

unfoldable pub get_transfer : ℕ → Bytes → MemStore → Outcome TransferView
get_transfer now transfer_id s =
    with_transfer now transfer_id s λ t s'. (ok (transfer_view transfer_id t), s')
