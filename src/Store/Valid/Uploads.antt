-- ===== src/Store/Valid/Uploads.antt =====
-- The transfer operations of server/storage/memstore.go under the invariant.
use nex_talk_file_relay.Base.{
  ℕ, ◌+◌, ◌≡◌, false, not, ◌&&◌, Option, none, some, Bytes, bytes_eq, bytes_key, number_key, arith,
  ltb, ◌==◌, length, replicate, Option-cases, if_rule, inl, inr, if◌then◌else◌,
}
use nex_talk_file_relay.Base.Map.{lookup, AllValues-lookup, AllValues-delete}
use nex_talk_file_relay.Protocol.Limits.{max_stored_bytes_per_mailbox, complete_ttl_seconds}
use nex_talk_file_relay.Protocol.Errors.{Result, ok, err, Result-cases}
use nex_talk_file_relay.Protocol.Messages.{TransferCreate, ChunkUpload, TransferComplete}
use nex_talk_file_relay.Protocol.Validate.{
  validate_transfer_create_msg, validate_chunk_upload, validate_transfer_complete,
}
use nex_talk_file_relay.Protocol.Validate.Bounds.{Geometry, validate_transfer_create-Geometry}
use nex_talk_file_relay.Store.Types.{
  TransferData, MemStore, Outcome, complete, expired, to_array, millis,
}
use nex_talk_file_relay.Store.Transfers.{
  slide_owner, check_recipient, new_transfer, record_transfer, create_transfer, with_transfer,
  check_chunk, store_chunk, put_chunk_into, put_chunk, with_recipient, cancel_transfer, seal,
  complete_transfer, is_complete, is_cancelled, mailbox_stored_bytes,
}
use nex_talk_file_relay.Store.Transfers.Invariant.{
  IsTransfer, new_transfer-IsTransfer, store_chunk-IsTransfer,
}
use nex_talk_file_relay.Store.Transfers.Geometry.{check_chunk-Fits}
use nex_talk_file_relay.Store.Guards.{with_transfer-rule, with_recipient-rule, slide_owner-rule}
use nex_talk_file_relay.Store.Valid.{IsMailbox, IsValid, put_mailbox-IsValid, put_transfer-IsValid}
use nex_talk_file_relay.Store.Valid.Queues.{slide_mailbox-IsMailbox, owner-IsMailbox}

pub validate_transfer_create_msg-Geometry :
    (t : TransferCreate)
    → validate_transfer_create_msg t ≡ ok tt
    → Geometry t.total_size t.chunk_size t.chunk_count
unfolding validate_transfer_create_msg
validate_transfer_create_msg-Geometry t h =
    validate_transfer_create-Geometry t.total_size t.chunk_size t.chunk_count (ground arith)

module _ (sha256 : Bytes → Bytes) where
  -- The store that an operation leaves is valid.
  abbrev ValidAfter {ℓ} : {A : Type ℓ} → Outcome A → Type 0
  ValidAfter o = IsValid sha256 o.1

  slide_owner-IsValid :
      (now : ℕ) (mid : Bytes) (s : MemStore)
      → IsValid sha256 s
      → IsValid sha256 (slide_owner now mid s)
  slide_owner-IsValid now mid s v = slide_owner-rule (IsValid sha256) now mid s v λ mb e.
      put_mailbox-IsValid sha256 mid _ s
        (slide_mailbox-IsMailbox now mb
          (AllValues-lookup IsMailbox mid mb s.mailboxes v.mailboxes e))
        v

  -- Marking and sealing change nothing that the invariant counts.
  expired-IsTransfer :
      (t : TransferData)
      → is_complete t.state ≡ false
      → IsTransfer sha256 t
      → IsTransfer sha256 (record t { state = expired })
  expired-IsTransfer t open_state w = record {
    geometry = w.geometry;
    marks = w.marks;
    counted = w.counted;
    contiguous = w.contiguous;
    bytes = w.bytes;
    marked = w.marked;
    sized = w.sized;
    hashed = w.hashed;
    capped = λ _. w.capped open_state;
    full = λ e. cc;
  }

  complete-IsTransfer :
      (t : TransferData) (later : ℕ)
      → t.present_count ≡ t.chunk_count
      → IsTransfer sha256 t
      → IsTransfer sha256 (record t { state = complete; expires_at = later })
  complete-IsTransfer t later all w = record {
    geometry = w.geometry;
    marks = w.marks;
    counted = w.counted;
    contiguous = w.contiguous;
    bytes = w.bytes;
    marked = w.marked;
    sized = w.sized;
    hashed = w.hashed;
    capped = λ e. cc;
    full = λ _. all;
  }

  stored-IsTransfer :
      (id : Bytes) (s : MemStore) (t : TransferData)
      → IsValid sha256 s
      → lookup id s.transfers ≡ some t
      → IsTransfer sha256 t
  stored-IsTransfer id s t v e = AllValues-lookup (IsTransfer sha256) id t s.transfers v.transfers e

  -- The rule for the transfer guard: the store stays valid if the rest keeps it so.
  pub with_transfer-IsValid {ℓ} :
      {A : Type ℓ} (now : ℕ) (id : Bytes) (s : MemStore) (k : TransferData → MemStore → Outcome A)
      → IsValid sha256 s
      → ((t : TransferData) → IsTransfer sha256 t → IsValid sha256 (k t s).1)
      → IsValid sha256 (with_transfer now id s k).1
  with_transfer-IsValid now id s k v h =
      with_transfer-rule (IsValid sha256) now id s k v
        (λ t e open_state.
          put_transfer-IsValid sha256 id _ s
            (expired-IsTransfer t open_state (stored-IsTransfer id s t v e)) v)
        (λ t e. h t (stored-IsTransfer id s t v e))

  pub with_recipient-IsValid {ℓ} :
      {A : Type ℓ} (now : ℕ) (t : TransferData) (mid secret : Bytes) (s : MemStore)
      (k : MemStore → Outcome A)
      → IsValid sha256 s
      → ((s' : MemStore) → IsValid sha256 s' → IsValid sha256 (k s').1)
      → IsValid sha256 (with_recipient sha256 now t mid secret s k).1
  with_recipient-IsValid now t mid secret s k v h =
      with_recipient-rule (IsValid sha256) sha256 now t mid secret s k v (h s v) λ mb e. h _ (
        put_mailbox-IsValid sha256 mid _ s
          (slide_mailbox-IsMailbox now mb (owner-IsMailbox sha256 now mid s mb v e)) v)

  put_chunk_into-IsValid :
      (now : ℕ) (tid : Bytes) (c : ChunkUpload) (t : TransferData) (s : MemStore)
      → IsTransfer sha256 t
      → IsValid sha256 s
      → IsValid sha256 (put_chunk_into sha256 now tid c t s).1
  unfolding put_chunk_into
  put_chunk_into-IsValid now tid c t s w v = elim (Result-cases (check_chunk sha256 t c)) [
    | inl (e, bad) ↦ rw (bad, put_chunk_into) v
    | inr (u, good) ↦
        rw (good, put_chunk_into)
          (elim (Option-cases (lookup c.index t.chunks)) [
            | inr (old, there) ↦
                rw (there, put_chunk_into)
                  (if_rule ValidAfter
                    (length old == length c.payload && bytes_eq (sha256 old) (sha256 c.payload))
                    (λ _. v) (λ _. v))
            | inl absent ↦
                let fits = check_chunk-Fits sha256 t c w.geometry good in
                let kept =
                  put_transfer-IsValid sha256 tid (store_chunk sha256 now c t) s
                    (store_chunk-IsTransfer sha256 now c t w fits absent) v in
                rw (absent, put_chunk_into)
                  (if_rule ValidAfter
                    (t.has_mailbox
                      && ltb max_stored_bytes_per_mailbox
                          (mailbox_stored_bytes t.mailbox_id s + length c.payload))
                    (λ _. v)
                    (λ _.
                      if_rule (IsValid sha256) t.has_mailbox
                        (λ _. slide_owner-IsValid now t.mailbox_id _ kept) (λ _. kept)))
          ])
  ]

  seal-IsValid :
      (now : ℕ) (tid : Bytes) (t : TransferData) (s : MemStore)
      → IsTransfer sha256 t
      → IsValid sha256 s
      → IsValid sha256 (seal now tid t s).1
  unfolding seal
  seal-IsValid now tid t s w v =
      if_rule ValidAfter (is_complete t.state) (λ _. v)
        λ _.
          if_rule ValidAfter (is_cancelled t.state) (λ _. v)
            λ _.
              if_rule ValidAfter (not (t.present_count == t.chunk_count)) (λ _. v)
                λ all.
                  put_transfer-IsValid sha256 tid _ s
                    (complete-IsTransfer t (now + millis complete_ttl_seconds) (ground arith) w) v

  pub put_chunk-IsValid :
      (now : ℕ) (c : ChunkUpload) (s : MemStore)
      → IsValid sha256 s
      → IsValid sha256 (put_chunk sha256 now c s).1
  unfolding put_chunk
  put_chunk-IsValid now c s v = elim (Result-cases (validate_chunk_upload c)) [
    | inl (e, bad) ↦ rw (bad, put_chunk) v
    | inr (u, good) ↦
        rw (good, put_chunk)
          (with_transfer-IsValid now (to_array 16 c.transfer_id) s _ v
            λ t w. put_chunk_into-IsValid now _ c t s w v)
  ]

  pub complete_transfer-IsValid :
      (now : ℕ) (t : TransferComplete) (s : MemStore)
      → IsValid sha256 s
      → IsValid sha256 (complete_transfer now t s).1
  unfolding complete_transfer
  complete_transfer-IsValid now t s v = elim (Result-cases (validate_transfer_complete t)) [
    | inl (e, bad) ↦ rw (bad, complete_transfer) v
    | inr (u, good) ↦
        rw (good, complete_transfer)
          (with_transfer-IsValid now (to_array 16 t.transfer_id) s _ v
            λ tr w. seal-IsValid now _ tr s w v)
  ]

  -- The end of `CreateTransfer`, for any outcome of the checks and of `rand.Read`.
  record_transfer-IsValid :
      (now : ℕ) (id mid : Bytes) (ticket : Option Bytes) (t : TransferCreate) (s : MemStore)
      (checked : Result (Unit {0}))
      → Geometry t.total_size t.chunk_size t.chunk_count
      → IsValid sha256 s
      → IsValid sha256 (record_transfer sha256 now id mid ticket t s checked).1
  unfolding record_transfer
  record_transfer-IsValid now id mid ticket t s (err e) g v = v
  record_transfer-IsValid now id mid none t s (ok u) g v = v
  record_transfer-IsValid now id mid (some secret) t s (ok u) g v =
      let kept =
        put_transfer-IsValid sha256 id (new_transfer sha256 now mid secret t) s
          (new_transfer-IsTransfer sha256 now mid secret t g) v in
      if_rule (IsValid sha256) (length t.mailbox_id == 16) (λ _. slide_owner-IsValid now mid _ kept)
        (λ _. kept)

  pub create_transfer-IsValid :
      (now : ℕ) (id : Bytes) (ticket : Option Bytes) (t : TransferCreate) (s : MemStore)
      → IsValid sha256 s
      → IsValid sha256 (create_transfer sha256 now id ticket t s).1
  unfolding create_transfer
  create_transfer-IsValid now id ticket t s v =
      elim (Result-cases (validate_transfer_create_msg t)) [
        | inl (e, bad) ↦ rw (bad, create_transfer) v
        | inr (u, good) ↦
            let has_mailbox = length t.mailbox_id == 16 in
            let mid = if has_mailbox then to_array 16 t.mailbox_id else replicate 16 0 in
            rw (good, create_transfer)
              (record_transfer-IsValid now id mid ticket t s
                (if has_mailbox then check_recipient now mid t s else ok tt)
                (validate_transfer_create_msg-Geometry t good) v)
      ]

  pub cancel_transfer-IsValid :
      (now : ℕ) (id mid secret : Bytes) (s : MemStore)
      → IsValid sha256 s
      → IsValid sha256 (cancel_transfer sha256 now id mid secret s).1
  unfolding cancel_transfer
  cancel_transfer-IsValid now id mid secret s v = elim (Option-cases (lookup id s.transfers)) [
    | inl e ↦ rw (e, cancel_transfer) v
    | inr (t, e) ↦
        rw (e, cancel_transfer)
          (with_recipient-IsValid now t mid secret s _ v λ s' v'. record {
            mailboxes = v'.mailboxes;
            transfers = AllValues-delete (IsTransfer sha256) id s'.transfers v'.transfers;
            distinct = v'.distinct;
          })
  ]
