-- ===== src/Store/Transfers/Creation.antt =====
-- What a mailbox holds, and the creation of transfers, of server/storage/memstore.go.
use nex_talk_file_relay.Base.{
  ℕ, ◌+◌, Bool, true, false, ◌&&◌, [], ◌∷◌, Option, none, some, Bytes, bytes_eq, bytes_key,
  number_key, ltb, leb, ◌==◌, length, replicate, if◌then◌else◌,
}
use nex_talk_file_relay.Base.Map.{Map, lookup}
use nex_talk_file_relay.Protocol.Limits.{
  max_active_transfers_per_mailbox, max_stored_bytes_per_mailbox, upload_ttl_seconds,
}
use nex_talk_file_relay.Protocol.Errors.{
  Result, ok, err, fail, err_mailbox_not_found, err_quota_exceeded, err_storage_unavailable,
}
use nex_talk_file_relay.Protocol.Messages.{TransferCreate}
use nex_talk_file_relay.Protocol.Validate.{validate_transfer_create_msg}
use nex_talk_file_relay.Store.Types.{
  TransferState, created, uploading, complete, cancelled, TransferData, MailboxData, MemStore,
  Outcome, put_mailbox, put_transfer, millis, to_array,
}
use nex_talk_file_relay.Store.Mailboxes.{slide_mailbox, get_mailbox_locked}

-- Tests on the state.
abbrev pub is_complete : TransferState → Bool
is_complete complete = true
is_complete _ = false

abbrev pub is_cancelled : TransferState → Bool
is_cancelled cancelled = true
is_cancelled _ = false

abbrev pub is_open : TransferState → Bool
is_open created = true
is_open uploading = true
is_open _ = false

-- The loop of `activeTransfersLocked`.
unfoldable pub active_transfers : Bytes → ℕ → Map Bytes TransferData → ℕ
active_transfers mailbox_id now [] = 0
active_transfers mailbox_id now ((id, t) ∷ ts) =
    (if t.has_mailbox && bytes_eq t.mailbox_id mailbox_id && is_open t.state && ltb now t.expires_at
      then 1
      else 0)
    + active_transfers mailbox_id now ts

-- The bytes of the transfers that belong to a mailbox, manifests included.
unfoldable pub transfer_bytes : Bytes → Map Bytes TransferData → ℕ
transfer_bytes mailbox_id [] = 0
transfer_bytes mailbox_id ((id, t) ∷ ts) =
    (if t.has_mailbox && bytes_eq t.mailbox_id mailbox_id
      then t.stored_bytes + length t.manifest
      else 0)
    + transfer_bytes mailbox_id ts

unfoldable pub queue_bytes : Option MailboxData → ℕ
queue_bytes none = 0
queue_bytes (some mb) = mb.stored_bytes

unfoldable pub mailbox_stored_bytes : Bytes → MemStore → ℕ
mailbox_stored_bytes mailbox_id s =
    queue_bytes (lookup mailbox_id s.mailboxes) + transfer_bytes mailbox_id s.transfers

-- `if mb, ok := s.mailboxes[id]; ok { mb.expiresAt = ... }`
unfoldable pub slide_owner : ℕ → Bytes → MemStore → MemStore
slide_owner now mailbox_id s = elim (lookup mailbox_id s.mailboxes) [
  | none ↦ s
  | some mb ↦ put_mailbox mailbox_id (slide_mailbox now mb) s
]

-- The checks of `CreateTransfer` on the recipient's mailbox.
unfoldable pub check_recipient : ℕ → Bytes → TransferCreate → MemStore → Result (Unit {0})
check_recipient now mid t s = elim (get_mailbox_locked mid now s) [
  | none ↦ fail err_mailbox_not_found "mailbox not found"
  | some _ ↦
      if leb max_active_transfers_per_mailbox (active_transfers mid now s.transfers)
      then fail err_quota_exceeded "too many active transfers"
      else if ltb max_stored_bytes_per_mailbox (mailbox_stored_bytes mid s + t.total_size)
      then fail err_quota_exceeded "mailbox byte quota"
      else ok tt
]

module _ (sha256 : Bytes → Bytes) where
  -- The record that `CreateTransfer` stores.
  unfoldable pub new_transfer : ℕ → Bytes → Bytes → TransferCreate → TransferData
  new_transfer now mid ticket t = record {
    mailbox_id = mid;
    has_mailbox = length t.mailbox_id == 16;
    download_secret_hash = sha256 ticket;
    total_size = t.total_size;
    chunk_size = t.chunk_size;
    chunk_count = t.chunk_count;
    manifest = t.manifest;
    sender_pub = t.sender_pub;
    state = created;
    present = replicate t.chunk_count false;
    chunks = [];
    hashes = [];
    present_count = 0;
    highest = 0;
    created_at = now;
    expires_at = now + millis upload_ttl_seconds;
    stored_bytes = 0;
  }

  -- The end of `CreateTransfer`: `checked` is the outcome of the checks on the recipient.
  unfoldable pub record_transfer :
      ℕ
      → Bytes
      → Bytes
      → Option Bytes
      → TransferCreate
      → MemStore
      → Result (Unit {0})
      → Outcome (Bytes × Bytes × ℕ)
  record_transfer now id mid ticket t s (err e) = (err e, s)
  record_transfer now id mid none t s (ok _) = (fail err_storage_unavailable "rand failed", s)
  record_transfer now id mid (some secret) t s (ok _) =
      let s' = put_transfer id (new_transfer now mid secret t) s in
      (
        ok (id, secret, now + millis upload_ttl_seconds),
        if length t.mailbox_id == 16 then slide_owner now mid s' else s',
      )

  -- `id` is what `NewID` returns, and `ticket` what `rand.Read` fills in, if it does not fail. The
  -- result is the transfer's ID, the ticket and the expiry.
  unfoldable pub create_transfer :
      ℕ → Bytes → Option Bytes → TransferCreate → MemStore → Outcome (Bytes × Bytes × ℕ)
  create_transfer now id ticket t s = elim (validate_transfer_create_msg t) [
    | err e ↦ (err e, s)
    | ok _ ↦
        let has_mailbox = length t.mailbox_id == 16 in
        let mid = if has_mailbox then to_array 16 t.mailbox_id else replicate 16 0 in
        record_transfer now id mid ticket t s
          (if has_mailbox then check_recipient now mid t s else ok tt)
  ]
