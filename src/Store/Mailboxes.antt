-- ===== src/Store/Mailboxes.antt =====
-- The mailboxes of server/storage/memstore.go: creation, lookup, secrets and pruning. `sha256` is
-- the standard library's.
pub mod Prune
pub mod Access
use nex_talk_file_relay.Base.{
  ℕ, ◌+◌, Bool, true, false, not, ◌&&◌, List, [], ◌∷◌, ◌++◌, Option, none, some, Bytes, bytes_eq,
  bytes_key, ltb, leb, ◌==◌, length, if◌then◌else◌,
}
use nex_talk_file_relay.Base.Map.{lookup}
use nex_talk_file_relay.Protocol.Limits.{mailbox_ttl_seconds}
use nex_talk_file_relay.Protocol.Errors.{fail, err_mailbox_not_found, err_auth_failed}
use nex_talk_file_relay.Store.Types.{
  StoredMessage, MailboxData, MemStore, Outcome, put_mailbox, millis,
}

-- `mb.expiresAt = now + protocol.MailboxTTLSeconds*1000`
abbrev pub slide_mailbox : ℕ → MailboxData → MailboxData
slide_mailbox now mb = record mb { expires_at = now + millis mailbox_ttl_seconds }

-- True if the mailbox is new. A mailbox that is there keeps its messages, expired or not.
unfoldable pub create_mailbox : ℕ → Bytes → Bytes → MemStore → Bool × MemStore
create_mailbox now mailbox_id read_secret_hash s = elim (lookup mailbox_id s.mailboxes) [
  | some mb ↦ (
    false,
    put_mailbox mailbox_id (slide_mailbox now (record mb { read_secret_hash = read_secret_hash }))
        s,
  )
  | none ↦ (
    true,
    put_mailbox mailbox_id
        (record {
          read_secret_hash = read_secret_hash;
          messages = [];
          expires_at = now + millis mailbox_ttl_seconds;
          stored_bytes = 0;
        })
        s,
  )
]

unfoldable pub mailbox_exists : ℕ → Bytes → MemStore → Bool
mailbox_exists now mailbox_id s = elim (lookup mailbox_id s.mailboxes) [
  | none ↦ false
  | some mb ↦ not (leb mb.expires_at now)
]

unfoldable pub get_mailbox_locked : Bytes → ℕ → MemStore → Option MailboxData
get_mailbox_locked id now s = elim (lookup id s.mailboxes) [
  | none ↦ none
  | some mb ↦ if leb mb.expires_at now then none else some mb
]

-- The loop of `pruneMessagesLocked`: what is kept, and its bytes.
unfoldable pub prune_loop : ℕ → List StoredMessage → List StoredMessage → ℕ → List StoredMessage × ℕ
prune_loop now [] kept bytes = (kept, bytes)
prune_loop now (m ∷ ms) kept bytes =
    prune_loop now ms (if ltb now m.expires_at then kept ++ m ∷ [] else kept)
      (if ltb now m.expires_at then bytes + length m.envelope else bytes)

unfoldable pub prune_messages_locked : MailboxData → ℕ → MailboxData
prune_messages_locked mb now =
    let (kept, bytes) = prune_loop now mb.messages [] 0 in
    record mb { messages = kept; stored_bytes = bytes }

module _ (sha256 : Bytes → Bytes) where
  unfoldable pub secret_matches : Bytes → Bytes → Bool
  secret_matches stored provided =
      if not (length provided == 32) then false else bytes_eq (sha256 provided) stored

  unfoldable pub check_read_secret : Bytes → Bytes → MemStore → Bool
  check_read_secret mailbox_id read_secret s = elim (lookup mailbox_id s.mailboxes) [
    | none ↦ false
    | some mb ↦
        if not (length read_secret == 32)
        then false
        else bytes_eq (sha256 read_secret) mb.read_secret_hash
  ]

  -- The guard of every owner operation: the mailbox is live and the secret is its own.
  unfoldable pub with_owner {ℓ} :
      {A : Type ℓ} → ℕ → Bytes → Bytes → MemStore → (MailboxData → Outcome A) → Outcome A
  with_owner now mailbox_id read_secret s k = elim (get_mailbox_locked mailbox_id now s) [
    | none ↦ (fail err_mailbox_not_found "mailbox not found", s)
    | some mb ↦
        if not (secret_matches mb.read_secret_hash read_secret)
        then (fail err_auth_failed "bad read secret", s)
        else k mb
  ]
