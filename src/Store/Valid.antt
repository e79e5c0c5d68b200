-- ===== src/Store/Valid.antt =====
-- The invariant of the whole store (server/storage/memstore.go); the children are about the
-- operations under it.
pub mod Queues
pub mod Uploads
pub mod Runs
use nex_talk_file_relay.Base.{ℕ, ◌≤◌, ◌≡◌, Bytes, bytes_key, length}
use nex_talk_file_relay.Base.Map.{AllValues, AllValues-insert}
use nex_talk_file_relay.Protocol.Limits.{max_queued_messages, max_stored_bytes_per_mailbox}
use nex_talk_file_relay.Store.Types.{
  MailboxData, TransferData, MemStore, envelope_bytes, put_mailbox, put_transfer, new_mem_store,
}
use nex_talk_file_relay.Store.Replay.Window.{IsDistinct}
use nex_talk_file_relay.Store.Transfers.Invariant.{IsTransfer}

-- A queue is within its limits, and its byte count is right.
pub record IsMailbox (mb : MailboxData) : Type 0 where
  pub counted : mb.stored_bytes ≡ envelope_bytes mb.messages
  pub few : length mb.messages ≤ max_queued_messages
  pub small : mb.stored_bytes ≤ max_stored_bytes_per_mailbox

module _ (sha256 : Bytes → Bytes) where
  pub record IsValid (s : MemStore) : Type 0 where
    pub mailboxes : AllValues IsMailbox s.mailboxes
    pub transfers : AllValues (IsTransfer sha256) s.transfers
    pub distinct : IsDistinct s.replay

  pub new_mem_store-IsValid : IsValid new_mem_store
  new_mem_store-IsValid = record { mailboxes = tt; transfers = tt; distinct = tt }

  pub put_mailbox-IsValid :
      (id : Bytes) (mb : MailboxData) (s : MemStore)
      → IsMailbox mb
      → IsValid s
      → IsValid (put_mailbox id mb s)
  put_mailbox-IsValid id mb s m v = record {
    mailboxes = AllValues-insert IsMailbox id mb s.mailboxes m v.mailboxes;
    transfers = v.transfers;
    distinct = v.distinct;
  }

  pub put_transfer-IsValid :
      (id : Bytes) (t : TransferData) (s : MemStore)
      → IsTransfer sha256 t
      → IsValid s
      → IsValid (put_transfer id t s)
  put_transfer-IsValid id t s w v = record {
    mailboxes = v.mailboxes;
    transfers = AllValues-insert (IsTransfer sha256) id t s.transfers w v.transfers;
    distinct = v.distinct;
  }
