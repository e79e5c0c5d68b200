-- ===== src/Store/Types.antt =====
-- The data of server/storage/store.go and server/storage/memstore.go. A pointer that a Go map holds
-- is the value at its key: a write through it is an `insert` at that key. Times are milliseconds of
-- a clock that is not negative and far below 2 ^ 63, so that no sum with a time to live wraps.
use nex_talk_file_relay.Base.{
  ℕ, ◌*◌, Bytes, bytes_key, Bool, List, [], ◌∷◌, ◌+◌, length, take, ◌++◌, replicate,
}
use nex_talk_file_relay.Base.Map.{Map, insert}
use nex_talk_file_relay.Protocol.Errors.{Result}

pub record StoredMessage : Type 0 where
  pub id : Bytes
  pub envelope : Bytes
  pub sender_pub : Bytes
  pub enqueued_at : ℕ
  pub expires_at : ℕ

pub data TransferState : Type 0 where
  created uploading complete cancelled expired : TransferState

pub record TransferView : Type 0 where
  pub id : Bytes
  pub mailbox_id : Bytes
  pub has_mailbox : Bool
  pub total_size : ℕ
  pub chunk_size : ℕ
  pub chunk_count : ℕ
  pub manifest : Bytes
  pub sender_pub : Bytes
  pub state : TransferState
  pub present_count : ℕ
  pub highest_contiguous : ℕ
  pub created_at : ℕ
  pub expires_at : ℕ

pub record ResumeView : Type 0 where
  pub chunk_count : ℕ
  pub highest_contiguous : ℕ
  pub encoding : ℕ
  pub bitmap : Bytes
  pub missing_ranges : Bytes

pub record MailboxData : Type 0 where
  pub read_secret_hash : Bytes
  pub messages : List StoredMessage
  pub expires_at : ℕ
  pub stored_bytes : ℕ

pub record TransferData : Type 0 where
  pub mailbox_id : Bytes
  pub has_mailbox : Bool
  pub download_secret_hash : Bytes
  pub total_size : ℕ
  pub chunk_size : ℕ
  pub chunk_count : ℕ
  pub manifest : Bytes
  pub sender_pub : Bytes
  pub state : TransferState
  pub present : List Bool
  pub chunks : Map ℕ Bytes
  pub hashes : Map ℕ Bytes
  pub present_count : ℕ
  pub highest : ℕ
  pub created_at : ℕ
  pub expires_at : ℕ
  pub stored_bytes : ℕ

pub record MemStore : Type 0 where
  pub mailboxes : Map Bytes MailboxData
  pub transfers : Map Bytes TransferData
  pub replay : Map Bytes ℕ

abbrev pub new_mem_store : MemStore
new_mem_store = record { mailboxes = []; transfers = []; replay = [] }

-- What a method returns, with the store that it leaves; a method that fails may have written too.
abbrev pub Outcome {ℓ} : Type ℓ → Type ℓ
Outcome A = Result A × MemStore

abbrev pub put_mailbox : Bytes → MailboxData → MemStore → MemStore
put_mailbox id mb s = record s { mailboxes = insert id mb s.mailboxes }

abbrev pub put_transfer : Bytes → TransferData → MemStore → MemStore
put_transfer id t s = record s { transfers = insert id t s.transfers }

-- A time to live in milliseconds.
abbrev pub millis : ℕ → ℕ
millis seconds = seconds * 1000

-- `var a [n]byte; copy(a[:], b)`: cut to n bytes, or filled up with zeros.
abbrev pub to_array : ℕ → Bytes → Bytes
to_array n b = take n (b ++ replicate n 0)

-- The loops that sum the envelopes of a queue.
abbrev pub envelope_bytes : List StoredMessage → ℕ
envelope_bytes [] = 0
envelope_bytes (m ∷ ms) = length m.envelope + envelope_bytes ms
