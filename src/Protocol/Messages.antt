-- ===== src/Protocol/Messages.antt =====
-- The messages of protocol/schemas.go, protocol/messages.go and protocol/transfers.go. A field of
-- type `uint64`, `uint32` or `uint8` is a number; its range is a premise where it matters.
use nex_talk_file_relay.Base.{ℕ, Bytes, List}

pub record SendMessage : Type 0 where
  pub mailbox_id : Bytes
  pub envelope : Bytes
  pub sender_pub : Bytes
  pub timestamp : ℕ
  pub nonce : Bytes
  pub signature : Bytes
  pub ttl_hint_sec : ℕ
  pub burn : ℕ

pub record ReceiveMessages : Type 0 where
  pub mailbox_id : Bytes
  pub read_secret : Bytes
  pub limit : ℕ
  pub peek : ℕ

pub record MessageAck : Type 0 where
  pub mailbox_id : Bytes
  pub read_secret : Bytes
  pub msg_ids : List Bytes
  pub disposition : ℕ

pub record TransferCreate : Type 0 where
  pub mailbox_id : Bytes
  pub total_size : ℕ
  pub chunk_size : ℕ
  pub chunk_count : ℕ
  pub manifest : Bytes
  pub sender_pub : Bytes
  pub timestamp : ℕ
  pub nonce : Bytes
  pub signature : Bytes

pub record ChunkUpload : Type 0 where
  pub transfer_id : Bytes
  pub index : ℕ
  pub payload : Bytes
  pub chunk_hash : Bytes
  pub offset : ℕ

pub record ChunkDownload : Type 0 where
  pub transfer_id : Bytes
  pub index : ℕ
  pub count : ℕ
  pub mailbox_id : Bytes
  pub read_secret : Bytes
  pub ticket : Bytes

pub record ResumeRequest : Type 0 where
  pub transfer_id : Bytes
  pub mailbox_id : Bytes
  pub read_secret : Bytes
  pub ticket : Bytes

pub record TransferComplete : Type 0 where
  pub transfer_id : Bytes
  pub manifest_hash : Bytes
  pub mailbox_id : Bytes
  pub sender_pub : Bytes
  pub timestamp : ℕ
  pub nonce : Bytes
  pub signature : Bytes

abbrev pub ack_received : ℕ
ack_received = 1

abbrev pub ack_consumed : ℕ
ack_consumed = 2

abbrev pub resume_bitmap : ℕ
resume_bitmap = 0

abbrev pub resume_ranges : ℕ
resume_ranges = 1

pub record TransferCancel : Type 0 where
  pub transfer_id : Bytes
  pub mailbox_id : Bytes
  pub reason : ℕ
  pub read_secret : Bytes

pub record Hello : Type 0 where
  pub major : ℕ
  pub minor : ℕ
  pub now_ms : ℕ
