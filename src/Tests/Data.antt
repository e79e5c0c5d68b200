-- ===== src/Tests/Data.antt =====
-- A mailbox with its owner, a file of one chunk, and the messages about them.
use nex_talk_file_relay.Base.{[], ◌∷◌, Bytes, bytes_key, replicate}
use nex_talk_file_relay.Protocol.Messages.{
  SendMessage, TransferCreate, ChunkUpload, TransferComplete,
}
use nex_talk_file_relay.Store.Types.{
  MailboxData, TransferData, MemStore, new_mem_store, put_mailbox, put_transfer, to_array,
  StoredMessage,
}
use nex_talk_file_relay.Store.Transfers.{new_transfer}

-- A hash that can be computed by hand.
abbrev pub cut : Bytes → Bytes
cut b = to_array 32 b

abbrev pub mailbox_id : Bytes
mailbox_id = replicate 16 1

abbrev pub secret : Bytes
secret = replicate 32 2

abbrev pub transfer_id : Bytes
transfer_id = replicate 16 3

abbrev pub ticket : Bytes
ticket = replicate 32 4

abbrev pub message_id : Bytes
message_id = replicate 16 5

abbrev pub key : Bytes
key = replicate 32 6

abbrev pub nonce : Bytes
nonce = replicate 16 7

abbrev pub signature : Bytes
signature = replicate 64 8

abbrev pub waiting : StoredMessage
waiting = record {
  id = message_id;
  envelope = 9 ∷ 9 ∷ [];
  sender_pub = key;
  enqueued_at = 0;
  expires_at = 1000000;
}

abbrev pub mailbox : MailboxData
mailbox = record {
  read_secret_hash = secret;
  messages = waiting ∷ [];
  expires_at = 2000000;
  stored_bytes = 2;
}

abbrev pub with_mailbox : MemStore
with_mailbox = put_mailbox mailbox_id mailbox new_mem_store

abbrev pub message : SendMessage
message = record {
  mailbox_id = mailbox_id;
  envelope = 10 ∷ [];
  sender_pub = key;
  timestamp = 40000;
  nonce = nonce;
  signature = signature;
  ttl_hint_sec = 0;
  burn = 1;
}

abbrev pub create : TransferCreate
create = record {
  mailbox_id = [];
  total_size = 3;
  chunk_size = 4;
  chunk_count = 1;
  manifest = [];
  sender_pub = key;
  timestamp = 40000;
  nonce = nonce;
  signature = signature;
}

abbrev pub chunk : ChunkUpload
chunk = record {
  transfer_id = transfer_id;
  index = 0;
  payload = 11 ∷ 12 ∷ 13 ∷ [];
  chunk_hash = [];
  offset = 0;
}

abbrev pub seal_request : TransferComplete
seal_request = record {
  transfer_id = transfer_id;
  manifest_hash = replicate 32 0;
  mailbox_id = [];
  sender_pub = key;
  timestamp = 40000;
  nonce = nonce;
  signature = signature;
}

abbrev pub fresh_transfer : TransferData
fresh_transfer = new_transfer cut 40000 (replicate 16 0) ticket create

abbrev pub with_transfer_stored : MemStore
with_transfer_stored = put_transfer transfer_id fresh_transfer new_mem_store
