-- ===== src/Protocol/Codec.antt =====
-- The codecs of the requests: `Unmarshal*` of protocol/schemas.go, protocol/messages.go,
-- protocol/transfers.go and protocol/control.go (hello), and the `Marshal*` of the two requests that
-- carry data. The nanopack package is a parameter: `decode_id` is `nanopack.DecodeID`, `encode_id`
-- the fields that an `Encoder` was given and its `Bytes()`. An error of nanopack is the error that
-- `AsProtocolError` makes of it.
mod Fields
pub mod Roundtrip
unfoldable pub use Fields.*
use nex_talk_file_relay.Base.{
  ℕ, zero, suc, ◌+◌, ◌*◌, ◌/◌, ◌%◌, Bool, not, ◌||◌, List, [], ◌∷◌, ◌++◌, Option, none, some, Bytes,
  ltb, ◌==◌, length, take, drop, if◌then◌else◌,
}
use nex_talk_file_relay.Protocol.Limits.{
  max_request_bytes, max_chunk_bytes, max_manifest_bytes, max_batch_messages,
}
use nex_talk_file_relay.Protocol.Errors.{
  Result, ok, fail, ◌>>=◌, ◌>>◌, err_invalid_request, err_payload_too_large,
}
use nex_talk_file_relay.Protocol.Messages.{
  Hello, SendMessage, ReceiveMessages, MessageAck, TransferCreate, ChunkUpload, ChunkDownload,
  ResumeRequest, TransferComplete, TransferCancel,
}
use nex_talk_file_relay.Protocol.Wire.{put_u32, put_u64, get_u32, get_u64, get_u8}
use nex_talk_file_relay.Protocol.Validate.{
  validate_send_message, validate_receive_messages, validate_message_ack, validate_chunk_upload,
  validate_transfer_create_msg, validate_chunk_download, validate_resume_request,
  validate_transfer_complete,
}

-- A length is never negative here. The detail gives the two numbers in the source.
unfoldable pub check_body_len : ℕ → ℕ → Result (Unit {0})
check_body_len n limit =
    if ltb limit n then fail err_payload_too_large "declared len exceeds limit" else ok tt

-- `flat` cut into records of 16 bytes, `fuel` of them at most.
unfoldable pub split_ids : ℕ → Bytes → List Bytes
split_ids zero flat = []
split_ids (suc fuel) [] = []
split_ids (suc fuel) (b ∷ flat) = take 16 (b ∷ flat) ∷ split_ids fuel (drop 16 (b ∷ flat))

-- The end of `UnmarshalMessageAck`; there are no more records than bytes.
unfoldable pub with_ids : MessageAck × Bytes → Result MessageAck
with_ids (a, flat) =
    if not (length flat % 16 == 0)
    then fail err_invalid_request "msg_ids must be n*16 bytes"
    else let out = record a { msg_ids = split_ids (length flat) flat } in
      (validate_message_ack out >> ok out)

abbrev pub empty_send_message : SendMessage
empty_send_message = record {
  mailbox_id = [];
  envelope = [];
  sender_pub = [];
  timestamp = 0;
  nonce = [];
  signature = [];
  ttl_hint_sec = 0;
  burn = 0;
}

abbrev pub empty_chunk_upload : ChunkUpload
empty_chunk_upload = record {
  transfer_id = [];
  index = 0;
  payload = [];
  chunk_hash = [];
  offset = 0;
}

abbrev pub empty_transfer_create : TransferCreate
empty_transfer_create = record {
  mailbox_id = [];
  total_size = 0;
  chunk_size = 0;
  chunk_count = 0;
  manifest = [];
  sender_pub = [];
  timestamp = 0;
  nonce = [];
  signature = [];
}

abbrev pub empty_transfer_complete : TransferComplete
empty_transfer_complete = record {
  transfer_id = [];
  manifest_hash = [];
  mailbox_id = [];
  sender_pub = [];
  timestamp = 0;
  nonce = [];
  signature = [];
}

module _ (encode_id : List Field → Result Bytes) where
  unfoldable pub marshal_send_message : SendMessage → Result Bytes
  marshal_send_message m =
      validate_send_message m
      >> encode_id (
          (1, m.mailbox_id)
          ∷ (2, m.envelope)
          ∷ (3, m.sender_pub)
          ∷ (4, put_u64 m.timestamp)
          ∷ (5, m.nonce)
          ∷ (6, m.signature)
          ∷ (7, put_u32 m.ttl_hint_sec)
          ∷ (8, m.burn ∷ [])
          ∷ [])

  unfoldable pub marshal_chunk_upload : ChunkUpload → Result Bytes
  marshal_chunk_upload c =
      validate_chunk_upload c
      >> encode_id (
          (1, c.transfer_id)
          ∷ (2, put_u32 c.index)
          ∷ (3, c.payload)
          ∷ ((if ltb 0 (length c.chunk_hash) then (4, c.chunk_hash) ∷ [] else [])
              ++ ((5, put_u64 c.offset) ∷ [])))

module _ (decode_id : Bytes → Result (List Field)) where
  -- The part that the decoders share: the limit on the body, nanopack, the loop over the fields.
  unfoldable pub unmarshal {ℓ} :
      {A : Type ℓ} → ℕ → (ℕ → Bytes → A → Result A) → A → Bytes → Result A
  unmarshal limit set empty body =
      check_body_len (length body) limit
      >> (decode_id body >>= λ fields. set_fields set fields empty)

  unfoldable pub unmarshal_hello : Bytes → Result Hello
  unmarshal_hello = unmarshal 64 set_hello record { major = 0; minor = 0; now_ms = 0 }

  unfoldable pub unmarshal_send_message : Bytes → Result SendMessage
  unmarshal_send_message body =
      unmarshal max_request_bytes set_send_message empty_send_message body >>= λ m.
      validate_send_message m >> ok m

  unfoldable pub unmarshal_chunk_upload : Bytes → Result ChunkUpload
  unmarshal_chunk_upload body =
      unmarshal (max_chunk_bytes + 1024) set_chunk_upload empty_chunk_upload body >>= λ c.
      validate_chunk_upload c >> ok c

  unfoldable pub unmarshal_receive_messages : Bytes → Result ReceiveMessages
  unmarshal_receive_messages body =
      unmarshal 256 set_receive_messages
        record { mailbox_id = []; read_secret = []; limit = 0; peek = 0 } body
      >>= λ r. validate_receive_messages r >> ok r

  unfoldable pub unmarshal_message_ack : Bytes → Result MessageAck
  unmarshal_message_ack body =
      unmarshal (max_batch_messages * 16 + 256) set_message_ack
        (record { mailbox_id = []; read_secret = []; msg_ids = []; disposition = 0 }, []) body
      >>= with_ids

  unfoldable pub unmarshal_transfer_create : Bytes → Result TransferCreate
  unmarshal_transfer_create body =
      unmarshal (max_manifest_bytes + 512) set_transfer_create empty_transfer_create body >>= λ t.
      validate_transfer_create_msg t >> ok t

  unfoldable pub unmarshal_chunk_download : Bytes → Result ChunkDownload
  unmarshal_chunk_download body =
      unmarshal 256 set_chunk_download
        record {
          transfer_id = [];
          index = 0;
          count = 0;
          mailbox_id = [];
          read_secret = [];
          ticket = [];
        }
        body
      >>= λ r. validate_chunk_download r >> ok r

  unfoldable pub unmarshal_resume_request : Bytes → Result ResumeRequest
  unmarshal_resume_request body =
      unmarshal 256 set_resume_request
        record { transfer_id = []; mailbox_id = []; read_secret = []; ticket = [] } body
      >>= λ r. validate_resume_request r >> ok r

  unfoldable pub unmarshal_transfer_complete : Bytes → Result TransferComplete
  unmarshal_transfer_complete body =
      unmarshal 512 set_transfer_complete empty_transfer_complete body >>= λ t.
      validate_transfer_complete t >> ok t

  unfoldable pub unmarshal_transfer_cancel : Bytes → Result TransferCancel
  unmarshal_transfer_cancel body =
      unmarshal 256 set_transfer_cancel
        record { transfer_id = []; mailbox_id = []; reason = 0; read_secret = [] } body
      >>= λ t.
          if not (length t.transfer_id == 16)
            || not (length t.mailbox_id == 16)
            || not (length t.read_secret == 32)
          then fail err_invalid_request "bad transfer cancel"
          else ok t
