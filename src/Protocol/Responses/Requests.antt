-- ===== src/Protocol/Responses/Requests.antt =====
-- The encoders of the requests of protocol/messages.go and protocol/transfers.go.
use nex_talk_file_relay.Base.{not, ◌||◌, List, [], ◌∷◌, ◌++◌, Bytes, ◌==◌, length, if◌then◌else◌}
use nex_talk_file_relay.Protocol.Errors.{Result, fail, ◌>>◌, err_invalid_request}
use nex_talk_file_relay.Protocol.Messages.{
  ReceiveMessages, MessageAck, TransferCreate, ChunkDownload, ResumeRequest, TransferComplete,
  TransferCancel,
}
use nex_talk_file_relay.Protocol.Validate.{
  validate_receive_messages, validate_message_ack, validate_transfer_create_msg,
  validate_chunk_download, validate_resume_request, validate_transfer_complete, ticket_mode,
}
use nex_talk_file_relay.Protocol.Wire.{put_u32, put_u64}
use nex_talk_file_relay.Protocol.Codec.{Field}

-- The loop that writes the IDs of an acknowledgement one behind the other.
unfoldable pub flat_ids : List Bytes → Bytes
flat_ids [] = []
flat_ids (id ∷ ids) = id ++ flat_ids ids

module _ (encode_id : List Field → Result Bytes) where
  unfoldable pub marshal_receive_messages : ReceiveMessages → Result Bytes
  marshal_receive_messages r =
      validate_receive_messages r
      >> encode_id
          ((1, r.mailbox_id) ∷ (2, r.read_secret) ∷ (3, r.limit ∷ []) ∷ (4, r.peek ∷ []) ∷ [])

  unfoldable pub marshal_message_ack : MessageAck → Result Bytes
  marshal_message_ack a =
      validate_message_ack a
      >> encode_id (
          (1, a.mailbox_id)
          ∷ (2, a.read_secret)
          ∷ (3, flat_ids a.msg_ids)
          ∷ (4, a.disposition ∷ [])
          ∷ [])

  unfoldable pub marshal_transfer_create : TransferCreate → Result Bytes
  marshal_transfer_create t =
      validate_transfer_create_msg t
      >> encode_id (
          (1, t.mailbox_id)
          ∷ (2, put_u64 t.total_size)
          ∷ (3, put_u32 t.chunk_size)
          ∷ (4, put_u32 t.chunk_count)
          ∷ (5, t.manifest)
          ∷ (6, t.sender_pub)
          ∷ (7, put_u64 t.timestamp)
          ∷ (8, t.nonce)
          ∷ (9, t.signature)
          ∷ [])

  unfoldable pub marshal_chunk_download : ChunkDownload → Result Bytes
  marshal_chunk_download r =
      validate_chunk_download r
      >> encode_id (
          (1, r.transfer_id)
          ∷ (2, put_u32 r.index)
          ∷ (3, put_u32 r.count)
          ∷ (4, r.mailbox_id)
          ∷ (5, r.read_secret)
          ∷ (if length r.ticket == 32 then (6, r.ticket) ∷ [] else []))

  unfoldable pub marshal_resume_request : ResumeRequest → Result Bytes
  marshal_resume_request r =
      validate_resume_request r
      >> encode_id (
          (1, r.transfer_id)
          ∷ (2, r.mailbox_id)
          ∷ (3, r.read_secret)
          ∷ (if ticket_mode r.ticket then (4, r.ticket) ∷ [] else []))

  unfoldable pub marshal_transfer_complete : TransferComplete → Result Bytes
  marshal_transfer_complete t =
      validate_transfer_complete t
      >> encode_id (
          (1, t.transfer_id)
          ∷ (2, t.manifest_hash)
          ∷ (3, t.mailbox_id)
          ∷ (4, t.sender_pub)
          ∷ (5, put_u64 t.timestamp)
          ∷ (6, t.nonce)
          ∷ (7, t.signature)
          ∷ [])

  unfoldable pub marshal_transfer_cancel : TransferCancel → Result Bytes
  marshal_transfer_cancel t =
      if not (length t.transfer_id == 16)
        || not (length t.mailbox_id == 16)
        || not (length t.read_secret == 32)
      then fail err_invalid_request "bad transfer cancel"
      else encode_id
          ((1, t.transfer_id) ∷ (2, t.mailbox_id) ∷ (3, t.reason ∷ []) ∷ (4, t.read_secret) ∷ [])
