-- ===== src/Protocol/Validate.antt =====
-- The `Validate*` functions of protocol/schemas.go, protocol/messages.go and protocol/transfers.go.
pub mod Bounds
use nex_talk_file_relay.Base.{
  ℕ, zero, ◌+◌, ◌-◌, ◌/◌, ◌%◌, ◌^◌, Bool, true, false, not, ◌&&◌, ◌||◌, List, [], ◌∷◌, Bytes, ltb,
  leb, ◌==◌, length, if◌then◌else◌,
}
use nex_talk_file_relay.Protocol.Limits.{
  max_message_bytes, max_chunk_bytes, max_file_bytes, max_chunks_per_transfer, max_manifest_bytes,
  max_batch_messages,
}
use nex_talk_file_relay.Protocol.Errors.{
  Result, ok, fail, ◌>>=◌, ◌>>◌, err_invalid_request, err_message_too_large, err_auth_failed,
  err_chunk_invalid, err_chunk_out_of_range, err_payload_too_large,
}
use nex_talk_file_relay.Protocol.Messages.{
  SendMessage, ReceiveMessages, MessageAck, TransferCreate, ChunkUpload, ChunkDownload,
  ResumeRequest, TransferComplete, ack_received, ack_consumed,
}

unfoldable pub validate_send_message : SendMessage → Result (Unit {0})
validate_send_message m =
    if not (length m.mailbox_id == 16)
    then fail err_invalid_request "mailbox_id must be 16 bytes"
    else if length m.envelope == 0 || ltb max_message_bytes (length m.envelope)
    then fail err_message_too_large "envelope size out of bounds"
    else if not (length m.sender_pub == 32)
    then fail err_auth_failed "sender_pub must be 32 bytes"
    else if not (length m.nonce == 16)
    then fail err_invalid_request "nonce must be 16 bytes"
    else if not (length m.signature == 64)
    then fail err_auth_failed "signature must be 64 bytes"
    else ok tt

unfoldable pub validate_receive_messages : ReceiveMessages → Result (Unit {0})
validate_receive_messages r =
    if not (length r.mailbox_id == 16)
    then fail err_invalid_request "mailbox_id must be 16 bytes"
    else if not (length r.read_secret == 32)
    then fail err_auth_failed "read_secret must be 32 bytes"
    else ok tt

-- The loop over `MsgIDs`: the first entry that is not 16 bytes fails.
unfoldable pub check_msg_ids : List Bytes → Result (Unit {0})
check_msg_ids [] = ok tt
check_msg_ids (id ∷ ids) =
    if not (length id == 16)
    then fail err_invalid_request "msg_id must be 16 bytes"
    else check_msg_ids ids

unfoldable pub validate_message_ack : MessageAck → Result (Unit {0})
unfolding check_msg_ids
validate_message_ack a =
    if not (length a.mailbox_id == 16)
    then fail err_invalid_request "mailbox_id must be 16 bytes"
    else if not (length a.read_secret == 32)
    then fail err_auth_failed "read_secret must be 32 bytes"
    else if length a.msg_ids == 0 || ltb max_batch_messages (length a.msg_ids)
    then fail err_invalid_request "msg_ids count out of bounds"
    else (check_msg_ids a.msg_ids
        >> (if not (a.disposition == ack_received) && not (a.disposition == ack_consumed)
            then fail err_invalid_request "bad disposition"
            else ok tt))

unfoldable pub validate_chunk_upload : ChunkUpload → Result (Unit {0})
validate_chunk_upload c =
    if not (length c.transfer_id == 16)
    then fail err_invalid_request "transfer_id must be 16 bytes"
    else if length c.payload == 0 || ltb max_chunk_bytes (length c.payload)
    then fail err_chunk_invalid "payload size out of bounds"
    else if not (length c.chunk_hash == 0) && not (length c.chunk_hash == 32)
    then fail err_chunk_invalid "chunk_hash must be 32 bytes"
    else if leb max_chunks_per_transfer c.index
    then fail err_chunk_out_of_range "index out of range"
    else ok tt

-- `totalSize` is a `uint64`, and the quotient is cut to a `uint32`.
unfoldable pub validate_transfer_create : ℕ → ℕ → ℕ → Result (Unit {0})
validate_transfer_create total_size chunk_size chunk_count =
    if chunk_size == 0 || ltb max_chunk_bytes chunk_size
    then fail err_chunk_invalid "chunk_size out of bounds"
    else if chunk_count == 0 || ltb max_chunks_per_transfer chunk_count
    then fail err_chunk_out_of_range "chunk_count out of bounds"
    else if total_size == 0 || ltb max_file_bytes total_size
    then fail err_payload_too_large "total_size out of bounds"
    else if not (((total_size + chunk_size - 1) / chunk_size) % 2 ^ 32 == chunk_count)
    then fail err_chunk_invalid "chunk_count mismatch"
    else ok tt

unfoldable pub validate_transfer_create_msg : TransferCreate → Result (Unit {0})
unfolding validate_transfer_create
validate_transfer_create_msg t =
    if not (length t.mailbox_id == 0) && not (length t.mailbox_id == 16)
    then fail err_invalid_request "mailbox_id must be 0 or 16 bytes"
    else (validate_transfer_create t.total_size t.chunk_size t.chunk_count
        >> (if ltb max_manifest_bytes (length t.manifest)
            then fail err_payload_too_large "manifest too large"
            else if not (length t.sender_pub == 32)
            then fail err_auth_failed "sender_pub must be 32 bytes"
            else if not (length t.nonce == 16)
            then fail err_invalid_request "nonce must be 16 bytes"
            else if not (length t.signature == 64)
            then fail err_auth_failed "signature must be 64 bytes"
            else ok tt))

-- `TicketMode` of both download requests.
abbrev pub ticket_mode : Bytes → Bool
ticket_mode ticket = length ticket == 32

-- `Index + Count` is only computed where `Index` is small, so the `uint32` sum is exact.
unfoldable pub validate_chunk_download : ChunkDownload → Result (Unit {0})
validate_chunk_download r =
    if not (length r.transfer_id == 16)
    then fail err_invalid_request "transfer_id must be 16 bytes"
    else ((if ticket_mode r.ticket
          then (if not (length r.mailbox_id == 0) || not (length r.read_secret == 0)
              then fail err_invalid_request "ticket mode: mailbox and read_secret must be empty"
              else ok tt)
          else if not (length r.mailbox_id == 16)
          then fail err_invalid_request "mailbox_id must be 16 bytes"
          else if not (length r.read_secret == 32)
          then fail err_auth_failed "read_secret must be 32 bytes"
          else ok tt)
        >> (if r.count == 0 || ltb max_batch_messages r.count
            then fail err_invalid_request "count out of bounds"
            else if leb max_chunks_per_transfer r.index
                || ltb max_chunks_per_transfer ((r.index + r.count) % 2 ^ 32)
            then fail err_chunk_out_of_range "range out of bounds"
            else ok tt))

unfoldable pub validate_resume_request : ResumeRequest → Result (Unit {0})
validate_resume_request r =
    if not (length r.transfer_id == 16)
    then fail err_invalid_request "transfer_id must be 16 bytes"
    else if ticket_mode r.ticket
    then (if not (length r.mailbox_id == 0) || not (length r.read_secret == 0)
        then fail err_invalid_request "ticket mode: mailbox and read_secret must be empty"
        else ok tt)
    else if not (length r.mailbox_id == 16) || not (length r.read_secret == 32)
    then fail err_invalid_request "bad resume request"
    else ok tt

unfoldable pub validate_transfer_complete : TransferComplete → Result (Unit {0})
validate_transfer_complete t =
    if not (length t.transfer_id == 16)
      || not (length t.manifest_hash == 32)
      || not (length t.sender_pub == 32)
      || not (length t.nonce == 16)
      || not (length t.signature == 64)
    then fail err_invalid_request "bad transfer complete"
    else if not (length t.mailbox_id == 0) && not (length t.mailbox_id == 16)
    then fail err_invalid_request "mailbox_id must be 0 or 16 bytes"
    else ok tt
