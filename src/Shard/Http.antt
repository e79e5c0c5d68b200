-- ===== src/Shard/Http.antt =====
-- What the handlers of server/shard/handler.go read and write: the request as net/http gives it, and
-- the answer before it is encoded.
use nex_talk_file_relay.Base.{
  ℕ, ◌/◌, ◌%◌, Bool, not, ◌&&◌, ◌||◌, List, [], ◌∷◌, Option, none, some, Bytes, ltb, ◌==◌, length,
  if◌then◌else◌,
}
use nex_talk_file_relay.Protocol.Limits.{
  max_message_bytes, max_chunk_bytes, max_batch_messages, max_missing_ranges,
  max_chunks_per_transfer,
}
use nex_talk_file_relay.Protocol.Errors.{
  ProtocolError, Result, ok, err, fail, err_invalid_request, err_auth_failed, err_replay_detected,
  err_expired_request, err_mailbox_not_found, err_mailbox_expired, err_message_too_large,
  err_quota_exceeded, err_transfer_not_found, err_transfer_expired, err_chunk_invalid,
  err_chunk_conflict, err_chunk_out_of_range, err_storage_unavailable, err_rate_limited,
  err_server_unavailable, err_transfer_conflict, err_hash_mismatch, err_payload_too_large,
  err_batch_too_large,
}
use nex_talk_file_relay.Store.Types.{StoredMessage, ResumeView}

pub data Method : Type 0 where
  get post other : Method

-- `client_ip` is what `clientIP` finds in the headers or the remote address, `content_length` the
-- declared length (0 if there is none), and `body` what reading gives, if it does not fail.
pub record HttpRequest : Type 0 where
  pub method : Method
  pub content_length : ℕ
  pub body : Option Bytes
  pub client_ip : Bytes

-- The responses, by their schema.
pub data Reply : Type 0 where
  hello : ℕ → ℕ → ℕ → Reply
  send_message_response : ℕ → ℕ → Bytes → Reply
  receive_messages_response : List StoredMessage → Bool → Reply
  message_ack_response : ℕ → ℕ → Reply
  transfer_create_response : Bytes → ℕ → ℕ → Bytes → Reply
  chunk_ack : Bytes → ResumeView → Reply
  chunk_download_response : Bytes → ℕ → Bytes → Bytes → Reply
  resume_response : Bytes → ResumeView → Reply
  transfer_complete_response : ℕ → ℕ → ℕ → Reply

-- Status 200 with a message, or an error with its status.
pub data Response : Type 0 where
  answer : Reply → Response
  refusal : ℕ → ProtocolError → Response

unfoldable pub http_status_for : ℕ → ℕ
http_status_for code =
    if code == err_invalid_request
      || code == err_chunk_invalid
      || code == err_hash_mismatch
      || code == err_expired_request
      || code == err_batch_too_large
    then 400
    else if code == err_auth_failed
    then 401
    else if code == err_replay_detected
        || code == err_chunk_conflict
        || code == err_transfer_conflict
    then 409
    else if code == err_mailbox_not_found || code == err_transfer_not_found
    then 404
    else if code == err_mailbox_expired || code == err_transfer_expired
    then 410
    else if code == err_message_too_large
        || code == err_payload_too_large
        || code == err_chunk_out_of_range
    then 413
    else if code == err_quota_exceeded || code == err_rate_limited
    then 429
    else if code == err_storage_unavailable || code == err_server_unavailable
    then 503
    else 400

unfoldable pub write_error : ProtocolError → Response
write_error pe = refusal (http_status_for pe.code) (
    if pe.code == err_rate_limited && pe.retry_after == 0
    then record pe { retry_after = 60 }
    else pe)

-- The reader stops one byte after the limit, so what is read is too long exactly if the body is.
unfoldable pub read_body : HttpRequest → ℕ → Result Bytes
read_body r limit =
    if ltb limit r.content_length
    then fail err_payload_too_large "body exceeds limit"
    else elim r.body [
      | none ↦ fail err_invalid_request "unreadable body"
      | some b ↦
          if ltb limit (length b)
          then fail err_payload_too_large "body exceeds limit"
          else if length b == 0
          then fail err_invalid_request "empty body"
          else ok b
    ]

-- `if r.Method != http.MethodPost` and `readBody`, which every handler but that of hello starts with.
unfoldable pub post_body : HttpRequest → ℕ → Result Bytes
post_body r limit = elim r.method [
  | post ↦ read_body r limit
  | _ ↦ fail err_invalid_request "method not allowed"
]

unfoldable pub to32 : Bytes → Option Bytes
to32 b = if length b == 32 then some b else none

unfoldable pub to16 : Bytes → Option Bytes
to16 b = if length b == 16 then some b else none

-- `if !ok` after `to32` and `to16`
unfoldable pub or_fail {ℓ} : {A : Type ℓ} → Option A → Result A → Result A
or_fail none e = e
or_fail (some a) e = ok a

-- The loop of `MarshalReceiveMessagesResponse`.
unfoldable pub check_received : List StoredMessage → Result (Unit {0})
check_received [] = ok tt
check_received (m ∷ ms) =
    if not (length m.id == 16)
    then fail err_invalid_request "msg_id must be 16 bytes"
    else if length m.envelope == 0 || ltb max_message_bytes (length m.envelope)
    then fail err_message_too_large "envelope out of bounds"
    else check_received ms

-- What the encoders of the responses refuse.
unfoldable pub check_reply : Reply → Result (Unit {0})
check_reply (send_message_response accepted queued id) =
    if not (length id == 16) then fail err_invalid_request "msg_id must be 16 bytes" else ok tt
check_reply (receive_messages_response ms consumed) =
    if ltb max_batch_messages (length ms)
    then fail err_batch_too_large "batch too large"
    else check_received ms
check_reply (transfer_create_response id expires_at chunk_size ticket) =
    if not (length id == 16)
    then fail err_invalid_request "transfer_id must be 16 bytes"
    else if not (length ticket == 32)
    then fail err_invalid_request "download_secret must be 32 bytes"
    else ok tt
check_reply (chunk_ack id v) =
    if not (length id == 16)
    then fail err_invalid_request "transfer_id must be 16 bytes"
    else if not (length v.missing_ranges % 8 == 0)
    then fail err_invalid_request "missing_ranges must be n*8 bytes"
    else if ltb max_missing_ranges (length v.missing_ranges / 8)
    then fail err_invalid_request "too many missing ranges"
    else ok tt
check_reply (chunk_download_response id index payload hash) =
    if not (length id == 16)
      || length payload == 0
      || ltb max_chunk_bytes (length payload)
      || not (length hash == 32)
    then fail err_invalid_request "bad chunk response"
    else ok tt
check_reply (resume_response id v) =
    if not (length id == 16) || v.chunk_count == 0 || ltb max_chunks_per_transfer v.chunk_count
    then fail err_invalid_request "bad resume response"
    else ok tt
check_reply _ = ok tt

-- The end of a handler: the response is encoded and written, or the error is.
unfoldable pub write_result : Result Reply → Response
write_result (err e) = write_error e
write_result (ok r) = elim (check_reply r) [ err e ↦ write_error e | ok _ ↦ answer r ]
