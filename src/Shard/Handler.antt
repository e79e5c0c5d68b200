-- ===== src/Shard/Handler.antt =====
-- The handlers of server/shard/handler.go, one function per route. A handler reads the clock once
-- (`now`), and the store reads its own at each call (`store_now`); one reading is used for all the
-- calls of a request. `verify` is Ed25519, `decode_id` is nanopack's decoder, and what the store
-- draws at random (IDs, tickets) is an argument.
mod Parts
pub mod Replays
unfoldable pub use Parts.*
use nex_talk_file_relay.Base.{
  ℕ, ◌+◌, ◌*◌, Bool, true, false, not, List, [], ◌∷◌, ◌++◌, Option, none, some, Bytes, bytes_eq,
  leb, ◌==◌, length, if◌then◌else◌,
}
use nex_talk_file_relay.Base.Map.{Map}
use nex_talk_file_relay.Protocol.Limits.{
  max_request_bytes, max_chunk_bytes, max_manifest_bytes, max_batch_messages,
}
use nex_talk_file_relay.Protocol.Errors.{
  ProtocolError, Result, ok, err, fail, ◌>>=◌, ◌>>◌, err_invalid_request, err_auth_failed,
  err_replay_detected, err_rate_limited,
}
use nex_talk_file_relay.Protocol.Messages.{
  SendMessage, ReceiveMessages, MessageAck, TransferCreate, ChunkUpload, ChunkDownload,
  ResumeRequest, TransferComplete, TransferCancel,
}
use nex_talk_file_relay.Protocol.Validate.{ticket_mode}
use nex_talk_file_relay.Protocol.Codec.{
  Field, check_body_len, unmarshal_hello, unmarshal_send_message, unmarshal_chunk_upload,
  unmarshal_receive_messages, unmarshal_message_ack, unmarshal_transfer_create,
  unmarshal_chunk_download, unmarshal_resume_request, unmarshal_transfer_complete,
  unmarshal_transfer_cancel,
}
use nex_talk_file_relay.Protocol.Auth.{verify_msg_send, verify_xfer_create, verify_xfer_complete}
use nex_talk_file_relay.Store.Types.{MemStore, Outcome, ResumeView, TransferView, to_array}
use nex_talk_file_relay.Store.Messages.{send_message, receive_messages, ack_messages}
use nex_talk_file_relay.Store.Transfers.{
  create_transfer, put_chunk, cancel_transfer, complete_transfer, get_transfer,
}
use nex_talk_file_relay.Store.Downloads.{
  get_chunk, get_chunk_by_ticket, resume, resume_by_ticket, progress,
}
use nex_talk_file_relay.Store.Replay.{check_and_mark_replay}
use nex_talk_file_relay.Shard.Limiter.{
  RateLimits, Window, allow_all, send_sender_key, send_target_key, send_ip_key, recv_ip_key,
  create_sender_key, create_ip_key, put_xfer_key, put_ip_key,
}
use nex_talk_file_relay.Shard.Http.{
  Method, get, post, other, HttpRequest, Reply, hello, send_message_response,
  receive_messages_response, message_ack_response, transfer_create_response, chunk_ack,
  chunk_download_response, resume_response, transfer_complete_response, Response, write_error,
  write_result, read_body, post_body, to32, to16, or_fail,
}

module _ (sha256 : Bytes → Bytes) (decode_id : Bytes → Result (List Field)) where
  unfoldable pub handle_hello : ℕ → HttpRequest → Shard → Response × Shard
  handle_hello now r h =
      let greeting = write_result (ok (hello 1 1 now)) in
      elim r.method [
        | get ↦ (greeting, h)
        | post ↦ front (read_body r 64 >>= unmarshal_hello decode_id) h λ _. (greeting, h)
        | other ↦ (
          write_error
              record { code = err_invalid_request; detail = "method not allowed"; retry_after = 0 },
          h,
        )
      ]

  unfoldable pub handle_receive : ℕ → ℕ → HttpRequest → Shard → Response × Shard
  handle_receive now store_now r h =
      front (post_body r 256 >>= unmarshal_receive_messages decode_id) h λ req.
        limited now ((recv_ip_key r.client_ip, h.limits.receives_per_ip) ∷ []) h λ h'.
          let limit = if leb req.limit 0 then max_batch_messages else req.limit in
          finish h'
            (receive_messages sha256 store_now (to_array 16 req.mailbox_id) req.read_secret limit
              (req.peek == 1) h'.store)
            λ (ms, consumed). receive_messages_response ms consumed

  unfoldable pub handle_ack : ℕ → HttpRequest → Shard → Response × Shard
  handle_ack store_now r h =
      front (post_body r (max_batch_messages * 16 + 256) >>= unmarshal_message_ack decode_id) h
        λ req.
          finish h
            (ack_messages sha256 store_now (to_array 16 req.mailbox_id) req.read_secret req.msg_ids
              req.disposition h.store)
            λ (acked, remaining). message_ack_response acked remaining

  -- The acknowledgement is made from what the store then says of the progress.
  unfoldable pub handle_put : ℕ → ℕ → HttpRequest → Shard → Response × Shard
  handle_put now store_now r h =
      front (post_body r (max_chunk_bytes + 2048) >>= unmarshal_chunk_upload decode_id) h λ req.
        let tid = to_array 16 req.transfer_id in
        limited now
          ((put_xfer_key req.transfer_id, h.limits.puts_per_xfer)
            ∷ (put_ip_key r.client_ip, h.limits.puts_per_ip)
            ∷ [])
          h
          λ h'.
            then_call h' (put_chunk sha256 store_now req h'.store)
              λ _ h''. finish h'' (progress store_now tid h''.store) λ (rv, tv). chunk_ack tid rv

  unfoldable pub handle_get : ℕ → HttpRequest → Shard → Response × Shard
  handle_get store_now r h = front (post_body r 256 >>= unmarshal_chunk_download decode_id) h λ req.
      let tid = to_array 16 req.transfer_id in
      let mid = to_array 16 req.mailbox_id in
      if not (req.count == 1)
      then (
        write_error record {
          code = err_invalid_request;
          detail = "count must be 1 in v1";
          retry_after = 0;
        },
        h,
      )
      else finish h
          (if ticket_mode req.ticket
            then get_chunk_by_ticket sha256 store_now tid req.ticket req.index h.store
            else get_chunk sha256 store_now tid mid req.read_secret req.index h.store)
          λ (payload, hash). chunk_download_response tid req.index payload hash

  unfoldable pub handle_resume : ℕ → HttpRequest → Shard → Response × Shard
  handle_resume store_now r h =
      front (post_body r 256 >>= unmarshal_resume_request decode_id) h λ req.
        let tid = to_array 16 req.transfer_id in
        let mid = to_array 16 req.mailbox_id in
        finish h
          (if ticket_mode req.ticket
            then resume_by_ticket sha256 store_now tid req.ticket h.store
            else resume sha256 store_now tid mid req.read_secret h.store)
          λ (rv, tv). resume_response tid rv

  unfoldable pub handle_cancel : ℕ → HttpRequest → Shard → Response × Shard
  handle_cancel store_now r h =
      front (post_body r 256 >>= unmarshal_transfer_cancel decode_id) h λ req.
        finish h
          (cancel_transfer sha256 store_now (to_array 16 req.transfer_id)
            (to_array 16 req.mailbox_id) req.read_secret h.store)
          λ _. message_ack_response 1 0

module _ (sha256 : Bytes → Bytes) (decode_id : Bytes → Result (List Field))
    (verify : Bytes → Bytes → Bytes → Bool) where
  -- What `handleSend` checks before it touches the store: the request that it goes on with.
  unfoldable pub checked_send : ℕ → HttpRequest → Result SendMessage
  checked_send now r = do
    raw ← post_body r max_request_bytes
    msg ← unmarshal_send_message decode_id raw
    key ← or_fail (to32 msg.sender_pub) (fail err_auth_failed "bad sender pub")
    mid ← or_fail (to16 msg.mailbox_id) (fail err_invalid_request "bad mailbox")
    nonce ← or_fail (to16 msg.nonce) (fail err_invalid_request "bad nonce")
    u ←
        verify_msg_send verify sha256 msg.sender_pub mid msg.timestamp nonce msg.envelope
          msg.signature now
    ok msg

  unfoldable pub handle_send : ℕ → ℕ → Bytes → HttpRequest → Shard → Response × Shard
  handle_send now store_now id r h = front (checked_send now r) h λ msg.
      unless_replay store_now (replay_key sha256 replay_domain_msg msg.sender_pub msg.nonce) h λ h'.
        limited now
          ((send_sender_key msg.sender_pub, h.limits.sends_per_sender)
            ∷ (send_target_key msg.mailbox_id, h.limits.sends_per_target)
            ∷ (send_ip_key r.client_ip, h.limits.sends_per_ip)
            ∷ [])
          h'
          λ h''.
            finish h'' (send_message store_now id msg h''.store)
              λ (msg_id, queued). send_message_response 1 queued msg_id

  unfoldable pub checked_create : ℕ → HttpRequest → Result TransferCreate
  checked_create now r = do
    raw ← post_body r (max_manifest_bytes + 512)
    req ← unmarshal_transfer_create decode_id raw
    key ← or_fail (to32 req.sender_pub) (fail err_auth_failed "bad sender pub")
    nonce ← or_fail (to16 req.nonce) (fail err_invalid_request "bad nonce")
    u ←
        verify_xfer_create verify sha256 req.sender_pub
          (to_array 16 (if length req.mailbox_id == 16 then req.mailbox_id else [])) req.total_size
          req.chunk_size req.chunk_count req.timestamp nonce req.manifest req.signature now
    ok req

  unfoldable pub handle_create :
      ℕ → ℕ → Bytes → Option Bytes → HttpRequest → Shard → Response × Shard
  handle_create now store_now id ticket r h = front (checked_create now r) h λ req.
      unless_replay store_now (replay_key sha256 replay_domain_create req.sender_pub req.nonce) h
        λ h'.
          limited now
            ((create_sender_key req.sender_pub, h.limits.sends_per_sender)
              ∷ (create_ip_key r.client_ip, h.limits.sends_per_ip)
              ∷ [])
            h'
            λ h''.
              finish h'' (create_transfer sha256 store_now id ticket req h''.store)
                λ (tid, secret, expires_at).
                  transfer_create_response tid expires_at req.chunk_size secret

  unfoldable pub checked_complete : ℕ → HttpRequest → Result TransferComplete
  checked_complete now r = do
    raw ← post_body r 512
    req ← unmarshal_transfer_complete decode_id raw
    key ← or_fail (to32 req.sender_pub) (fail err_auth_failed "bad sender pub")
    nonce ← or_fail (to16 req.nonce) (fail err_invalid_request "bad nonce")
    u ←
        verify_xfer_complete verify req.sender_pub (to_array 16 req.transfer_id)
          (to_array 32 req.manifest_hash) req.timestamp nonce req.signature now
    ok req

  unfoldable pub handle_complete : ℕ → ℕ → HttpRequest → Shard → Response × Shard
  handle_complete now store_now r h = front (checked_complete now r) h λ req.
      unless_replay store_now (replay_key sha256 replay_domain_complete req.sender_pub req.nonce) h
        λ h'. then_call h' (get_transfer store_now (to_array 16 req.transfer_id) h'.store) λ tv h''.
          if not (bytes_eq tv.sender_pub req.sender_pub)
          then (
            write_error
                record { code = err_auth_failed; detail = "sender mismatch"; retry_after = 0 },
            h'',
          )
          else finish h'' (complete_transfer store_now req h''.store) λ (is_sealed, present, count).
            transfer_complete_response (if is_sealed then 1 else 0) count present
