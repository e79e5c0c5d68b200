-- ===== src/Client/Sending.antt =====
-- A message of the adapter (client/adapter.go) at the shard (server/shard/handler.go).
use nex_talk_file_relay.Base.{ℕ, ◌<◌, ◌≤◌, ◌≡◌, refl, arith, Bool, true, List, some, Bytes, length}
use nex_talk_file_relay.Protocol.Limits.{max_request_bytes}
use nex_talk_file_relay.Protocol.Errors.{Result, ok, ◌>>◌}
use nex_talk_file_relay.Protocol.Codec.{Field, marshal_send_message}
use nex_talk_file_relay.Protocol.Codec.Roundtrip.{unmarshal_send_message-marshal}
use nex_talk_file_relay.Protocol.Auth.{
  canonical_msg_send, check_skew, verify_signed, verify_msg_send,
}
use nex_talk_file_relay.Store.Types.{to_array}
use nex_talk_file_relay.Shard.Http.{HttpRequest, post, read_body, post_body, to16, to32, or_fail}
use nex_talk_file_relay.Shard.Handler.{checked_send}
use nex_talk_file_relay.Client.Adapter.{now_millis, signed_message}

post_body-fits :
    (r : HttpRequest) (body : Bytes) (limit : ℕ)
    → r.method ≡ post
    → r.content_length ≤ limit
    → r.body ≡ some body
    → 0 < length body
    → length body ≤ limit
    → post_body r limit ≡ ok body
unfolding post_body read_body
post_body-fits r body limit is_post small given some_bytes fits = ground arith

module _ (sha256 : Bytes → Bytes) (sign : Bytes → Bytes) (verify : Bytes → Bytes → Bytes → Bool)
    (pub_key : Bytes) (signed : (m : Bytes) → verify pub_key m (sign m) ≡ true)
    (sig_size : (m : Bytes) → length (sign m) ≡ 64) where
  verify_msg_send-signed :
      (mailbox_id nonce payload : Bytes) (now : ℕ)
      → length pub_key ≡ 32
      → let m = signed_message sha256 sign pub_key mailbox_id nonce payload in
        verify_msg_send verify sha256 pub_key mailbox_id now_millis nonce payload m.signature now
        ≡ check_skew now_millis now
  unfolding verify_msg_send verify_signed signed_message
  verify_msg_send-signed mailbox_id nonce payload now wide =
      let bytes =
        canonical_msg_send sha256 (to_array 32 pub_key) mailbox_id now_millis nonce payload in
      ground (arith, signed bytes, sig_size bytes)

  module _ (encode_id : List Field → Result Bytes) (decode_id : Bytes → Result (List Field))
      (inverse : (fs : List Field) (body : Bytes)
        → encode_id fs ≡ ok body
        → decode_id body ≡ ok fs) where
    -- A message that the adapter signs and encodes passes every check of the shard but the one of the
    -- clock, which compares the shard's clock with the adapter's constant. The key has 32 bytes, the
    -- IDs 16, and the body arrives whole, as a POST, within the limit.
    pub checked_send-signed_message :
        (mailbox_id nonce payload body : Bytes) (r : HttpRequest) (now : ℕ)
        → length pub_key ≡ 32
        → length mailbox_id ≡ 16
        → length nonce ≡ 16
        → marshal_send_message encode_id
            (signed_message sha256 sign pub_key mailbox_id nonce payload)
          ≡ ok body
        → r.method ≡ post
        → r.content_length ≤ max_request_bytes
        → r.body ≡ some body
        → 0 < length body
        → length body ≤ max_request_bytes
        → checked_send sha256 decode_id verify now r ≡ (
            check_skew now_millis now
            >> ok (signed_message sha256 sign pub_key mailbox_id nonce payload))
    unfolding checked_send to16 to32 or_fail signed_message
    checked_send-signed_message mailbox_id nonce payload body r now wide mid_size nonce_size encoded
          is_post small given some_bytes fits =
        let m = signed_message sha256 sign pub_key mailbox_id nonce payload in
        let decoded =
          unmarshal_send_message-marshal encode_id decode_id inverse m body (omega arith)
            (omega arith) encoded fits in
        let arrived = post_body-fits r body max_request_bytes is_post small given some_bytes fits in
        let ours = verify_msg_send-signed mailbox_id nonce payload now wide in
        rw (arrived, decoded, wide, mid_size, nonce_size, ours) refl
