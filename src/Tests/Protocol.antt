-- ===== src/Tests/Protocol.antt =====
-- The wire contract on concrete numbers and messages.
use nex_talk_file_relay.Base.{ℕ, ◌≤◌, ◌+◌, ◌^◌, ◌≡◌, ◌≢◌, ◌⊎◌, ◌↔◌, refl, arith, [], ◌∷◌, Bytes}
use nex_talk_file_relay.Protocol.Errors.{ok}
use nex_talk_file_relay.Protocol.Validate.{
  validate_transfer_create, validate_send_message, validate_chunk_upload,
}
use nex_talk_file_relay.Protocol.Validate.Bounds.{Geometry, validate_transfer_create-Geometry}
use nex_talk_file_relay.Protocol.Wire.{put_u32, put_u64}
use nex_talk_file_relay.Protocol.Codec.{
  marshal_send_message, marshal_chunk_upload, unmarshal_send_message, unmarshal_chunk_upload,
}
use nex_talk_file_relay.Protocol.Codec.Roundtrip.{
  unmarshal_send_message-marshal, unmarshal_chunk_upload-marshal,
}
use nex_talk_file_relay.Protocol.Auth.{
  check_skew, canonical_msg_send, canonical_register, canonical_xfer_complete,
  canonical_xfer_create,
}
use nex_talk_file_relay.Protocol.Auth.Skew.{check_skew_iff}
use nex_talk_file_relay.Protocol.Auth.Canonical.{canonical_msg_send-inj, canonical_msg_send-domains}
use nex_talk_file_relay.Tests.Nanopack.{encode_id, decode_id, inverse, flatten}
use nex_talk_file_relay.Tests.Data.{cut, key, mailbox_id, nonce, secret, message, chunk}

validate_transfer_create-Geometry_example : Geometry 10 4 3
unfolding validate_transfer_create
validate_transfer_create-Geometry_example = validate_transfer_create-Geometry 10 4 3 refl

check_skew_iff_example :
    (check_skew 70001 40000 ≡ ok tt)
    ↔ (((40000 ≤ 70001 + 30000) × (70001 ≤ 40000 + 30000)) ⊎ (◌≡◌ {A = ℕ} 70001 (40000 + 2 ^ 63)))
check_skew_iff_example = check_skew_iff 70001 40000 (omega arith) (omega arith) (omega arith)

canonical_msg_send-inj_example :
    (key ≡ key)
    × (mailbox_id ≡ mailbox_id)
    × (◌≡◌ {A = ℕ} 40000 40000)
    × (nonce ≡ nonce)
    × (cut (1 ∷ []) ≡ cut (1 ∷ 0 ∷ []))
unfolding canonical_msg_send
canonical_msg_send-inj_example =
    canonical_msg_send-inj cut key key mailbox_id mailbox_id 40000 40000 nonce nonce (1 ∷ [])
      (1 ∷ 0 ∷ []) refl refl refl (omega arith) (omega arith) refl

canonical_msg_send-domains_example :
    (canonical_msg_send cut key mailbox_id 40000 nonce [] ≢ canonical_register key 40000 nonce)
    × (canonical_msg_send cut key mailbox_id 40000 nonce []
        ≢ canonical_xfer_complete key mailbox_id secret 40000 nonce)
    × (canonical_msg_send cut key mailbox_id 40000 nonce []
        ≢ canonical_xfer_create cut key mailbox_id 3 4 1 40000 nonce [])
canonical_msg_send-domains_example =
    canonical_msg_send-domains cut key mailbox_id 40000 nonce [] key mailbox_id secret 40000 nonce
      [] 3 4 1

abbrev message_body : Bytes
message_body = flatten (
    (1, message.mailbox_id)
    ∷ (2, message.envelope)
    ∷ (3, message.sender_pub)
    ∷ (4, put_u64 message.timestamp)
    ∷ (5, message.nonce)
    ∷ (6, message.signature)
    ∷ (7, put_u32 message.ttl_hint_sec)
    ∷ (8, message.burn ∷ [])
    ∷ [])

unmarshal_send_message-marshal_example : unmarshal_send_message decode_id message_body ≡ ok message
unfolding marshal_send_message validate_send_message flatten put_u64 put_u32
unmarshal_send_message-marshal_example =
    unmarshal_send_message-marshal encode_id decode_id inverse message message_body (omega arith)
      (omega arith) refl (omega arith)

abbrev chunk_body : Bytes
chunk_body = flatten (
    (1, chunk.transfer_id)
    ∷ (2, put_u32 chunk.index)
    ∷ (3, chunk.payload)
    ∷ (5, put_u64 chunk.offset)
    ∷ [])

unmarshal_chunk_upload-marshal_example : unmarshal_chunk_upload decode_id chunk_body ≡ ok chunk
unfolding marshal_chunk_upload validate_chunk_upload flatten put_u64 put_u32
unmarshal_chunk_upload-marshal_example =
    unmarshal_chunk_upload-marshal encode_id decode_id inverse chunk chunk_body (omega arith)
      (omega arith) refl (omega arith)
