-- ===== src/Tests/Client.antt =====
-- The adapter: a file in chunks, and a message that the shard checks.
use nex_talk_file_relay.Base.{◌≡◌, refl, arith, true, Bool, [], ◌∷◌, some, Bytes, List}
use nex_talk_file_relay.Protocol.Errors.{ok, ◌>>◌}
use nex_talk_file_relay.Protocol.Wire.{put_u32, put_u64}
use nex_talk_file_relay.Protocol.Validate.{validate_transfer_create, validate_send_message}
use nex_talk_file_relay.Protocol.Codec.{marshal_send_message}
use nex_talk_file_relay.Protocol.Auth.{check_skew}
use nex_talk_file_relay.Shard.Http.{HttpRequest, post}
use nex_talk_file_relay.Shard.Handler.{checked_send}
use nex_talk_file_relay.Client.Adapter.{now_millis, split_loop, split_opaque, signed_message}
use nex_talk_file_relay.Client.Chunks.{AreChunks, split_opaque-AreChunks}
use nex_talk_file_relay.Client.Sending.{checked_send-signed_message}
use nex_talk_file_relay.Tests.Nanopack.{encode_id, decode_id, inverse, flatten}
use nex_talk_file_relay.Tests.Data.{cut, key, mailbox_id, nonce, signature}

abbrev file : Bytes
file = 1 ∷ 2 ∷ 3 ∷ 4 ∷ 5 ∷ []

abbrev pieces : List Bytes
pieces = (1 ∷ 2 ∷ []) ∷ (3 ∷ 4 ∷ []) ∷ (5 ∷ []) ∷ []

split_opaque-AreChunks_example : AreChunks 2 file pieces × (validate_transfer_create 5 2 3 ≡ ok tt)
unfolding split_opaque split_loop
split_opaque-AreChunks_example =
    split_opaque-AreChunks file 2 pieces (omega arith) (omega arith) refl

-- One signature for everything, which is accepted.
abbrev accept : Bytes → Bytes → Bytes → Bool
accept p m sig = true

abbrev sign : Bytes → Bytes
sign m = signature

abbrev body : Bytes
body = flatten (
    (1, mailbox_id)
    ∷ (2, 10 ∷ [])
    ∷ (3, key)
    ∷ (4, put_u64 now_millis)
    ∷ (5, nonce)
    ∷ (6, signature)
    ∷ (7, put_u32 1209600)
    ∷ (8, 1 ∷ [])
    ∷ [])

abbrev request : HttpRequest
request = record { method = post; content_length = 0; body = some body; client_ip = [] }

checked_send-signed_message_example : checked_send cut decode_id accept 1760000000000 request ≡ (
    check_skew now_millis 1760000000000
    >> ok (signed_message cut sign key mailbox_id nonce (10 ∷ [])))
unfolding marshal_send_message validate_send_message signed_message flatten put_u32 put_u64
checked_send-signed_message_example =
    checked_send-signed_message cut sign accept key (λ m. refl) (λ m. refl) encode_id decode_id
      inverse mailbox_id nonce (10 ∷ []) body request 1760000000000 refl refl refl refl refl
      (omega arith) refl (omega arith) (omega arith)
