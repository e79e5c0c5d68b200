-- ===== src/Tests/Shard.antt =====
-- The HTTP edge on a concrete signed request.
use nex_talk_file_relay.Base.{
  ◌≤◌, ◌+◌, ◌≡◌, refl, arith, [], ◌∷◌, Bytes, Bool, true, false, some, bytes_eq, bytes_key, map,
  take, drop, replicate, if◌then◌else◌,
}
use nex_talk_file_relay.Base.Map.{lookup, insert}
use nex_talk_file_relay.Protocol.Errors.{ok}
use nex_talk_file_relay.Protocol.Validate.{validate_send_message}
use nex_talk_file_relay.Protocol.Codec.{
  check_body_len, set_fields, set_send_message, unmarshal, unmarshal_send_message,
}
use nex_talk_file_relay.Protocol.Wire.{put_u32, put_u64, get_u32, get_u64, get_u8, be_u32}
use nex_talk_file_relay.Protocol.Auth.{
  check_skew, abs_int64, sub_int64, verify_signed, verify_msg_send,
}
use nex_talk_file_relay.Store.Types.{StoredMessage, put_mailbox}
use nex_talk_file_relay.Store.Mailboxes.{
  get_mailbox_locked, secret_matches, slide_mailbox, prune_messages_locked, prune_loop,
}
use nex_talk_file_relay.Store.Mailboxes.Prune.{with_queue}
use nex_talk_file_relay.Store.Messages.{send_message, enqueue, clamp_limit}
use nex_talk_file_relay.Store.Messages.Batch.{backlog, Owns}
use nex_talk_file_relay.Store.Replay.{check_and_mark, check_and_mark_replay, is_seen, prune_replay}
use nex_talk_file_relay.Store.Replay.Window.{run_checks}
use nex_talk_file_relay.Shard.Limiter.{
  default_rate_limits, allow, allow_all, send_sender_key, send_target_key, send_ip_key, hex,
}
use nex_talk_file_relay.Shard.Limiter.Bound.{count_allowed, count_allowed-le}
use nex_talk_file_relay.Shard.Http.{
  HttpRequest, post, read_body, post_body, to32, to16, or_fail, check_reply, write_result,
}
use nex_talk_file_relay.Shard.Handler.{
  Shard, front, unless_replay, limited, finish, checked_send, handle_send, replay_key,
}
use nex_talk_file_relay.Shard.Handler.Replays.{is_answer, handle_send-once}
use nex_talk_file_relay.Shard.Server.{receive, receive_lem}
use nex_talk_file_relay.Tests.Nanopack.{decode_id, decode_within, flatten}
use nex_talk_file_relay.Tests.Data.{cut, mailbox_id, secret, mailbox, with_mailbox, message, ticket}

count_allowed-le_example :
    1
      + count_allowed secret
          ((50000, secret, 2) ∷ (50001, ticket, 1) ∷ (50002, secret, 2) ∷ [])
          ((secret, record { count = 1; reset_at = 60000 }) ∷ [])
    ≤ 2
unfolding lookup bytes_eq
count_allowed-le_example =
    count_allowed-le secret 2 ((50000, secret, 2) ∷ (50001, ticket, 1) ∷ (50002, secret, 2) ∷ [])
      ((secret, record { count = 1; reset_at = 60000 }) ∷ []) record { count = 1; reset_at = 60000 }
      (omega arith) refl (omega arith)
      (omega arith, (λ e. refl), (omega arith, (λ e. cc), (omega arith, (λ e. refl), tt)))

owns : Owns cut 50000 mailbox_id secret with_mailbox mailbox
unfolding get_mailbox_locked secret_matches lookup insert bytes_eq
owns = record { found = refl; matches = refl }

receive_lem_example : receive cut 50000 mailbox_id secret 5 true with_mailbox ≡ (
  ok (map (λ (m : StoredMessage). m.envelope) (take (clamp_limit 5) (backlog 50000 mailbox))),
  put_mailbox mailbox_id
      (slide_mailbox 50000 (
        with_queue
          (if true then drop (clamp_limit 5) (backlog 50000 mailbox) else backlog 50000 mailbox)
          mailbox))
      with_mailbox,
)
receive_lem_example = receive_lem cut 50000 mailbox_id secret 5 true with_mailbox mailbox owns

abbrev body : Bytes
body = flatten (
    (1, message.mailbox_id)
    ∷ (2, message.envelope)
    ∷ (3, message.sender_pub)
    ∷ (4, put_u64 message.timestamp)
    ∷ (5, message.nonce)
    ∷ (6, message.signature)
    ∷ (7, put_u32 message.ttl_hint_sec)
    ∷ (8, message.burn ∷ [])
    ∷ [])

abbrev request : Bytes → HttpRequest
request ip = record { method = post; content_length = 0; body = some body; client_ip = ip }

abbrev shard : Shard
shard = record { store = with_mailbox; buckets = []; limits = default_rate_limits }

-- Any signature will do.
abbrev accept : Bytes → Bytes → Bytes → Bool
accept p m sig = true

abbrev after : Shard
after = (handle_send cut decode_id accept 50000 50000 (replicate 16 20) (request []) shard).1

body-decodes : unmarshal_send_message decode_id body ≡ ok message
unfolding unmarshal_send_message unmarshal check_body_len set_fields set_send_message decode_within
    flatten put_u32 put_u64 get_u32 get_u64 get_u8 be_u32 validate_send_message
body-decodes = refl

request-checked : checked_send cut decode_id accept 50000 (request []) ≡ ok message
unfolding checked_send post_body read_body or_fail to32 to16 verify_msg_send verify_signed
    check_skew abs_int64 sub_int64 flatten put_u32 put_u64
request-checked = rw body-decodes refl

request-answered :
    is_answer (handle_send cut decode_id accept 50000 50000 (replicate 16 20) (request []) shard).0
    ≡ true
unfolding handle_send front unless_replay check_and_mark_replay check_and_mark is_seen prune_replay
    limited allow_all allow finish send_message enqueue validate_send_message get_mailbox_locked
    prune_messages_locked prune_loop lookup insert bytes_eq check_reply write_result send_sender_key
    send_target_key send_ip_key hex replay_key
request-answered = rw request-checked refl

handle_send-once_example :
    is_answer
      (handle_send cut decode_id accept 200000 200000
        (replicate 16 21)
        (request (1 ∷ []))
        record after { store = record after.store { replay = run_checks [] after.store.replay } }).0
    ≡ false
handle_send-once_example =
    handle_send-once cut decode_id accept 50000 200000 (replicate 16 20) (replicate 16 21) body
      (request []) (request (1 ∷ [])) message shard
      record after { store = record after.store { replay = run_checks [] after.store.replay } } []
      refl refl body-decodes (omega arith) (omega arith) (omega arith) tt request-answered refl
      (omega arith)
