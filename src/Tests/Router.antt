-- ===== src/Tests/Router.antt =====
-- A registration at a router with one shard, and a resolution.
use nex_talk_file_relay.Base.{◌≡◌, refl, arith, true, Bool, [], ◌∷◌, some, Bytes, bytes_key}
use nex_talk_file_relay.Base.Map.{lookup, insert}
use nex_talk_file_relay.Protocol.Errors.{ok}
use nex_talk_file_relay.Protocol.Wire.{put_u32, put_u64, get_u64, be_u32}
use nex_talk_file_relay.Protocol.Codec.{check_body_len, set_fields, unmarshal}
use nex_talk_file_relay.Protocol.Control.{
  Register, set_register, validate_register, unmarshal_register, marshal_register_response,
  marshal_resolve_response,
}
use nex_talk_file_relay.Protocol.Auth.{
  check_skew, abs_int64, sub_int64, verify_signed, verify_register,
}
use nex_talk_file_relay.Protocol.Auth.Derived.{mailbox_id_from_pub}
use nex_talk_file_relay.Store.Types.{MailboxData, new_mem_store}
use nex_talk_file_relay.Store.Replay.{check_and_mark, is_seen, prune_replay}
use nex_talk_file_relay.Store.Messages.Batch.{Owns}
use nex_talk_file_relay.Shard.Http.{HttpRequest, post, read_body}
use nex_talk_file_relay.Router.State.{
  ShardRef, Router, new_handler, owner, shard_urls, find_shard, allow_rl, check_replay,
  write_result,
}
use nex_talk_file_relay.Router.Handler.{checked_register, handle_register, resolve_mailbox}
use nex_talk_file_relay.Router.Owner.{is_shard, IsResolved, resolve_mailbox-IsResolved}
use nex_talk_file_relay.Router.Registration.{handle_register-Owns}
use nex_talk_file_relay.Tests.Nanopack.{encode_id, decode_id, decode_within, flatten}
use nex_talk_file_relay.Tests.Data.{cut, key, nonce, secret, signature}

-- Any signature will do.
abbrev accept : Bytes → Bytes → Bytes → Bool
accept p m sig = true

-- A keyed hash that can be computed by hand.
abbrev second : Bytes → Bytes → Bytes
second k m = m

-- `hi`
abbrev router : Router
router = new_handler record {
  secret = 1 ∷ [];
  shards = record { url = 104 ∷ 105 ∷ []; store = new_mem_store } ∷ [];
  version = 7;
  router_pub = key;
  max_registers_per_ip = 0;
  max_resolves_per_ip = 0;
}

abbrev registration : Register
registration = record { client_pub = key; timestamp = 40000; nonce = nonce; signature = signature }

abbrev body : Bytes
body = flatten ((1, key) ∷ (2, put_u64 40000) ∷ (3, nonce) ∷ (4, signature) ∷ [])

abbrev request : HttpRequest
request = record { method = post; content_length = 0; body = some body; client_ip = [] }

body-decodes : unmarshal_register decode_id body ≡ ok registration
unfolding unmarshal_register unmarshal check_body_len set_fields set_register decode_within flatten
    put_u32 put_u64 get_u64 be_u32 validate_register
body-decodes = refl

request-checked : checked_register decode_id accept 50000 request ≡ ok registration
unfolding checked_register read_body verify_register verify_signed check_skew abs_int64 sub_int64
    flatten put_u32 put_u64
request-checked = rw body-decodes refl

resolve_mailbox-IsResolved_example :
    let id = mailbox_id_from_pub second (1 ∷ []) key in
    (u : Bytes) × (resolve_mailbox cut second encode_id 50000 record { client_pub = key } router
      ≡ write_result 55 (
          marshal_resolve_response encode_id
            record { mailbox_id = id; shard_url = u; era = 0; table_version = 7 }))
    × (is_shard router.shards u ≡ true)
    × IsResolved 50000 id router.shards (owner cut id (shard_urls router.shards)) u
unfolding new_handler
resolve_mailbox-IsResolved_example =
    resolve_mailbox-IsResolved cut second encode_id 50000 record { client_pub = key } router
      (omega arith) (omega arith)

handle_register-Owns_example :
    let id = mailbox_id_from_pub second (1 ∷ []) key in
    let primary = owner cut id (shard_urls router.shards) in
    let (response, after) =
      handle_register cut second encode_id decode_id accept 50000 50000
        (some secret)
        request
        router in
    (ref : ShardRef) × (mb : MailboxData) × (response
      ≡ write_result 53 (
          marshal_register_response encode_id record {
            mailbox_id = id;
            read_secret = secret;
            shard_url = primary;
            table_version = 7;
            expires_at = 31536050000;
          }))
    × (find_shard primary after.shards ≡ some ref)
    × Owns cut 60000 id secret ref.store mb
    × (resolve_mailbox cut second encode_id 60000 record { client_pub = key } after
        ≡ write_result 55 (
            marshal_resolve_response encode_id
              record { mailbox_id = id; shard_url = primary; era = 0; table_version = 7 }))
unfolding new_handler allow_rl check_replay check_and_mark is_seen prune_replay lookup insert
handle_register-Owns_example =
    handle_register-Owns cut second encode_id decode_id accept 50000 50000 60000 secret request
      registration router refl refl request-checked refl (omega arith) (omega arith) refl
      (omega arith)
