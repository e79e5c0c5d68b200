-- ===== src/Protocol/Control.antt =====
-- The codecs of registration, resolution and the routing table (protocol/control.go). As in Codec,
-- `encode_id` and `decode_id` stand for nanopack.
mod Fields
pub mod Tables
unfoldable pub use Fields.*
use nex_talk_file_relay.Base.{ℕ, Bool, not, ◌||◌, List, [], ◌∷◌, Bytes, ◌==◌, length, if◌then◌else◌}
use nex_talk_file_relay.Protocol.Errors.{
  Result, ok, fail, ◌>>=◌, ◌>>◌, err_invalid_request, err_auth_failed,
}
use nex_talk_file_relay.Protocol.Messages.{Hello}
use nex_talk_file_relay.Protocol.Wire.{put_u32, put_u64}
use nex_talk_file_relay.Protocol.ShardList.{encode_shard_list}
use nex_talk_file_relay.Protocol.Codec.{Field, unmarshal}

unfoldable pub validate_register : Register → Result (Unit {0})
validate_register r =
    if not (length r.client_pub == 32)
    then fail err_auth_failed "client_pub must be 32 bytes"
    else if not (length r.nonce == 16)
    then fail err_invalid_request "nonce must be 16 bytes"
    else if not (length r.signature == 64)
    then fail err_auth_failed "signature must be 64 bytes"
    else ok tt

-- The test that encoder and decoder share; so for the next ones.
unfoldable pub check_register_response : RegisterResponse → Result (Unit {0})
check_register_response r =
    if not (length r.mailbox_id == 16)
      || not (length r.read_secret == 32)
      || length r.shard_url == 0
    then fail err_invalid_request "bad register response"
    else ok tt

unfoldable pub check_resolve : Resolve → Result (Unit {0})
check_resolve r =
    if not (length r.client_pub == 32)
    then fail err_invalid_request "client_pub must be 32 bytes"
    else ok tt

unfoldable pub check_resolve_response : ResolveResponse → Result (Unit {0})
check_resolve_response r =
    if not (length r.mailbox_id == 16) || length r.shard_url == 0
    then fail err_invalid_request "bad resolve response"
    else ok tt

unfoldable pub check_routing_table : RoutingTable → Result (Unit {0})
check_routing_table t =
    if not (length t.router_pub == 32) || not (length t.signature == 64) || length t.shards == 0
    then fail err_invalid_request "bad routing table"
    else ok tt

abbrev pub routing_algo_sha256_mod_n : ℕ
routing_algo_sha256_mod_n = 1

abbrev pub empty_routing_table : RoutingTable
empty_routing_table = record {
  version = 0;
  generated_at = 0;
  expires_at = 0;
  algorithm = 0;
  shards = [];
  replication_factor = 0;
  router_pub = [];
  signature = [];
}

module _ (encode_id : List Field → Result Bytes) where
  unfoldable pub marshal_hello : Hello → Result Bytes
  marshal_hello h = encode_id ((1, h.major ∷ []) ∷ (2, h.minor ∷ []) ∷ (3, put_u64 h.now_ms) ∷ [])

  unfoldable pub marshal_register : Register → Result Bytes
  marshal_register r =
      validate_register r
      >> encode_id
          ((1, r.client_pub) ∷ (2, put_u64 r.timestamp) ∷ (3, r.nonce) ∷ (4, r.signature) ∷ [])

  unfoldable pub marshal_register_response : RegisterResponse → Result Bytes
  marshal_register_response r =
      check_register_response r
      >> encode_id (
          (1, r.mailbox_id)
          ∷ (2, r.read_secret)
          ∷ (3, r.shard_url)
          ∷ (4, put_u32 r.table_version)
          ∷ (5, put_u64 r.expires_at)
          ∷ [])

  unfoldable pub marshal_resolve : Resolve → Result Bytes
  marshal_resolve r = check_resolve r >> encode_id ((1, r.client_pub) ∷ [])

  unfoldable pub marshal_resolve_response : ResolveResponse → Result Bytes
  marshal_resolve_response r =
      check_resolve_response r
      >> encode_id (
          (1, r.mailbox_id)
          ∷ (2, r.shard_url)
          ∷ (3, put_u32 r.era)
          ∷ (4, put_u32 r.table_version)
          ∷ [])

  unfoldable pub marshal_routing_table : RoutingTable → Result Bytes
  marshal_routing_table t =
      check_routing_table t
      >> encode_id (
          (1, put_u32 t.version)
          ∷ (2, put_u64 t.generated_at)
          ∷ (3, put_u64 t.expires_at)
          ∷ (4, t.algorithm ∷ [])
          ∷ (5, encode_shard_list t.shards)
          ∷ (6, put_u32 t.replication_factor)
          ∷ (7, t.router_pub)
          ∷ (8, t.signature)
          ∷ [])

module _ (decode_id : Bytes → Result (List Field)) where
  unfoldable pub unmarshal_register : Bytes → Result Register
  unmarshal_register body =
      unmarshal decode_id 256 set_register
        record { client_pub = []; timestamp = 0; nonce = []; signature = [] } body
      >>= λ r. validate_register r >> ok r

  unfoldable pub unmarshal_register_response : Bytes → Result RegisterResponse
  unmarshal_register_response body =
      unmarshal decode_id 1024 set_register_response
        record {
          mailbox_id = [];
          read_secret = [];
          shard_url = [];
          table_version = 0;
          expires_at = 0;
        }
        body
      >>= λ r. check_register_response r >> ok r

  unfoldable pub unmarshal_resolve : Bytes → Result Resolve
  unmarshal_resolve body =
      unmarshal decode_id 128 set_resolve record { client_pub = [] } body >>= λ r.
      check_resolve r >> ok r

  unfoldable pub unmarshal_resolve_response : Bytes → Result ResolveResponse
  unmarshal_resolve_response body =
      unmarshal decode_id 1024 set_resolve_response
        record { mailbox_id = []; shard_url = []; era = 0; table_version = 0 } body
      >>= λ r. check_resolve_response r >> ok r

  unfoldable pub unmarshal_routing_table : Bytes → Result RoutingTable
  unmarshal_routing_table body =
      unmarshal decode_id 8192 set_routing_table empty_routing_table body >>= λ t.
      check_routing_table t >> ok t
