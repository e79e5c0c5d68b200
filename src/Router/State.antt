-- ===== src/Router/State.antt =====
-- The state of server/router/handler.go, its limiter and replay cache, and what it writes. A request
-- and the reading of a body are those of the shard (Shard/Http), whose code the router repeats.
use nex_talk_file_relay.Base.{
  ℕ, ◌+◌, ◌%◌, Bool, true, false, ◌||◌, List, [], ◌∷◌, ◌++◌, Option, none, some, Bytes, bytes_eq,
  bytes_key, leb, ◌==◌, length, get_or, map, if◌then◌else◌,
}
use nex_talk_file_relay.Base.Map.{Map, lookup, insert}
use nex_talk_file_relay.Protocol.Errors.{
  ProtocolError, Result, ok, err, err_invalid_request, err_auth_failed, err_replay_detected,
  err_expired_request, err_mailbox_not_found, err_mailbox_expired, err_message_too_large,
  err_quota_exceeded, err_transfer_not_found, err_transfer_expired, err_rate_limited,
  err_payload_too_large, err_batch_too_large,
}
use nex_talk_file_relay.Protocol.Wire.{be_u32}
use nex_talk_file_relay.Protocol.Auth.{domain_register}
use nex_talk_file_relay.Store.Types.{MemStore, to_array}
use nex_talk_file_relay.Store.Replay.{check_and_mark}
use nex_talk_file_relay.Shard.Limiter.{Window}

-- A shard and its store; no two shards share a store.
pub record ShardRef : Type 0 where
  pub url : Bytes
  pub store : MemStore

-- `Config`, less the private key, the clock and the replication factor, which is always 1.
pub record Config : Type 0 where
  pub secret : Bytes
  pub shards : List ShardRef
  pub version : ℕ
  pub router_pub : Bytes
  pub max_registers_per_ip : ℕ
  pub max_resolves_per_ip : ℕ

-- `Handler`, less the private key and the clock.
pub record Router : Type 0 where
  pub secret : Bytes
  pub shards : List ShardRef
  pub version : ℕ
  pub router_pub : Bytes
  pub max_reg : ℕ
  pub max_res : ℕ
  pub reg_rl : Map Bytes Window
  pub res_rl : Map Bytes Window
  pub replay : Map Bytes ℕ

unfoldable pub new_handler : Config → Router
new_handler cfg = record {
  secret = cfg.secret;
  shards = cfg.shards;
  version = cfg.version;
  router_pub = cfg.router_pub;
  max_reg = if leb cfg.max_registers_per_ip 0 then 600 else cfg.max_registers_per_ip;
  max_res = if leb cfg.max_resolves_per_ip 0 then 1200 else cfg.max_resolves_per_ip;
  reg_rl = [];
  res_rl = [];
  replay = [];
}

-- The first four bytes of a hash as a number.
unfoldable pub hash_point : Bytes → ℕ
unfolding be_u32
hash_point (a ∷ b ∷ c ∷ d ∷ rest) = be_u32 a b c d
hash_point _ = 0

-- The shard that a mailbox belongs to; the hash is an array of 32 bytes.
unfoldable pub owner : (Bytes → Bytes) → Bytes → List Bytes → Bytes
owner sha256 mailbox_id [] = []
owner sha256 mailbox_id (u ∷ us) =
    get_or (u ∷ us) (hash_point (to_array 32 (sha256 mailbox_id)) % length (u ∷ us)) []

unfoldable pub shard_urls : List ShardRef → List Bytes
shard_urls = map (λ (s : ShardRef). s.url)

-- The first shard with this URL.
unfoldable pub find_shard : Bytes → List ShardRef → Option ShardRef
find_shard url [] = none
find_shard url (s ∷ ss) = if bytes_eq s.url url then some s else find_shard url ss

-- A write to the store of the shard that `find_shard` finds.
unfoldable pub put_shard : Bytes → MemStore → List ShardRef → List ShardRef
put_shard url store [] = []
put_shard url store (s ∷ ss) =
    if bytes_eq s.url url then record s { store = store } ∷ ss else s ∷ put_shard url store ss

-- Unlike the limiter of the shard, this one has no limit that is off.
unfoldable pub allow_rl : Bytes → ℕ → ℕ → Map Bytes Window → Bool × Map Bytes Window
allow_rl key now max table = elim (lookup key table) [
  | none ↦ (true, insert key record { count = 1; reset_at = now + 60000 } table)
  | some w ↦
      if leb w.reset_at now
      then (true, insert key record { count = 1; reset_at = now + 60000 } table)
      else if leb max w.count
      then (false, table)
      else (true, insert key record { count = w.count + 1; reset_at = w.reset_at } table)
]

-- `reg-ip:`
unfoldable pub reg_ip_key : Bytes → Bytes
reg_ip_key ip = (114 ∷ 101 ∷ 103 ∷ 45 ∷ 105 ∷ 112 ∷ 58 ∷ []) ++ ip

-- `res-ip:`
unfoldable pub res_ip_key : Bytes → Bytes
res_ip_key ip = (114 ∷ 101 ∷ 115 ∷ 45 ∷ 105 ∷ 112 ∷ 58 ∷ []) ++ ip

-- The loop over the replay cache is the one of the store's.
unfoldable pub check_replay : (Bytes → Bytes) → Bytes → Bytes → ℕ → Map Bytes ℕ → Bool × Map Bytes ℕ
check_replay sha256 pub_key nonce now replay =
    check_and_mark now (to_array 32 (sha256 (domain_register ++ (pub_key ++ nonce)))) replay

-- Status 200 with the schema and the encoded message, or an error with its status.
pub data RouterResponse : Type 0 where
  written : ℕ → Bytes → RouterResponse
  refused : ℕ → ProtocolError → RouterResponse

unfoldable pub http_status_for : ℕ → ℕ
http_status_for code =
    if code == err_invalid_request || code == err_expired_request || code == err_batch_too_large
    then 400
    else if code == err_auth_failed
    then 401
    else if code == err_replay_detected
    then 409
    else if code == err_mailbox_not_found || code == err_transfer_not_found
    then 404
    else if code == err_mailbox_expired || code == err_transfer_expired
    then 410
    else if code == err_payload_too_large || code == err_message_too_large
    then 413
    else if code == err_quota_exceeded || code == err_rate_limited
    then 429
    else 400

unfoldable pub write_error : ProtocolError → RouterResponse
write_error pe = refused (http_status_for pe.code) pe

-- The end of a handler: `writeProto` of what was encoded, or `writeError` of the error.
unfoldable pub write_result : ℕ → Result Bytes → RouterResponse
write_result schema (err e) = write_error e
write_result schema (ok body) = written schema body

-- `body, _ := protocol.MarshalHello(..)`
unfoldable pub or_empty : Result Bytes → Bytes
or_empty (err e) = []
or_empty (ok body) = body
