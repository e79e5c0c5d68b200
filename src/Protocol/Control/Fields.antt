-- ===== src/Protocol/Control/Fields.antt =====
-- The control messages of protocol/control.go and the loops of their decoders over the fields. A Go
-- string is the list of its bytes.
use nex_talk_file_relay.Base.{ℕ, List, Bytes, ◌==◌, if◌then◌else◌}
use nex_talk_file_relay.Protocol.Errors.{Result, ok, ◌>>=◌}
use nex_talk_file_relay.Protocol.Wire.{get_u32, get_u64, get_u8}
use nex_talk_file_relay.Protocol.ShardList.{decode_shard_list}

pub record Register : Type 0 where
  pub client_pub : Bytes
  pub timestamp : ℕ
  pub nonce : Bytes
  pub signature : Bytes

pub record RegisterResponse : Type 0 where
  pub mailbox_id : Bytes
  pub read_secret : Bytes
  pub shard_url : Bytes
  pub table_version : ℕ
  pub expires_at : ℕ

pub record Resolve : Type 0 where
  pub client_pub : Bytes

pub record ResolveResponse : Type 0 where
  pub mailbox_id : Bytes
  pub shard_url : Bytes
  pub era : ℕ
  pub table_version : ℕ

pub record RoutingTable : Type 0 where
  pub version : ℕ
  pub generated_at : ℕ
  pub expires_at : ℕ
  pub algorithm : ℕ
  pub shards : List Bytes
  pub replication_factor : ℕ
  pub router_pub : Bytes
  pub signature : Bytes

unfoldable pub set_register : ℕ → Bytes → Register → Result Register
set_register id d r =
    if id == 1
    then ok (record r { client_pub = d })
    else if id == 2
    then (get_u64 d >>= λ v. ok (record r { timestamp = v }))
    else if id == 3
    then ok (record r { nonce = d })
    else if id == 4
    then ok (record r { signature = d })
    else ok r

unfoldable pub set_register_response : ℕ → Bytes → RegisterResponse → Result RegisterResponse
set_register_response id d r =
    if id == 1
    then ok (record r { mailbox_id = d })
    else if id == 2
    then ok (record r { read_secret = d })
    else if id == 3
    then ok (record r { shard_url = d })
    else if id == 4
    then (get_u32 d >>= λ v. ok (record r { table_version = v }))
    else if id == 5
    then (get_u64 d >>= λ v. ok (record r { expires_at = v }))
    else ok r

unfoldable pub set_resolve : ℕ → Bytes → Resolve → Result Resolve
set_resolve id d r = if id == 1 then ok (record r { client_pub = d }) else ok r

unfoldable pub set_resolve_response : ℕ → Bytes → ResolveResponse → Result ResolveResponse
set_resolve_response id d r =
    if id == 1
    then ok (record r { mailbox_id = d })
    else if id == 2
    then ok (record r { shard_url = d })
    else if id == 3
    then (get_u32 d >>= λ v. ok (record r { era = v }))
    else if id == 4
    then (get_u32 d >>= λ v. ok (record r { table_version = v }))
    else ok r

unfoldable pub set_routing_table : ℕ → Bytes → RoutingTable → Result RoutingTable
set_routing_table id d t =
    if id == 1
    then (get_u32 d >>= λ v. ok (record t { version = v }))
    else if id == 2
    then (get_u64 d >>= λ v. ok (record t { generated_at = v }))
    else if id == 3
    then (get_u64 d >>= λ v. ok (record t { expires_at = v }))
    else if id == 4
    then (get_u8 d >>= λ v. ok (record t { algorithm = v }))
    else if id == 5
    then (decode_shard_list d >>= λ ss. ok (record t { shards = ss }))
    else if id == 6
    then (get_u32 d >>= λ v. ok (record t { replication_factor = v }))
    else if id == 7
    then ok (record t { router_pub = d })
    else if id == 8
    then ok (record t { signature = d })
    else ok t
