-- ===== src/Protocol/Control/Tables.antt =====
-- The routing table and the answers of the router between encoder and decoder
-- (protocol/control.go).
use nex_talk_file_relay.Base.{◌<◌, ◌≤◌, ◌≡◌, refl, List, [], ◌∷◌, Bytes, All, length}
use nex_talk_file_relay.Protocol.Errors.{Result, ok, >>=-eq-ok}
use nex_talk_file_relay.Protocol.Wire.{get_u8, put_u32, put_u64, get_u32-put_u32, get_u64-put_u64}
use nex_talk_file_relay.Protocol.ShardList.{IsListed, encode_shard_list, decode_shard_list-encode}
use nex_talk_file_relay.Protocol.Codec.{Field, set_fields}
use nex_talk_file_relay.Protocol.Codec.Roundtrip.{unmarshal-encoded}
use nex_talk_file_relay.Protocol.Control.{
  RoutingTable, RegisterResponse, ResolveResponse, empty_routing_table, set_routing_table,
  set_register_response, set_resolve_response, check_routing_table, check_register_response,
  check_resolve_response, marshal_routing_table, unmarshal_routing_table, marshal_register_response,
  unmarshal_register_response, marshal_resolve_response, unmarshal_resolve_response,
}

-- The numbers of a table fit their types.
abbrev pub IsSized : RoutingTable → Type 0
IsSized t =
    (t.version < 4294967296)
    × (t.generated_at < 18446744073709551616)
    × (t.expires_at < 18446744073709551616)
    × (t.replication_factor < 4294967296)

read_routing_table :
    (t : RoutingTable)
    → IsSized t
    → All IsListed t.shards
    → set_fields set_routing_table
        ((1, put_u32 t.version)
          ∷ (2, put_u64 t.generated_at)
          ∷ (3, put_u64 t.expires_at)
          ∷ (4, t.algorithm ∷ [])
          ∷ (5, encode_shard_list t.shards)
          ∷ (6, put_u32 t.replication_factor)
          ∷ (7, t.router_pub)
          ∷ (8, t.signature)
          ∷ [])
        empty_routing_table
      ≡ ok t
unfolding set_fields set_routing_table get_u8
read_routing_table t s l =
    rw
      (
        get_u32-put_u32 t.version s.0,
        get_u64-put_u64 t.generated_at s.1,
        get_u64-put_u64 t.expires_at s.2,
        decode_shard_list-encode t.shards l,
        get_u32-put_u32 t.replication_factor s.3,
      )
      refl

module _ (encode_id : List Field → Result Bytes) (decode_id : Bytes → Result (List Field))
    (inverse : (fs : List Field) (body : Bytes)
      → encode_id fs ≡ ok body
      → decode_id body ≡ ok fs) where
  -- A routing table that the router has encoded within 8192 bytes, its numbers in range and each URL
  -- neither empty nor 2 ^ 16 bytes long, is decoded to the same table.
  pub unmarshal_routing_table-marshal :
      (t : RoutingTable) (body : Bytes)
      → IsSized t
      → All IsListed t.shards
      → marshal_routing_table encode_id t ≡ ok body
      → length body ≤ 8192
      → unmarshal_routing_table decode_id body ≡ ok t
  unfolding marshal_routing_table unmarshal_routing_table
  unmarshal_routing_table-marshal t body sized listed h fits =
      let (u, good, encoded) = >>=-eq-ok (check_routing_table t) _ h in
      rw
        (
          unmarshal-encoded encode_id decode_id inverse 8192 set_routing_table _ _ body encoded
              fits,
          read_routing_table t sized listed,
          good,
        )
        refl

  pub unmarshal_register_response-marshal :
      (r : RegisterResponse) (body : Bytes)
      → r.table_version < 4294967296
      → r.expires_at < 18446744073709551616
      → marshal_register_response encode_id r ≡ ok body
      → length body ≤ 1024
      → unmarshal_register_response decode_id body ≡ ok r
  unfolding marshal_register_response unmarshal_register_response set_fields set_register_response
  unmarshal_register_response-marshal r body v e h fits =
      let (u, good, encoded) = >>=-eq-ok (check_register_response r) _ h in
      rw
        (
          unmarshal-encoded encode_id decode_id inverse 1024 set_register_response _ _ body encoded
              fits,
          get_u32-put_u32 r.table_version v,
          get_u64-put_u64 r.expires_at e,
          good,
        )
        refl

  pub unmarshal_resolve_response-marshal :
      (r : ResolveResponse) (body : Bytes)
      → r.era < 4294967296
      → r.table_version < 4294967296
      → marshal_resolve_response encode_id r ≡ ok body
      → length body ≤ 1024
      → unmarshal_resolve_response decode_id body ≡ ok r
  unfolding marshal_resolve_response unmarshal_resolve_response set_fields set_resolve_response
  unmarshal_resolve_response-marshal r body e v h fits =
      let (u, good, encoded) = >>=-eq-ok (check_resolve_response r) _ h in
      rw
        (
          unmarshal-encoded encode_id decode_id inverse 1024 set_resolve_response _ _ body encoded
              fits,
          get_u32-put_u32 r.era e,
          get_u32-put_u32 r.table_version v,
          good,
        )
        refl
