-- ===== src/Tests/Control.antt =====
-- A list of shards, a routing table and two answers of the shard on the wire.
use nex_talk_file_relay.Base.{
  ◌≡◌, ◌≢◌, ◌↔◌, refl, arith, [], ◌∷◌, Bytes, ℕ, List, All, true, replicate, length-replicate,
}
use nex_talk_file_relay.Protocol.Errors.{ok, fail, err_payload_too_large}
use nex_talk_file_relay.Protocol.Wire.{put_u32, put_u64}
use nex_talk_file_relay.Protocol.ShardList.{
  IsListed, encode_shard_list, decode_shard_list, decode_shards, decode_shards-fuel, out_of_rounds,
  decode_shard_list_iff,
}
use nex_talk_file_relay.Protocol.Control.{
  RoutingTable, check_routing_table, marshal_routing_table, unmarshal_routing_table,
}
use nex_talk_file_relay.Protocol.Control.Tables.{unmarshal_routing_table-marshal}
use nex_talk_file_relay.Protocol.Responses.Mail.{
  ReceivedMessage, check_entries, entry_ids, entry_payloads, marshal_receive_messages_response,
  unmarshal_receive_messages_response,
}
use nex_talk_file_relay.Protocol.Responses.Batch.{unmarshal_receive_messages_response-marshal}
use nex_talk_file_relay.Protocol.Responses.Files.{
  ResumeResponse, marshal_resume_response, unmarshal_resume_response,
}
use nex_talk_file_relay.Protocol.Responses.Resumption.{
  resume_fields, unmarshal_resume_response-full,
}
use nex_talk_file_relay.Tests.Nanopack.{carries, encode_id, decode_id, inverse, flatten}
use nex_talk_file_relay.Tests.Data.{key, signature, message_id, transfer_id}

-- Two URLs, of two bytes and of one.
abbrev blob : Bytes
blob = 0 ∷ 2 ∷ 104 ∷ 105 ∷ 0 ∷ 1 ∷ 106 ∷ []

abbrev urls : List Bytes
urls = (104 ∷ 105 ∷ []) ∷ (106 ∷ []) ∷ []

decode_shards-fuel_example :
    (decode_shards 10 blob ≢ out_of_rounds) × (decode_shards 10 blob ≡ decode_shard_list blob)
decode_shards-fuel_example = decode_shards-fuel 10 blob (omega arith)

decode_shard_list_iff_example :
    (decode_shard_list blob ≡ ok urls) ↔ ((encode_shard_list urls ≡ blob) × All IsListed urls)
decode_shard_list_iff_example = decode_shard_list_iff blob urls (
  omega arith,
  (omega arith, (omega arith, (omega arith, (omega arith, (omega arith, (omega arith, tt)))))),
)

abbrev table : RoutingTable
table = record {
  version = 7;
  generated_at = 40000;
  expires_at = 3640000;
  algorithm = 1;
  shards = urls;
  replication_factor = 1;
  router_pub = key;
  signature = signature;
}

abbrev table_body : Bytes
table_body = flatten (
    (1, put_u32 table.version)
    ∷ (2, put_u64 table.generated_at)
    ∷ (3, put_u64 table.expires_at)
    ∷ (4, table.algorithm ∷ [])
    ∷ (5, encode_shard_list table.shards)
    ∷ (6, put_u32 table.replication_factor)
    ∷ (7, table.router_pub)
    ∷ (8, table.signature)
    ∷ [])

unmarshal_routing_table-marshal_example : unmarshal_routing_table decode_id table_body ≡ ok table
unfolding marshal_routing_table check_routing_table flatten put_u64 put_u32 encode_shard_list
unmarshal_routing_table-marshal_example =
    unmarshal_routing_table-marshal encode_id decode_id inverse table table_body
      (omega arith, omega arith, omega arith, omega arith)
      ((omega arith, omega arith), ((omega arith, omega arith), tt)) refl (omega arith)

abbrev entries : List ReceivedMessage
entries = record { msg_id = message_id; envelope = 9 ∷ 9 ∷ [] } ∷ []

abbrev batch_body : Bytes
batch_body =
    flatten
      ((1, put_u32 1) ∷ (2, entry_ids entries) ∷ (3, entry_payloads entries) ∷ (4, 1 ∷ []) ∷ [])

unmarshal_receive_messages_response-marshal_example :
    unmarshal_receive_messages_response decode_id batch_body
    ≡ ok record { messages = entries; consumed = true }
unfolding marshal_receive_messages_response check_entries flatten put_u32 entry_ids entry_payloads
unmarshal_receive_messages_response-marshal_example =
    unmarshal_receive_messages_response-marshal encode_id decode_id inverse entries true batch_body
      refl (omega arith)

-- An answer with 1024 ranges.
abbrev many : ResumeResponse
many = record {
  transfer_id = transfer_id;
  chunk_count = 16384;
  highest_contiguous = 0;
  encoding = 1;
  bitmap = [];
  missing_ranges = replicate 8192 0;
}

abbrev many_body : Bytes
many_body = flatten (resume_fields many)

unmarshal_resume_response-full_example :
    (marshal_resume_response encode_id many ≡ ok many_body)
    × (unmarshal_resume_response decode_id many_body
        ≡ fail err_payload_too_large "declared len exceeds limit")
unmarshal_resume_response-full_example =
    unmarshal_resume_response-full encode_id decode_id carries many many_body refl (omega arith)
      (omega arith) (length-replicate {A = ℕ} 8192 0) refl
