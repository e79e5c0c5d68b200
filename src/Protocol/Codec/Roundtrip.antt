-- ===== src/Protocol/Codec/Roundtrip.antt =====
-- Encoding and decoding of the requests that carry data (protocol/schemas.go).
use nex_talk_file_relay.Base.{
  ℕ, ◌<◌, ◌≤◌, ◌≡◌, refl, arith, List, [], ◌∷◌, ◌++◌, Bytes, length, ltb, ◌+◌, if◌then◌else◌,
}
use nex_talk_file_relay.Protocol.Limits.{max_request_bytes, max_chunk_bytes}
use nex_talk_file_relay.Protocol.Errors.{Result, ok, >>=-eq-ok}
use nex_talk_file_relay.Protocol.Messages.{SendMessage, ChunkUpload}
use nex_talk_file_relay.Protocol.Wire.{put_u32, put_u64, get_u8, get_u32-put_u32, get_u64-put_u64}
use nex_talk_file_relay.Protocol.Validate.{validate_send_message, validate_chunk_upload}
use nex_talk_file_relay.Protocol.Codec.{
  empty_send_message, empty_chunk_upload, Field, check_body_len, set_fields, set_send_message,
  set_chunk_upload, marshal_send_message, marshal_chunk_upload, unmarshal, unmarshal_send_message,
  unmarshal_chunk_upload,
}

read_send_message :
    (m : SendMessage)
    → m.timestamp < 18446744073709551616
    → m.ttl_hint_sec < 4294967296
    → set_fields set_send_message
        ((1, m.mailbox_id)
          ∷ (2, m.envelope)
          ∷ (3, m.sender_pub)
          ∷ (4, put_u64 m.timestamp)
          ∷ (5, m.nonce)
          ∷ (6, m.signature)
          ∷ (7, put_u32 m.ttl_hint_sec)
          ∷ (8, m.burn ∷ [])
          ∷ [])
        empty_send_message
      ≡ ok m
unfolding set_fields set_send_message get_u8
read_send_message m ts ttl =
    rw (get_u64-put_u64 m.timestamp ts, get_u32-put_u32 m.ttl_hint_sec ttl) refl

read_hash_offset :
    (id : Bytes) (index : ℕ) (payload hash : Bytes) (offset : ℕ)
    → offset < 18446744073709551616
    → set_fields set_chunk_upload
        ((if ltb 0 (length hash) then (4, hash) ∷ [] else []) ++ ((5, put_u64 offset) ∷ []))
        record { transfer_id = id; index = index; payload = payload; chunk_hash = []; offset = 0 }
      ≡ ok record {
        transfer_id = id;
        index = index;
        payload = payload;
        chunk_hash = hash;
        offset = offset;
      }
unfolding set_fields set_chunk_upload
read_hash_offset id index payload [] offset off = rw (get_u64-put_u64 offset off) refl
read_hash_offset id index payload (b ∷ hash) offset off = ground (arith, get_u64-put_u64 offset off)

read_chunk_upload :
    (c : ChunkUpload)
    → c.index < 4294967296
    → c.offset < 18446744073709551616
    → set_fields set_chunk_upload
        ((1, c.transfer_id)
          ∷ (2, put_u32 c.index)
          ∷ (3, c.payload)
          ∷ ((if ltb 0 (length c.chunk_hash) then (4, c.chunk_hash) ∷ [] else [])
              ++ ((5, put_u64 c.offset) ∷ [])))
        empty_chunk_upload
      ≡ ok c
unfolding set_fields set_chunk_upload
read_chunk_upload c i off =
    rw (get_u32-put_u32 c.index i)
      (read_hash_offset c.transfer_id c.index c.payload c.chunk_hash c.offset off)

-- nanopack decodes what it encodes.
module _ (encode_id : List Field → Result Bytes) (decode_id : Bytes → Result (List Field))
    (inverse : (fs : List Field) (body : Bytes)
      → encode_id fs ≡ ok body
      → decode_id body ≡ ok fs) where
  pub unmarshal-encoded {ℓ} :
      {A : Type ℓ} (limit : ℕ) (set : ℕ → Bytes → A → Result A) (empty : A) (fs : List Field)
      (body : Bytes)
      → encode_id fs ≡ ok body
      → length body ≤ limit
      → unmarshal decode_id limit set empty body ≡ set_fields set fs empty
  unfolding unmarshal check_body_len
  unmarshal-encoded limit set empty fs body h fits = ground (arith, inverse fs body h)

  -- A message that `MarshalSendMessage` has encoded within the limit on a request is decoded to the
  -- same message, with every field.
  pub unmarshal_send_message-marshal :
      (m : SendMessage) (body : Bytes)
      → m.timestamp < 18446744073709551616
      → m.ttl_hint_sec < 4294967296
      → marshal_send_message encode_id m ≡ ok body
      → length body ≤ max_request_bytes
      → unmarshal_send_message decode_id body ≡ ok m
  unfolding marshal_send_message unmarshal_send_message
  unmarshal_send_message-marshal m body ts ttl h fits =
      let (u, good, encoded) = >>=-eq-ok (validate_send_message m) _ h in
      rw
        (
          unmarshal-encoded max_request_bytes set_send_message _ _ body encoded fits,
          read_send_message m ts ttl,
          good,
        )
        refl

  -- A chunk that `MarshalChunkUpload` has encoded within its limit is decoded to the same chunk; a
  -- hash that is not sent is decoded as the empty one.
  pub unmarshal_chunk_upload-marshal :
      (c : ChunkUpload) (body : Bytes)
      → c.index < 4294967296
      → c.offset < 18446744073709551616
      → marshal_chunk_upload encode_id c ≡ ok body
      → length body ≤ max_chunk_bytes + 1024
      → unmarshal_chunk_upload decode_id body ≡ ok c
  unfolding marshal_chunk_upload unmarshal_chunk_upload
  unmarshal_chunk_upload-marshal c body i off h fits =
      let (u, good, encoded) = >>=-eq-ok (validate_chunk_upload c) _ h in
      rw
        (
          unmarshal-encoded (max_chunk_bytes + 1024) set_chunk_upload _ _ body encoded fits,
          read_chunk_upload c i off,
          good,
        )
        refl
