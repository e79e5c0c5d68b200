-- ===== src/Protocol/Responses/Resumption.antt =====
-- The answer to a resume request between encoder and decoder (protocol/transfers.go).
use nex_talk_file_relay.Base.{
  ℕ, ◌+◌, ◌*◌, ◌<◌, ◌≤◌, ◌≡◌, refl, arith, List, [], ◌∷◌, Bytes, leb, length, if◌then◌else◌,
  Bool-cases, inl, inr,
}
use nex_talk_file_relay.Protocol.Limits.{max_chunks_per_transfer, max_missing_ranges}
use nex_talk_file_relay.Protocol.Errors.{Result, ok, fail, err_payload_too_large}
use nex_talk_file_relay.Protocol.Wire.{put_u32, get_u32-put_u32, get_u8}
use nex_talk_file_relay.Protocol.Codec.{Field, set_fields, check_body_len, unmarshal}
use nex_talk_file_relay.Protocol.Codec.Roundtrip.{unmarshal-encoded}
use nex_talk_file_relay.Protocol.Responses.Files.{
  ResumeResponse, set_resume_response, marshal_resume_response, unmarshal_resume_response,
}

-- The fields of an encoded answer.
abbrev pub resume_fields : ResumeResponse → List Field
resume_fields r =
    (1, r.transfer_id)
    ∷ (2, put_u32 r.chunk_count)
    ∷ (3, put_u32 r.highest_contiguous)
    ∷ (4, r.encoding ∷ [])
    ∷ (5, r.bitmap)
    ∷ (6, r.missing_ranges)
    ∷ []

-- The bytes of the data of the fields.
abbrev pub field_bytes : List Field → ℕ
field_bytes [] = 0
field_bytes ((id, d) ∷ fs) = length d + field_bytes fs

read_resume_response :
    (r : ResumeResponse)
    → r.chunk_count < 4294967296
    → r.highest_contiguous < 4294967296
    → set_fields set_resume_response (resume_fields r) record {
      transfer_id = [];
      chunk_count = 0;
      highest_contiguous = 0;
      encoding = 0;
      bitmap = [];
      missing_ranges = [];
    }
      ≡ ok r
unfolding set_fields set_resume_response get_u8
read_resume_response r c h =
    rw (get_u32-put_u32 r.chunk_count c, get_u32-put_u32 r.highest_contiguous h) refl

marshal_resume_response-ok :
    (encode_id : List Field → Result Bytes) (r : ResumeResponse) (body : Bytes)
    → marshal_resume_response encode_id r ≡ ok body
    → (length r.transfer_id ≡ 16)
      × (r.chunk_count ≤ max_chunks_per_transfer)
      × (encode_id (resume_fields r) ≡ ok body)
unfolding marshal_resume_response
marshal_resume_response-ok encode_id r body h = ground arith

unmarshal_too_long {ℓ} :
    {A : Type ℓ} (decode_id : Bytes → Result (List Field)) (limit : ℕ)
    (set : ℕ → Bytes → A → Result A) (empty : A) (body : Bytes)
    → limit < length body
    → unmarshal decode_id limit set empty body
      ≡ fail err_payload_too_large "declared len exceeds limit"
unfolding unmarshal check_body_len
unmarshal_too_long decode_id limit set empty body long = ground arith

unmarshal_resume_response-long :
    (decode_id : Bytes → Result (List Field)) (body : Bytes)
    → 8192 < length body
    → unmarshal_resume_response decode_id body
      ≡ fail err_payload_too_large "declared len exceeds limit"
unfolding unmarshal_resume_response
unmarshal_resume_response-long decode_id body long =
    rw (unmarshal_too_long decode_id 8192 set_resume_response _ body long) refl

-- nanopack decodes what it encodes.
module _ (encode_id : List Field → Result Bytes) (decode_id : Bytes → Result (List Field))
    (inverse : (fs : List Field) (body : Bytes)
      → encode_id fs ≡ ok body
      → decode_id body ≡ ok fs) where
  -- An encoded answer is decoded to the same answer if it has at most 8192 bytes, and refused
  -- otherwise; the highest contiguous chunk fits 32 bits.
  pub unmarshal_resume_response-marshal :
      (r : ResumeResponse) (body : Bytes)
      → r.highest_contiguous < 4294967296
      → marshal_resume_response encode_id r ≡ ok body
      → unmarshal_resume_response decode_id body ≡ (
          if leb (length body) 8192
          then ok r
          else fail err_payload_too_large "declared len exceeds limit")
  unfolding unmarshal_resume_response
  unmarshal_resume_response-marshal r body top h =
      let (wide, few, encoded) = marshal_resume_response-ok encode_id r body h in
      elim (Bool-cases (leb (length body) 8192)) [
        | inl fits ↦
            rw
              (
                unmarshal-encoded encode_id decode_id inverse 8192 set_resume_response _ _ body
                    encoded (ground arith),
                read_resume_response r (omega (arith, few)) top,
              )
              (ground (arith, wide))
        | inr long ↦ ground (
          arith,
          unmarshal_too_long decode_id 8192 set_resume_response
              record {
                transfer_id = [];
                chunk_count = 0;
                highest_contiguous = 0;
                encoding = 0;
                bitmap = [];
                missing_ranges = [];
              }
              body (ground arith),
        )
      ]

-- A full list of missing ranges cannot be resumed from: the encoder takes an answer with 1024
-- ranges, a transfer ID of 16 bytes and a chunk count within its limit, if nanopack encodes the
-- fields; and if nanopack's body has room for the data of the fields, the receiver refuses it as too
-- large.
pub unmarshal_resume_response-full :
    (encode_id : List Field → Result Bytes) (decode_id : Bytes → Result (List Field))
    → ((fs : List Field) (body : Bytes) → encode_id fs ≡ ok body → field_bytes fs ≤ length body)
    → (r : ResumeResponse) (body : Bytes) → length r.transfer_id ≡ 16
    → 0 < r.chunk_count
    → r.chunk_count ≤ max_chunks_per_transfer
    → length r.missing_ranges ≡ max_missing_ranges * 8
    → encode_id (resume_fields r) ≡ ok body
    → (marshal_resume_response encode_id r ≡ ok body)
      × (unmarshal_resume_response decode_id body
          ≡ fail err_payload_too_large "declared len exceeds limit")
unfolding marshal_resume_response
unmarshal_resume_response-full encode_id decode_id carries r body wide some_chunk few full encoded =
    let room = carries (resume_fields r) body encoded in
    (
      ground (arith, wide, encoded),
      unmarshal_resume_response-long decode_id body (omega (arith, room, wide, full)),
    )
