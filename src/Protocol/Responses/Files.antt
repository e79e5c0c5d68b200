-- ===== src/Protocol/Responses/Files.antt =====
-- The answers about transfers: schemas 64, 66, 68, 70 and 72 of protocol/transfers.go.
use nex_talk_file_relay.Base.{
  ℕ, ◌+◌, ◌/◌, ◌%◌, not, ◌||◌, List, [], ◌∷◌, Bytes, ltb, ◌==◌, length, if◌then◌else◌,
}
use nex_talk_file_relay.Protocol.Limits.{
  max_chunk_bytes, max_missing_ranges, max_chunks_per_transfer,
}
use nex_talk_file_relay.Protocol.Errors.{Result, ok, fail, ◌>>=◌, ◌>>◌, err_invalid_request}
use nex_talk_file_relay.Protocol.Wire.{put_u32, put_u64, get_u32, get_u64, get_u8}
use nex_talk_file_relay.Protocol.Codec.{Field, unmarshal}

pub record TransferCreateResponse : Type 0 where
  pub transfer_id : Bytes
  pub expires_at : ℕ
  pub chunk_size : ℕ
  pub download_secret : Bytes

pub record ChunkAck : Type 0 where
  pub transfer_id : Bytes
  pub highest_contiguous : ℕ
  pub missing_ranges : Bytes
  pub bitmap : Bytes
  pub encoding : ℕ

pub record ChunkDownloadResponse : Type 0 where
  pub transfer_id : Bytes
  pub index : ℕ
  pub payload : Bytes
  pub chunk_hash : Bytes

pub record ResumeResponse : Type 0 where
  pub transfer_id : Bytes
  pub chunk_count : ℕ
  pub highest_contiguous : ℕ
  pub encoding : ℕ
  pub bitmap : Bytes
  pub missing_ranges : Bytes

pub record TransferCompleteResponse : Type 0 where
  pub sealed : ℕ
  pub chunk_count : ℕ
  pub present : ℕ

unfoldable pub set_transfer_create_response :
    ℕ → Bytes → TransferCreateResponse → Result TransferCreateResponse
set_transfer_create_response id d r =
    if id == 1
    then ok (record r { transfer_id = d })
    else if id == 2
    then (get_u64 d >>= λ v. ok (record r { expires_at = v }))
    else if id == 3
    then (get_u32 d >>= λ v. ok (record r { chunk_size = v }))
    else if id == 4
    then ok (record r { download_secret = d })
    else ok r

unfoldable pub set_chunk_ack : ℕ → Bytes → ChunkAck → Result ChunkAck
set_chunk_ack id d a =
    if id == 1
    then ok (record a { transfer_id = d })
    else if id == 2
    then (get_u32 d >>= λ v. ok (record a { highest_contiguous = v }))
    else if id == 3
    then ok (record a { missing_ranges = d })
    else if id == 4
    then ok (record a { bitmap = d })
    else if id == 5
    then (get_u8 d >>= λ v. ok (record a { encoding = v }))
    else ok a

unfoldable pub set_chunk_download_response :
    ℕ → Bytes → ChunkDownloadResponse → Result ChunkDownloadResponse
set_chunk_download_response id d r =
    if id == 1
    then ok (record r { transfer_id = d })
    else if id == 2
    then (get_u32 d >>= λ v. ok (record r { index = v }))
    else if id == 3
    then ok (record r { payload = d })
    else if id == 4
    then ok (record r { chunk_hash = d })
    else ok r

unfoldable pub set_resume_response : ℕ → Bytes → ResumeResponse → Result ResumeResponse
set_resume_response id d r =
    if id == 1
    then ok (record r { transfer_id = d })
    else if id == 2
    then (get_u32 d >>= λ v. ok (record r { chunk_count = v }))
    else if id == 3
    then (get_u32 d >>= λ v. ok (record r { highest_contiguous = v }))
    else if id == 4
    then (get_u8 d >>= λ v. ok (record r { encoding = v }))
    else if id == 5
    then ok (record r { bitmap = d })
    else if id == 6
    then ok (record r { missing_ranges = d })
    else ok r

unfoldable pub set_transfer_complete_response :
    ℕ → Bytes → TransferCompleteResponse → Result TransferCompleteResponse
set_transfer_complete_response id d r =
    if id == 1
    then (get_u8 d >>= λ v. ok (record r { sealed = v }))
    else if id == 2
    then (get_u32 d >>= λ v. ok (record r { chunk_count = v }))
    else if id == 3
    then (get_u32 d >>= λ v. ok (record r { present = v }))
    else ok r

-- The test that encoder and decoder share.
unfoldable pub check_chunk_download_response : ChunkDownloadResponse → Result (Unit {0})
check_chunk_download_response r =
    if not (length r.transfer_id == 16)
      || length r.payload == 0
      || ltb max_chunk_bytes (length r.payload)
      || not (length r.chunk_hash == 32)
    then fail err_invalid_request "bad chunk response"
    else ok tt

module _ (encode_id : List Field → Result Bytes) where
  unfoldable pub marshal_transfer_create_response : TransferCreateResponse → Result Bytes
  marshal_transfer_create_response r =
      if not (length r.transfer_id == 16)
      then fail err_invalid_request "transfer_id must be 16 bytes"
      else if not (length r.download_secret == 32)
      then fail err_invalid_request "download_secret must be 32 bytes"
      else encode_id (
          (1, r.transfer_id)
          ∷ (2, put_u64 r.expires_at)
          ∷ (3, put_u32 r.chunk_size)
          ∷ (4, r.download_secret)
          ∷ [])

  unfoldable pub marshal_chunk_ack : ChunkAck → Result Bytes
  marshal_chunk_ack a =
      if not (length a.transfer_id == 16)
      then fail err_invalid_request "transfer_id must be 16 bytes"
      else if not (length a.missing_ranges % 8 == 0)
      then fail err_invalid_request "missing_ranges must be n*8 bytes"
      else if ltb max_missing_ranges (length a.missing_ranges / 8)
      then fail err_invalid_request "too many missing ranges"
      else encode_id (
          (1, a.transfer_id)
          ∷ (2, put_u32 a.highest_contiguous)
          ∷ (3, a.missing_ranges)
          ∷ (4, a.bitmap)
          ∷ (5, a.encoding ∷ [])
          ∷ [])

  unfoldable pub marshal_chunk_download_response : ChunkDownloadResponse → Result Bytes
  marshal_chunk_download_response r =
      check_chunk_download_response r
      >> encode_id
          ((1, r.transfer_id) ∷ (2, put_u32 r.index) ∷ (3, r.payload) ∷ (4, r.chunk_hash) ∷ [])

  unfoldable pub marshal_resume_response : ResumeResponse → Result Bytes
  marshal_resume_response r =
      if not (length r.transfer_id == 16)
        || r.chunk_count == 0
        || ltb max_chunks_per_transfer r.chunk_count
      then fail err_invalid_request "bad resume response"
      else encode_id (
          (1, r.transfer_id)
          ∷ (2, put_u32 r.chunk_count)
          ∷ (3, put_u32 r.highest_contiguous)
          ∷ (4, r.encoding ∷ [])
          ∷ (5, r.bitmap)
          ∷ (6, r.missing_ranges)
          ∷ [])

  unfoldable pub marshal_transfer_complete_response : TransferCompleteResponse → Result Bytes
  marshal_transfer_complete_response r =
      encode_id ((1, r.sealed ∷ []) ∷ (2, put_u32 r.chunk_count) ∷ (3, put_u32 r.present) ∷ [])

module _ (decode_id : Bytes → Result (List Field)) where
  unfoldable pub unmarshal_transfer_create_response : Bytes → Result TransferCreateResponse
  unmarshal_transfer_create_response body =
      unmarshal decode_id 128 set_transfer_create_response
        record { transfer_id = []; expires_at = 0; chunk_size = 0; download_secret = [] } body
      >>= λ r.
          if not (length r.transfer_id == 16)
          then fail err_invalid_request "transfer_id must be 16 bytes"
          else if not (length r.download_secret == 32)
          then fail err_invalid_request
              "download_secret must be 32 bytes (server too old for tickets?)"
          else ok r

  unfoldable pub unmarshal_chunk_ack : Bytes → Result ChunkAck
  unmarshal_chunk_ack body =
      unmarshal decode_id 8192 set_chunk_ack
        record {
          transfer_id = [];
          highest_contiguous = 0;
          missing_ranges = [];
          bitmap = [];
          encoding = 0;
        }
        body
      >>= λ a.
          if not (length a.transfer_id == 16)
          then fail err_invalid_request "transfer_id must be 16 bytes"
          else if not (length a.missing_ranges % 8 == 0)
          then fail err_invalid_request "missing_ranges corrupt"
          else ok a

  unfoldable pub unmarshal_chunk_download_response : Bytes → Result ChunkDownloadResponse
  unmarshal_chunk_download_response body =
      unmarshal decode_id (max_chunk_bytes + 256) set_chunk_download_response
        record { transfer_id = []; index = 0; payload = []; chunk_hash = [] } body
      >>= λ r. check_chunk_download_response r >> ok r

  unfoldable pub unmarshal_resume_response : Bytes → Result ResumeResponse
  unmarshal_resume_response body =
      unmarshal decode_id 8192 set_resume_response
        record {
          transfer_id = [];
          chunk_count = 0;
          highest_contiguous = 0;
          encoding = 0;
          bitmap = [];
          missing_ranges = [];
        }
        body
      >>= λ r.
          if not (length r.transfer_id == 16)
          then fail err_invalid_request "bad resume response"
          else ok r

  unfoldable pub unmarshal_transfer_complete_response : Bytes → Result TransferCompleteResponse
  unmarshal_transfer_complete_response body =
      unmarshal decode_id 64 set_transfer_complete_response
        record { sealed = 0; chunk_count = 0; present = 0 } body
