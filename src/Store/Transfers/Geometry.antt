-- ===== src/Store/Transfers/Geometry.antt =====
-- The machine arithmetic of the chunk checks of PutChunk (server/storage/memstore.go).
use nex_talk_file_relay.Base.{
  ℕ, ◌*◌, ◌<◌, ◌≡◌, true, false, Bytes, bytes_eq_iff, arith, ◌==◌, length,
}
use nex_talk_file_relay.Protocol.Errors.{ok}
use nex_talk_file_relay.Protocol.Messages.{ChunkUpload}
use nex_talk_file_relay.Protocol.Validate.Bounds.{Geometry}
use nex_talk_file_relay.Store.Types.{TransferData}
use nex_talk_file_relay.Store.Transfers.{check_chunk, chunk_offset, is_complete, is_cancelled}
use nex_talk_file_relay.Store.Transfers.Presence.{chunk_length}

abbrev pub HasGeometry : TransferData → Type 0
HasGeometry t = Geometry t.total_size t.chunk_size t.chunk_count

offset-lt_total :
    (total size count i : ℕ) → Geometry total size count → i < count → i * size < total
offset-lt_total total size count i g h = grind arith

pub chunk_offset_lem :
    (t : TransferData) (i : ℕ)
    → HasGeometry t
    → i < t.chunk_count
    → chunk_offset t i ≡ i * t.chunk_size
chunk_offset_lem t i g h =
    omega (arith, offset-lt_total t.total_size t.chunk_size t.chunk_count i g h)

-- What a chunk that passes the checks is like: in range, at its offset, of the length that the
-- geometry gives its index, for a transfer that is still open, and with its own hash or none.
pub record Fits (sha256 : Bytes → Bytes) (t : TransferData) (c : ChunkUpload) : Type 0 where
  pub in_range : c.index < t.chunk_count
  pub at_offset : c.offset ≡ c.index * t.chunk_size
  pub sized : length c.payload ≡ chunk_length t.total_size t.chunk_size t.chunk_count c.index
  pub not_complete : is_complete t.state ≡ false
  pub not_cancelled : is_cancelled t.state ≡ false
  pub hashed : (length c.chunk_hash == 32) ≡ true → c.chunk_hash ≡ sha256 c.payload

pub check_chunk-Fits :
    (sha256 : Bytes → Bytes) (t : TransferData) (c : ChunkUpload)
    → HasGeometry t
    → check_chunk sha256 t c ≡ ok tt
    → Fits sha256 t c
unfolding check_chunk
check_chunk-Fits sha256 t c g h = record {
  in_range = ground arith;
  at_offset = ground (arith, chunk_offset_lem t c.index g);
  sized = ground (
    arith,
    chunk_offset_lem t c.index g,
    offset-lt_total t.total_size t.chunk_size t.chunk_count c.index g,
  );
  not_complete = ground arith;
  not_cancelled = ground arith;
  hashed = λ e. ground (arith, bytes_eq_iff (sha256 c.payload) c.chunk_hash);
}
