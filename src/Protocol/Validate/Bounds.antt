-- ===== src/Protocol/Validate/Bounds.antt =====
-- The geometry that ValidateTransferCreate of protocol/schemas.go lets through.
use nex_talk_file_relay.Base.{ℕ, ◌+◌, ◌-◌, ◌*◌, ◌/◌, ◌≤◌, ◌<◌, ◌≡◌, arith}
use nex_talk_file_relay.Protocol.Limits.{max_chunk_bytes, max_file_bytes, max_chunks_per_transfer}
use nex_talk_file_relay.Protocol.Errors.{ok}
use nex_talk_file_relay.Protocol.Validate.{validate_transfer_create}

-- The facts that a valid geometry gives: the chunks before the last are full, and the last holds
-- between one byte and a full chunk.
pub record Geometry (total size count : ℕ) : Type 0 where
  pub size_pos : 0 < size
  pub size_max : size ≤ max_chunk_bytes
  pub count_pos : 0 < count
  pub count_max : count ≤ max_chunks_per_transfer
  pub total_max : total ≤ max_file_bytes
  pub covers : total ≤ count * size
  pub tight : count * size < total + size

-- The ceiling quotient, by the division with remainder.
pub ceiling_bounds :
    (total size : ℕ)
    → 0 < size
    → (total ≤ ((total + size - 1) / size) * size)
      × (((total + size - 1) / size) * size < total + size)
      × ((total + size - 1) / size ≤ total + size - 1)
ceiling_bounds total size h = grind arith

-- An accepted transfer has its chunk size, chunk count and total size within the limits, and the
-- chunks cover the total with none to spare.
pub validate_transfer_create-Geometry :
    (total size count : ℕ)
    → validate_transfer_create total size count ≡ ok tt
    → Geometry total size count
unfolding validate_transfer_create
validate_transfer_create-Geometry total size count h = ground (arith, ceiling_bounds total size)
