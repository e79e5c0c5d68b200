-- ===== src/Tests/Store/Delivered.antt =====
-- A file of one chunk, completed and downloaded.
use nex_talk_file_relay.Base.{
  ℕ, zero, suc, ◌<◌, ◌≡◌, refl, arith, true, some, Bytes, bytes_key, number_key, bytes_eq,
}
use nex_talk_file_relay.Base.Map.{lookup, insert}
use nex_talk_file_relay.Protocol.Errors.{ok}
use nex_talk_file_relay.Protocol.Validate.{validate_transfer_complete, validate_chunk_upload}
use nex_talk_file_relay.Store.Transfers.{
  complete_transfer, new_transfer, store_chunk, put_chunk, put_chunk_into, with_transfer,
  get_transfer_locked, highest_loop, check_chunk,
}
use nex_talk_file_relay.Store.Transfers.Invariant.{is_some}
use nex_talk_file_relay.Store.Downloads.{check_ticket, get_chunk_by_ticket}
use nex_talk_file_relay.Store.Uploads.Delivery.{complete_transfer-delivers}
use nex_talk_file_relay.Tests.Data.{cut, transfer_id, ticket, seal_request}
use nex_talk_file_relay.Tests.Store.{uploaded, full_transfer, uploaded-IsValid}

all_stored :
    (j : ℕ) → j < full_transfer.chunk_count → is_some (lookup j full_transfer.chunks) ≡ true
unfolding lookup insert store_chunk new_transfer
all_stored zero h = refl
all_stored (suc j) h = absurd (omega arith)

complete_transfer-delivers_example :
    (p : Bytes) × ((complete_transfer 70000 seal_request uploaded).0 ≡ ok (true, 1, 1))
    × (lookup 0 full_transfer.chunks ≡ some p)
    × ((get_chunk_by_ticket cut 80000 transfer_id ticket 0
          (complete_transfer 70000 seal_request uploaded).1).0
        ≡ ok (p, cut p))
unfolding lookup insert bytes_eq new_transfer store_chunk put_chunk put_chunk_into with_transfer
    get_transfer_locked highest_loop validate_chunk_upload check_chunk check_ticket
    validate_transfer_complete
complete_transfer-delivers_example =
    complete_transfer-delivers cut 70000 80000 seal_request ticket 0 uploaded full_transfer
      uploaded-IsValid refl refl refl refl all_stored refl (omega arith)
