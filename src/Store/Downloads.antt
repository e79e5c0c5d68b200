-- ===== src/Store/Downloads.antt =====
-- The downloads of server/storage/memstore.go: chunks and progress, for the owner of a mailbox, for
-- the holder of a ticket and for the uploader.
use nex_talk_file_relay.Base.{
  ℕ, not, [], Option, none, some, Bytes, bytes_eq, bytes_key, number_key, leb, ◌==◌, length,
  if◌then◌else◌,
}
use nex_talk_file_relay.Base.Map.{lookup}
use nex_talk_file_relay.Protocol.Errors.{
  Result, ok, err, fail, err_auth_failed, err_chunk_out_of_range, err_chunk_invalid,
}
use nex_talk_file_relay.Store.Types.{TransferData, TransferView, ResumeView, MemStore, Outcome}
use nex_talk_file_relay.Store.Transfers.{with_transfer, with_recipient}
use nex_talk_file_relay.Store.Resume.{build_resume_view}

-- `t.hashes[index]` of a missing key is nil.
unfoldable pub or_nil : Option Bytes → Bytes
or_nil none = []
or_nil (some h) = h

-- The end of both chunk downloads: the payload and its hash.
unfoldable pub read_chunk : ℕ → TransferData → Result (Bytes × Bytes)
read_chunk index t =
    if leb t.chunk_count index
    then fail err_chunk_out_of_range "index out of range"
    else elim (lookup index t.chunks) [
      | none ↦ fail err_chunk_invalid "chunk missing"
      | some p ↦ ok (p, or_nil (lookup index t.hashes))
    ]

unfoldable pub progress : ℕ → Bytes → MemStore → Outcome (ResumeView × TransferView)
progress now transfer_id s =
    with_transfer now transfer_id s λ t s'. (ok (build_resume_view t transfer_id), s')

module _ (sha256 : Bytes → Bytes) where
  unfoldable pub check_ticket : TransferData → Bytes → Result (Unit {0})
  check_ticket t ticket =
      if not (length ticket == 32)
      then fail err_auth_failed "ticket must be 32 bytes"
      else if not (bytes_eq (sha256 ticket) t.download_secret_hash)
      then fail err_auth_failed "bad ticket"
      else ok tt

  unfoldable pub get_chunk : ℕ → Bytes → Bytes → Bytes → ℕ → MemStore → Outcome (Bytes × Bytes)
  get_chunk now transfer_id mailbox_id read_secret index s =
      with_transfer now transfer_id s λ t s'.
        with_recipient sha256 now t mailbox_id read_secret s' λ s''. (read_chunk index t, s'')

  unfoldable pub resume : ℕ → Bytes → Bytes → Bytes → MemStore → Outcome (ResumeView × TransferView)
  resume now transfer_id mailbox_id read_secret s = with_transfer now transfer_id s λ t s'.
      with_recipient sha256 now t mailbox_id read_secret s'
        λ s''. (ok (build_resume_view t transfer_id), s'')

  unfoldable pub get_chunk_by_ticket : ℕ → Bytes → Bytes → ℕ → MemStore → Outcome (Bytes × Bytes)
  get_chunk_by_ticket now transfer_id ticket index s =
      with_transfer now transfer_id s λ t s'. elim (check_ticket t ticket) [
        | err e ↦ (err e, s')
        | ok _ ↦ (read_chunk index t, s')
      ]

  unfoldable pub resume_by_ticket :
      ℕ → Bytes → Bytes → MemStore → Outcome (ResumeView × TransferView)
  resume_by_ticket now transfer_id ticket s = with_transfer now transfer_id s λ t s'.
      elim (check_ticket t ticket) [
        | err e ↦ (err e, s')
        | ok _ ↦ (ok (build_resume_view t transfer_id), s')
      ]
