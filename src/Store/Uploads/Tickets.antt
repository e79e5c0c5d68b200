-- ===== src/Store/Uploads/Tickets.antt =====
-- Downloads by ticket and by the owner (server/storage/memstore.go).
use nex_talk_file_relay.Base.{
  ℕ, ◌≡◌, refl, true, false, some, Bytes, bytes_eq_refl, bytes_key, arith, inl, inr,
}
use nex_talk_file_relay.Base.Map.{lookup}
use nex_talk_file_relay.Protocol.Errors.{Result-cases, ok, err}
use nex_talk_file_relay.Store.Types.{
  expired, put_transfer, TransferData, MailboxData, MemStore, put_mailbox,
}
use nex_talk_file_relay.Store.Mailboxes.{slide_mailbox}
use nex_talk_file_relay.Store.Messages.Batch.{Owns, with_owner-Owns}
use nex_talk_file_relay.Store.Transfers.{get_transfer_locked, with_transfer, with_recipient}
use nex_talk_file_relay.Store.Downloads.{check_ticket, read_chunk, get_chunk, get_chunk_by_ticket}
use nex_talk_file_relay.Store.Guards.{has_run_out, with_transfer-rule}

module _ (sha256 : Bytes → Bytes) where
  get_chunk_by_ticket-rule {κ} :
      (P : MemStore → Type κ) (now : ℕ) (id ticket : Bytes) (index : ℕ) (s : MemStore)
      → P s
      → ((t : TransferData) → P (put_transfer id (record t { state = expired }) s))
      → P (get_chunk_by_ticket sha256 now id ticket index s).1
  unfolding get_chunk_by_ticket
  get_chunk_by_ticket-rule P now id ticket index s p ran_out =
      with_transfer-rule P now id s
        (λ t s'. elim (check_ticket sha256 t ticket) [
          | err e ↦ (err e, s')
          | ok _ ↦ (read_chunk index t, s')
        ])
        p (λ t found open_still. ran_out t)
        λ t found. elim (Result-cases (check_ticket sha256 t ticket)) [
          | inl (e, bad) ↦ rw bad p
          | inr (u, good) ↦ rw good p
        ]

  -- A download by ticket, whatever its outcome, touches no mailbox (so it does not renew the owner's
  -- time to live) and no replay key.
  pub get_chunk_by_ticket-frame :
      (now : ℕ) (id ticket : Bytes) (index : ℕ) (s : MemStore)
      → ((get_chunk_by_ticket sha256 now id ticket index s).1.mailboxes ≡ s.mailboxes)
        × ((get_chunk_by_ticket sha256 now id ticket index s).1.replay ≡ s.replay)
  unfolding get_chunk_by_ticket
  get_chunk_by_ticket-frame now id ticket index s = (
    get_chunk_by_ticket-rule (λ r. r.mailboxes ≡ s.mailboxes) now id ticket index s refl
        (λ t. refl),
    get_chunk_by_ticket-rule (λ r. r.replay ≡ s.replay) now id ticket index s refl (λ t. refl),
  )

  -- The download of the mailbox's owner and that of the holder of the right ticket give the same
  -- result, for a transfer to that mailbox that has not run out: a chunk and its hash, or the same
  -- error.
  pub get_chunk-get_chunk_by_ticket :
      (now : ℕ) (id ticket secret : Bytes) (index : ℕ) (s : MemStore) (t : TransferData)
      (mb : MailboxData)
      → lookup id s.transfers ≡ some t
      → has_run_out now t ≡ false
      → t.has_mailbox ≡ true
      → Owns sha256 now t.mailbox_id secret s mb
      → check_ticket sha256 t ticket ≡ ok tt
      → (get_chunk sha256 now id t.mailbox_id secret index s).0
        ≡ (get_chunk_by_ticket sha256 now id ticket index s).0
  unfolding get_chunk get_chunk_by_ticket with_transfer get_transfer_locked with_recipient
  get_chunk-get_chunk_by_ticket now id ticket secret index s t mb found live owned o good = ground (
    arith,
    bytes_eq_refl t.mailbox_id,
    with_owner-Owns sha256
        (λ m. (read_chunk index t, put_mailbox t.mailbox_id (slide_mailbox now m) s)) o,
  )
