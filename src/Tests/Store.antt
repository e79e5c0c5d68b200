-- ===== src/Tests/Store.antt =====
-- The store on a concrete mailbox and a concrete file.
mod Delivered
use nex_talk_file_relay.Base.{
  ℕ, ◌≤◌, ◌+◌, ◌≡◌, refl, arith, [], ◌∷◌, ◌++◌, true, false, not, ◌&&◌, take, drop, replicate,
  length, bytes_eq, bytes_key, number_key, number_key, ltb, ◌==◌, if◌then◌else◌,
}
use nex_talk_file_relay.Base.Map.{lookup, insert}
use nex_talk_file_relay.Protocol.Limits.{max_stored_bytes_per_mailbox, replay_window_seconds}
use nex_talk_file_relay.Protocol.Messages.{ChunkUpload}
use nex_talk_file_relay.Protocol.Errors.{ok, fail, err_transfer_not_found, err_chunk_conflict}
use nex_talk_file_relay.Protocol.Validate.{
  validate_send_message, validate_transfer_create, validate_chunk_upload,
  validate_transfer_complete,
}
use nex_talk_file_relay.Protocol.Validate.Bounds.{validate_transfer_create-Geometry}
use nex_talk_file_relay.Store.Types.{
  TransferData, MemStore, new_mem_store, put_mailbox, put_transfer, millis,
}
use nex_talk_file_relay.Store.Mailboxes.{
  get_mailbox_locked, secret_matches, slide_mailbox, prune_messages_locked,
}
use nex_talk_file_relay.Store.Mailboxes.Prune.{live, with_queue, prune_messages_locked_lem}
use nex_talk_file_relay.Store.Messages.{
  send_message, receive_messages, ack_messages, clamp_limit, has_bad_id,
}
use nex_talk_file_relay.Store.Messages.Queue.{count_wanted, unwanted}
use nex_talk_file_relay.Store.Messages.Batch.{backlog, Owns, receive_messages_lem, ack_messages_lem}
use nex_talk_file_relay.Store.Messages.Delivery.{
  stored, send_message-transfers, ack_messages-twice, receive_messages-send_message,
}
use nex_talk_file_relay.Store.Uploads.Quota.{put_chunk-quota}
use nex_talk_file_relay.Store.Transfers.{
  mailbox_stored_bytes, transfer_bytes, queue_bytes, check_chunk, put_chunk, put_chunk_into,
  store_chunk, complete_transfer, seal, cancel_transfer, get_transfer, with_transfer,
  get_transfer_locked, with_recipient, highest_loop, new_transfer,
}
use nex_talk_file_relay.Store.Transfers.Geometry.{Fits, check_chunk-Fits}
use nex_talk_file_relay.Store.Transfers.Presence.{leading, highest_loop-leading}
use nex_talk_file_relay.Store.Transfers.Invariant.{IsTransfer, new_transfer-IsTransfer}
use nex_talk_file_relay.Store.Downloads.{check_ticket, get_chunk, get_chunk_by_ticket, progress}
use nex_talk_file_relay.Store.Replay.{check_and_mark, is_seen}
use nex_talk_file_relay.Store.Replay.Window.{run_checks, check_and_mark-replay}
use nex_talk_file_relay.Store.Uploads.Chunks.{
  Arrives, stored_transfer, put_chunk-download, put_chunk-again, put_chunk-first,
}
use nex_talk_file_relay.Store.Uploads.Sealing.{
  IsSealed, complete_transfer-IsSealed, cancel_transfer-gone,
}
use nex_talk_file_relay.Store.Uploads.Tickets.{
  get_chunk_by_ticket-frame, get_chunk-get_chunk_by_ticket,
}
use nex_talk_file_relay.Store.Valid.{IsValid, new_mem_store-IsValid, put_transfer-IsValid}
use nex_talk_file_relay.Store.Valid.Runs.{
  create_mailbox_call, send_call, put_call, complete_call, step, step-IsValid, run, run-IsValid,
}
use nex_talk_file_relay.Tests.Data.{
  cut, mailbox_id, secret, transfer_id, ticket, message_id, mailbox, with_mailbox, message, create,
  chunk, seal_request, fresh_transfer, with_transfer_stored, waiting,
}

-- The mailbox.

owns : Owns cut 50000 mailbox_id secret with_mailbox mailbox
unfolding get_mailbox_locked secret_matches lookup insert bytes_eq
owns = record { found = refl; matches = refl }

receive_messages_lem_example : receive_messages cut 50000 mailbox_id secret 5 false with_mailbox ≡ (
  ok (take (clamp_limit 5) (backlog 50000 mailbox), not false),
  put_mailbox mailbox_id
      (slide_mailbox 50000 (
        with_queue
          (if false then backlog 50000 mailbox else drop (clamp_limit 5) (backlog 50000 mailbox))
          mailbox))
      with_mailbox,
)
receive_messages_lem_example =
    receive_messages_lem cut 50000 mailbox_id secret 5 false with_mailbox mailbox owns

ack_messages_lem_example :
    ack_messages cut 50000 mailbox_id secret (message_id ∷ []) 2 with_mailbox ≡ (
      ok (
        count_wanted (message_id ∷ []) (backlog 50000 mailbox),
        length (unwanted (message_id ∷ []) (backlog 50000 mailbox)),
      ),
      put_mailbox mailbox_id
          (slide_mailbox 50000
            (with_queue (unwanted (message_id ∷ []) (backlog 50000 mailbox)) mailbox))
          with_mailbox,
    )
unfolding has_bad_id
ack_messages_lem_example =
    ack_messages_lem cut 50000 mailbox_id secret (message_id ∷ []) 2 with_mailbox mailbox owns refl
      refl refl (omega arith)

ack_messages-twice_example :
    (ack_messages cut 60000 mailbox_id secret
      (message_id ∷ [])
      2
      (ack_messages cut 50000 mailbox_id secret (message_id ∷ []) 2 with_mailbox).1).0
    ≡ ok (0, length (live 60000 (unwanted (message_id ∷ []) (backlog 50000 mailbox))))
unfolding has_bad_id
ack_messages-twice_example =
    ack_messages-twice cut 50000 60000 mailbox_id secret (message_id ∷ []) with_mailbox mailbox owns
      refl refl (omega arith) (omega arith)

send_message-transfers_example :
    (send_message 50000
      (replicate 16 20)
      message
      record with_mailbox { transfers = with_transfer_stored.transfers }).0
    ≡ (send_message 50000 (replicate 16 20) message with_mailbox).0
send_message-transfers_example =
    send_message-transfers 50000 (replicate 16 20) message with_mailbox
      with_transfer_stored.transfers

receive_messages-send_message_example :
    (receive_messages cut 60000 mailbox_id secret 5 true
      (send_message 50000 (replicate 16 20) message with_mailbox).1).0
    ≡ ok (
      take
          (clamp_limit 5)
          (live 60000 (backlog 50000 mailbox) ++ stored 50000 (replicate 16 20) message ∷ []),
      not true,
    )
unfolding validate_send_message
receive_messages-send_message_example =
    receive_messages-send_message cut 50000 60000 (replicate 16 20) message secret 5 true
      with_mailbox mailbox owns refl refl refl (omega arith)

-- The file.

fresh_transfer-IsTransfer : IsTransfer cut fresh_transfer
unfolding validate_transfer_create
fresh_transfer-IsTransfer =
    new_transfer-IsTransfer cut 40000 (replicate 16 0) ticket create
      (validate_transfer_create-Geometry 3 4 1 refl)

arrives : Arrives cut 50000 chunk with_transfer_stored fresh_transfer
unfolding validate_chunk_upload check_chunk lookup insert bytes_eq new_transfer
arrives = record { valid = refl; found = refl; live = refl; checked = refl }

check_chunk-Fits_example : Fits cut fresh_transfer chunk
check_chunk-Fits_example =
    check_chunk-Fits cut fresh_transfer chunk fresh_transfer-IsTransfer.geometry arrives.checked

put_chunk-download_example :
    (get_chunk_by_ticket cut 60000 transfer_id ticket 0
      (put_chunk cut 50000 chunk with_transfer_stored).1).0
    ≡ ok (chunk.payload, cut chunk.payload)
unfolding lookup new_transfer check_ticket bytes_eq store_chunk
put_chunk-download_example =
    put_chunk-download cut 50000 chunk with_transfer_stored fresh_transfer 60000 ticket
      fresh_transfer-IsTransfer arrives refl refl refl (omega arith)

put_chunk-again_example :
    put_chunk cut 60000 chunk (put_chunk cut 50000 chunk with_transfer_stored).1
    ≡ put_chunk cut 50000 chunk with_transfer_stored
unfolding lookup new_transfer store_chunk
put_chunk-again_example =
    put_chunk-again cut 50000 chunk with_transfer_stored fresh_transfer 60000 arrives refl refl
      (omega arith)

-- The same file with its chunk.
abbrev uploaded : MemStore
uploaded = (put_chunk cut 50000 chunk with_transfer_stored).1

abbrev full_transfer : TransferData
full_transfer = stored_transfer cut 50000 chunk with_transfer_stored fresh_transfer

-- Another payload for the same place.
abbrev other_chunk : ChunkUpload
other_chunk = record chunk { payload = 7 ∷ 7 ∷ 7 ∷ []; chunk_hash = [] }

put_chunk-first_example :
    let (r, s1) = put_chunk cut 50000 chunk with_transfer_stored in
    let (r2, s2) = put_chunk cut 60000 other_chunk s1 in
    (s2 ≡ s1)
    × ((get_chunk_by_ticket cut 70000 transfer_id ticket 0 s2).0
        ≡ ok (chunk.payload, cut chunk.payload))
    × ((n : ℕ)
        → r2 ≡ ok n
        → (length other_chunk.payload ≡ length chunk.payload)
          × (cut other_chunk.payload ≡ cut chunk.payload)
          × (r ≡ ok n))
unfolding lookup new_transfer check_ticket bytes_eq store_chunk
put_chunk-first_example =
    put_chunk-first cut 50000 chunk with_transfer_stored fresh_transfer 60000 70000 other_chunk
      ticket fresh_transfer-IsTransfer arrives refl refl refl refl refl (omega arith) (omega arith)

uploaded-IsValid : IsValid cut uploaded
unfolding step run
uploaded-IsValid =
    step-IsValid cut with_transfer_stored (50000, put_call chunk)
      (put_transfer-IsValid cut transfer_id fresh_transfer new_mem_store fresh_transfer-IsTransfer
        (new_mem_store-IsValid cut))

run-IsValid_example : IsValid cut (
    run cut uploaded (
      (60000, create_mailbox_call mailbox_id secret)
      ∷ (60000, send_call message_id message)
      ∷ (70000, complete_call seal_request)
      ∷ []))
run-IsValid_example =
    run-IsValid cut uploaded
      ((60000, create_mailbox_call mailbox_id secret)
        ∷ (60000, send_call message_id message)
        ∷ (70000, complete_call seal_request)
        ∷ [])
      uploaded-IsValid

complete_transfer-IsSealed_example :
    IsSealed cut transfer_id (complete_transfer 70000 seal_request uploaded).1 true 1 1
unfolding complete_transfer validate_transfer_complete seal lookup insert bytes_eq new_transfer
    store_chunk put_chunk put_chunk_into with_transfer get_transfer_locked highest_loop
    validate_chunk_upload check_chunk
complete_transfer-IsSealed_example =
    complete_transfer-IsSealed cut 70000 seal_request uploaded
      (complete_transfer 70000 seal_request uploaded).1 true 1 1 uploaded-IsValid refl

cancel_transfer-gone_example :
    let s = (cancel_transfer cut 70000 transfer_id mailbox_id secret with_transfer_stored).1 in
    (get_chunk_by_ticket cut 80000 transfer_id ticket 0 s
      ≡ (fail err_transfer_not_found "transfer not found", s))
    × (get_chunk cut 80000 transfer_id mailbox_id secret 0 s
        ≡ (fail err_transfer_not_found "transfer not found", s))
    × (progress 80000 transfer_id s ≡ (fail err_transfer_not_found "transfer not found", s))
    × (get_transfer 80000 transfer_id s ≡ (fail err_transfer_not_found "transfer not found", s))
unfolding cancel_transfer with_recipient lookup insert bytes_eq new_transfer
cancel_transfer-gone_example =
    cancel_transfer-gone cut 70000 80000 transfer_id mailbox_id secret ticket 0 with_transfer_stored
      refl

get_chunk_by_ticket-frame_example :
    ((get_chunk_by_ticket cut 60000 transfer_id ticket 0 uploaded).1.mailboxes ≡ uploaded.mailboxes)
    × ((get_chunk_by_ticket cut 60000 transfer_id ticket 0 uploaded).1.replay ≡ uploaded.replay)
get_chunk_by_ticket-frame_example =
    get_chunk_by_ticket-frame cut 60000 transfer_id ticket 0 uploaded

-- The file sent to the mailbox.
abbrev addressed : TransferData
addressed = new_transfer cut 40000 mailbox_id ticket (record create { mailbox_id = mailbox_id })

abbrev with_both : MemStore
with_both = put_transfer transfer_id addressed with_mailbox

addressed-Owns : Owns cut 50000 mailbox_id secret with_both mailbox
unfolding get_mailbox_locked secret_matches lookup insert bytes_eq
addressed-Owns = record { found = refl; matches = refl }

get_chunk-get_chunk_by_ticket_example :
    (get_chunk cut 50000 transfer_id mailbox_id secret 0 with_both).0
    ≡ (get_chunk_by_ticket cut 50000 transfer_id ticket 0 with_both).0
unfolding lookup insert bytes_eq new_transfer check_ticket
get_chunk-get_chunk_by_ticket_example =
    get_chunk-get_chunk_by_ticket cut 50000 transfer_id ticket secret 0 with_both addressed mailbox
      refl refl refl addressed-Owns refl

addressed-IsTransfer : IsTransfer cut addressed
unfolding validate_transfer_create
addressed-IsTransfer =
    new_transfer-IsTransfer cut 40000 mailbox_id ticket (record create { mailbox_id = mailbox_id })
      (validate_transfer_create-Geometry 3 4 1 refl)

addressed-Arrives : Arrives cut 50000 chunk with_both addressed
unfolding validate_chunk_upload check_chunk lookup insert bytes_eq new_transfer
addressed-Arrives = record { valid = refl; found = refl; live = refl; checked = refl }

put_chunk-quota_example :
    mailbox_stored_bytes mailbox_id (put_chunk cut 50000 chunk with_both).1
    ≤ max_stored_bytes_per_mailbox
unfolding mailbox_stored_bytes transfer_bytes queue_bytes lookup insert bytes_eq new_transfer
put_chunk-quota_example =
    put_chunk-quota cut 50000 chunk with_both addressed addressed-Arrives addressed-IsTransfer refl
      refl (omega arith)

-- The replay cache.

check_and_mark-replay_example :
    (check_and_mark 139999 secret
      (run_checks ((60000, ticket) ∷ []) (check_and_mark 50000 secret []).1)).0
    ≡ true
unfolding check_and_mark is_seen lookup
check_and_mark-replay_example =
    check_and_mark-replay 50000 139999 secret ((60000, ticket) ∷ []) [] tt refl
      (omega arith, omega arith) (omega arith)
