-- ===== src/Store/Valid/Runs.antt =====
-- Sequences of calls of the Store interface (server/storage/store.go) under the invariant.
use nex_talk_file_relay.Base.{
  ℕ, ◌≡◌, ◌∙◌, sym, subst, arith, Bool, List, [], ◌∷◌, Option, some, Bytes, leb, Option-cases,
  if_rule, inl, inr,
}
use nex_talk_file_relay.Base.Map.{Map, AllValues}
use nex_talk_file_relay.Protocol.Errors.{Result-cases}
use nex_talk_file_relay.Protocol.Messages.{
  SendMessage, TransferCreate, ChunkUpload, TransferComplete,
}
use nex_talk_file_relay.Store.Types.{MailboxData, TransferData, MemStore}
use nex_talk_file_relay.Store.Mailboxes.{create_mailbox, prune_messages_locked}
use nex_talk_file_relay.Store.Mailboxes.Prune.{prune_messages_locked_lem}
use nex_talk_file_relay.Store.Messages.{send_message, receive_messages, ack_messages}
use nex_talk_file_relay.Store.Transfers.{
  create_transfer, put_chunk, complete_transfer, cancel_transfer, get_transfer,
}
use nex_talk_file_relay.Store.Transfers.Invariant.{IsTransfer}
use nex_talk_file_relay.Store.Downloads.{
  progress, check_ticket, get_chunk, resume, get_chunk_by_ticket, resume_by_ticket,
}
use nex_talk_file_relay.Store.Replay.{check_and_mark_replay}
use nex_talk_file_relay.Store.Replay.Window.{check_and_mark-IsDistinct, prune_replay-IsDistinct}
use nex_talk_file_relay.Store.Sweep.{sweep_mailbox, sweep_mailboxes, sweep_transfers, sweep}
use nex_talk_file_relay.Store.Valid.{IsMailbox, IsValid}
use nex_talk_file_relay.Store.Valid.Queues.{
  live-IsMailbox, create_mailbox-IsValid, send_message-IsValid, receive_messages-IsValid,
  ack_messages-IsValid,
}
use nex_talk_file_relay.Store.Valid.Uploads.{
  with_transfer-IsValid, with_recipient-IsValid, create_transfer-IsValid, put_chunk-IsValid,
  complete_transfer-IsValid, cancel_transfer-IsValid,
}

sweep_mailbox-IsMailbox :
    (now : ℕ) (id : Bytes) (ts : Map Bytes TransferData) (mb mb' : MailboxData)
    → IsMailbox mb
    → sweep_mailbox now id ts mb ≡ some mb'
    → IsMailbox mb'
unfolding sweep_mailbox
sweep_mailbox-IsMailbox now id ts mb mb' m stays =
    let pruned : prune_messages_locked mb now ≡ mb' = ground arith in
    subst IsMailbox (sym (prune_messages_locked_lem mb now) ∙ pruned) (live-IsMailbox now mb m)

sweep_mailboxes-AllValues :
    (now : ℕ) (ts : Map Bytes TransferData) (m : Map Bytes MailboxData)
    → AllValues IsMailbox m
    → AllValues IsMailbox (sweep_mailboxes now ts m).2
unfolding sweep_mailboxes
sweep_mailboxes-AllValues now ts [] h = tt
sweep_mailboxes-AllValues now ts ((id, mb) ∷ rest) h =
    let kept = sweep_mailboxes-AllValues now ts rest h.1 in
    elim (Option-cases (sweep_mailbox now id ts mb)) [
      | inl gone ↦ rw (gone, sweep_mailboxes) kept
      | inr (mb', stays) ↦
          rw (stays, sweep_mailboxes) (sweep_mailbox-IsMailbox now id ts mb mb' h.0 stays, kept)
    ]

sweep_transfers-AllValues :
    (P : TransferData → Type 0) (now : ℕ) (m : Map Bytes TransferData)
    → AllValues P m
    → AllValues P (sweep_transfers now m).1
unfolding sweep_transfers
sweep_transfers-AllValues P now [] h = tt
sweep_transfers-AllValues P now ((id, t) ∷ rest) h =
    let kept = sweep_transfers-AllValues P now rest h.1 in
    if_rule (λ (o : ℕ × Map Bytes TransferData). AllValues P o.1) (leb t.expires_at now) (λ _. kept)
      (λ _. (h.0, kept))

-- The calls of the `Store` interface that can change the store.
pub data Call : Type 0 where
  create_mailbox_call : Bytes → Bytes → Call
  send_call : Bytes → SendMessage → Call
  receive_call : Bytes → Bytes → ℕ → Bool → Call
  ack_call : Bytes → Bytes → List Bytes → ℕ → Call
  create_call : Bytes → Option Bytes → TransferCreate → Call
  put_call : ChunkUpload → Call
  get_call : Bytes → Bytes → Bytes → ℕ → Call
  resume_call : Bytes → Bytes → Bytes → Call
  get_ticket_call : Bytes → Bytes → ℕ → Call
  resume_ticket_call : Bytes → Bytes → Call
  progress_call : Bytes → Call
  complete_call : TransferComplete → Call
  cancel_call : Bytes → Bytes → Bytes → Call
  view_call : Bytes → Call
  replay_call : Bytes → Call
  sweep_call : Call

module _ (sha256 : Bytes → Bytes) where
  -- The store that a call leaves, whether it succeeds or fails.
  unfoldable pub step : MemStore → ℕ × Call → MemStore
  step s (now, create_mailbox_call id hash) = (create_mailbox now id hash s).1
  step s (now, send_call id msg) = (send_message now id msg s).1
  step s (now, receive_call mid secret limit peek) =
      (receive_messages sha256 now mid secret limit peek s).1
  step s (now, ack_call mid secret ids disposition) =
      (ack_messages sha256 now mid secret ids disposition s).1
  step s (now, create_call id ticket t) = (create_transfer sha256 now id ticket t s).1
  step s (now, put_call c) = (put_chunk sha256 now c s).1
  step s (now, get_call id mid secret index) = (get_chunk sha256 now id mid secret index s).1
  step s (now, resume_call id mid secret) = (resume sha256 now id mid secret s).1
  step s (now, get_ticket_call id ticket index) =
      (get_chunk_by_ticket sha256 now id ticket index s).1
  step s (now, resume_ticket_call id ticket) = (resume_by_ticket sha256 now id ticket s).1
  step s (now, progress_call id) = (progress now id s).1
  step s (now, complete_call t) = (complete_transfer now t s).1
  step s (now, cancel_call id mid secret) = (cancel_transfer sha256 now id mid secret s).1
  step s (now, view_call id) = (get_transfer now id s).1
  step s (now, replay_call key) = (check_and_mark_replay now key s).1
  step s (now, sweep_call) = (sweep now s).1

  unfoldable pub run : MemStore → List (ℕ × Call) → MemStore
  run s [] = s
  run s (c ∷ cs) = run (step s c) cs

  sweep-IsValid : (now : ℕ) (s : MemStore) → IsValid sha256 s → IsValid sha256 (sweep now s).1
  unfolding sweep
  sweep-IsValid now s v = record {
    mailboxes = sweep_mailboxes-AllValues now s.transfers s.mailboxes v.mailboxes;
    transfers = sweep_transfers-AllValues (IsTransfer sha256) now s.transfers v.transfers;
    distinct = prune_replay-IsDistinct now s.replay v.distinct;
  }

  check_and_mark_replay-IsValid :
      (now : ℕ) (key : Bytes) (s : MemStore)
      → IsValid sha256 s
      → IsValid sha256 (check_and_mark_replay now key s).1
  unfolding check_and_mark_replay
  check_and_mark_replay-IsValid now key s v = record {
    mailboxes = v.mailboxes;
    transfers = v.transfers;
    distinct = check_and_mark-IsDistinct now key s.replay v.distinct;
  }

  -- Every call, successful or not, leaves a valid store valid.
  pub step-IsValid : (s : MemStore) (c : ℕ × Call) → IsValid sha256 s → IsValid sha256 (step s c)
  unfolding step progress get_chunk resume get_chunk_by_ticket resume_by_ticket get_transfer
  step-IsValid s (now, create_mailbox_call id hash) v =
      create_mailbox-IsValid sha256 now id hash s v
  step-IsValid s (now, send_call id msg) v = send_message-IsValid sha256 now id msg s v
  step-IsValid s (now, receive_call mid secret limit peek) v =
      receive_messages-IsValid sha256 now mid secret limit peek s v
  step-IsValid s (now, ack_call mid secret ids disposition) v =
      ack_messages-IsValid sha256 now mid secret ids disposition s v
  step-IsValid s (now, create_call id ticket t) v =
      create_transfer-IsValid sha256 now id ticket t s v
  step-IsValid s (now, put_call c) v = put_chunk-IsValid sha256 now c s v
  step-IsValid s (now, get_call id mid secret index) v =
      with_transfer-IsValid sha256 now id s _ v
        λ t w. with_recipient-IsValid sha256 now t mid secret s _ v λ s' v'. v'
  step-IsValid s (now, resume_call id mid secret) v =
      with_transfer-IsValid sha256 now id s _ v
        λ t w. with_recipient-IsValid sha256 now t mid secret s _ v λ s' v'. v'
  step-IsValid s (now, get_ticket_call id ticket index) v =
      with_transfer-IsValid sha256 now id s _ v λ t w.
        elim (Result-cases (check_ticket sha256 t ticket)) [
          | inl (e, bad) ↦ rw bad v
          | inr (u, good) ↦ rw good v
        ]
  step-IsValid s (now, resume_ticket_call id ticket) v =
      with_transfer-IsValid sha256 now id s _ v λ t w.
        elim (Result-cases (check_ticket sha256 t ticket)) [
          | inl (e, bad) ↦ rw bad v
          | inr (u, good) ↦ rw good v
        ]
  step-IsValid s (now, progress_call id) v = with_transfer-IsValid sha256 now id s _ v λ t w. v
  step-IsValid s (now, complete_call t) v = complete_transfer-IsValid sha256 now t s v
  step-IsValid s (now, cancel_call id mid secret) v =
      cancel_transfer-IsValid sha256 now id mid secret s v
  step-IsValid s (now, view_call id) v = with_transfer-IsValid sha256 now id s _ v λ t w. v
  step-IsValid s (now, replay_call key) v = check_and_mark_replay-IsValid now key s v
  step-IsValid s (now, sweep_call) v = sweep-IsValid now s v

  -- From any valid store, any sequence of calls leaves a valid store.
  pub run-IsValid :
      (s : MemStore) (cs : List (ℕ × Call)) → IsValid sha256 s → IsValid sha256 (run s cs)
  unfolding run
  run-IsValid s [] v = v
  run-IsValid s (c ∷ cs) v = run-IsValid (step s c) cs (step-IsValid s c v)
