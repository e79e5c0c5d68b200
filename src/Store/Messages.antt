-- ===== src/Store/Messages.antt =====
-- The message queue of server/storage/memstore.go: send, receive and acknowledge.
pub mod Queue
pub mod Batch
pub mod Delivery
pub mod Opening
use nex_talk_file_relay.Base.{
  ℕ, ◌+◌, ◌%◌, ◌^◌, Bool, true, false, not, ◌&&◌, ◌||◌, List, [], ◌∷◌, ◌++◌, none, some, Bytes,
  bytes_eq, ltb, leb, ◌==◌, length, if◌then◌else◌,
}
use nex_talk_file_relay.Protocol.Limits.{
  max_queued_messages, max_stored_bytes_per_mailbox, max_batch_messages, msg_ttl_seconds,
}
use nex_talk_file_relay.Protocol.Errors.{
  Result, ok, err, fail, err_mailbox_not_found, err_quota_exceeded, err_invalid_request,
}
use nex_talk_file_relay.Protocol.Messages.{SendMessage, ack_received, ack_consumed}
use nex_talk_file_relay.Protocol.Validate.{validate_send_message}
use nex_talk_file_relay.Store.Types.{
  StoredMessage, MailboxData, MemStore, Outcome, put_mailbox, millis, to_array, envelope_bytes,
}
use nex_talk_file_relay.Store.Mailboxes.{
  slide_mailbox, get_mailbox_locked, prune_messages_locked, with_owner,
}

-- The part of `SendMessage` behind the mailbox lookup; `mb` is pruned already.
unfoldable pub enqueue :
    ℕ → Bytes → Bytes → SendMessage → MailboxData → MemStore → Outcome (Bytes × ℕ)
enqueue now id mid msg mb s =
    if leb max_queued_messages (length mb.messages)
    then (fail err_quota_exceeded "mailbox full", put_mailbox mid mb s)
    else if ltb max_stored_bytes_per_mailbox (mb.stored_bytes + length msg.envelope)
    then (fail err_quota_exceeded "mailbox byte quota", put_mailbox mid mb s)
    else (
      ok (id, (length mb.messages + 1) % 2 ^ 32),
      put_mailbox mid
          (slide_mailbox now (record mb {
            messages =
                mb.messages
                ++ record {
                  id = id;
                  envelope = msg.envelope;
                  sender_pub = msg.sender_pub;
                  enqueued_at = now;
                  expires_at = now + millis msg_ttl_seconds;
                }
                  ∷ [];
            stored_bytes = mb.stored_bytes + length msg.envelope;
          }))
          s,
    )

-- `id` is what `NewID` returns. The result is the message's ID and the length of the queue.
unfoldable pub send_message : ℕ → Bytes → SendMessage → MemStore → Outcome (Bytes × ℕ)
send_message now id msg s = elim (validate_send_message msg) [
  | err e ↦ (err e, s)
  | ok _ ↦
      let mid = to_array 16 msg.mailbox_id in
      elim (get_mailbox_locked mid now s) [
        | none ↦ (fail err_mailbox_not_found "mailbox not found", s)
        | some mb ↦ enqueue now id mid msg (prune_messages_locked mb now) s
      ]
]

-- The loop of `ReceiveMessages` over the queue, with `out` and `kept` as they grow.
unfoldable pub receive_loop :
    ℕ
    → Bool
    → List StoredMessage
    → List StoredMessage
    → List StoredMessage
    → List StoredMessage × List StoredMessage
receive_loop limit peek [] out kept = (out, kept)
receive_loop limit peek (m ∷ ms) out kept =
    receive_loop limit peek ms (if ltb (length out) limit then out ++ m ∷ [] else out)
      (if ltb (length out) limit then (if peek then kept ++ m ∷ [] else kept) else kept ++ m ∷ [])

-- The loop over the queue for an acknowledgement: what is kept, and how many IDs were wanted.
unfoldable pub wanted : List Bytes → Bytes → Bool
wanted [] id = false
wanted (w ∷ ws) id = bytes_eq (to_array 16 w) id || wanted ws id

unfoldable pub ack_loop :
    List Bytes → List StoredMessage → List StoredMessage → ℕ → List StoredMessage × ℕ
ack_loop ids [] kept acked = (kept, acked)
ack_loop ids (m ∷ ms) kept acked =
    ack_loop ids ms (if wanted ids m.id then kept else kept ++ m ∷ [])
      (if wanted ids m.id then (acked + 1) % 2 ^ 32 else acked)

-- The check in the loop that fills `want`: some ID is not 16 bytes.
unfoldable pub has_bad_id : List Bytes → Bool
has_bad_id [] = false
has_bad_id (w ∷ ws) = not (length w == 16) || has_bad_id ws

-- Go's `limit` is an `int`: `limit <= 0` is `limit == 0` here.
abbrev pub clamp_limit : ℕ → ℕ
clamp_limit limit = if limit == 0 || ltb max_batch_messages limit then max_batch_messages else limit

-- The part of `ReceiveMessages` behind the guards; `mb` is pruned already.
unfoldable pub take_batch : ℕ → ℕ → Bool → MailboxData → List StoredMessage × MailboxData
take_batch now limit peek mb =
    let (out, kept) = receive_loop (clamp_limit limit) peek mb.messages [] [] in
    (
      out,
      slide_mailbox now
          (if peek then mb else record mb { messages = kept; stored_bytes = envelope_bytes kept }),
    )

-- The part of `AckMessages` behind the guards.
unfoldable pub ack_batch : ℕ → List Bytes → ℕ → MailboxData → ℕ × MailboxData
ack_batch now ids disposition mb =
    let (kept, acked) = ack_loop ids mb.messages [] 0 in
    (
      acked,
      slide_mailbox now (
          if disposition == ack_consumed
          then record mb { messages = kept; stored_bytes = envelope_bytes kept }
          else mb),
    )

-- `AckMessages` behind the guards of the mailbox. A bad ID is found after the pruning.
unfoldable pub ack_owned : ℕ → Bytes → List Bytes → ℕ → MemStore → MailboxData → Outcome (ℕ × ℕ)
ack_owned now mailbox_id msg_ids disposition s mb =
    let pruned = prune_messages_locked mb now in
    if has_bad_id msg_ids
    then (fail err_invalid_request "msg_id must be 16 bytes", put_mailbox mailbox_id pruned s)
    else (let (acked, mb') = ack_batch now msg_ids disposition pruned in
        (ok (acked, length mb'.messages % 2 ^ 32), put_mailbox mailbox_id mb' s))

-- `ReceiveMessages` behind the guards of the mailbox.
unfoldable pub receive_owned :
    ℕ → Bytes → ℕ → Bool → MemStore → MailboxData → Outcome (List StoredMessage × Bool)
receive_owned now mailbox_id limit peek s mb =
    let (out, mb') = take_batch now limit peek (prune_messages_locked mb now) in
    (ok (out, not peek), put_mailbox mailbox_id mb' s)

module _ (sha256 : Bytes → Bytes) where
  -- The result is the batch, and whether it was taken off the queue.
  unfoldable pub receive_messages :
      ℕ → Bytes → Bytes → ℕ → Bool → MemStore → Outcome (List StoredMessage × Bool)
  receive_messages now mailbox_id read_secret limit peek s =
      with_owner sha256 now mailbox_id read_secret s (receive_owned now mailbox_id limit peek s)

  -- The result is the number of messages acknowledged, and of those that remain.
  unfoldable pub ack_messages : ℕ → Bytes → Bytes → List Bytes → ℕ → MemStore → Outcome (ℕ × ℕ)
  ack_messages now mailbox_id read_secret msg_ids disposition s =
      if not (disposition == ack_received) && not (disposition == ack_consumed)
      then (fail err_invalid_request "bad disposition", s)
      else if length msg_ids == 0 || ltb max_batch_messages (length msg_ids)
      then (fail err_invalid_request "msg_ids count out of bounds", s)
      else with_owner sha256 now mailbox_id read_secret s
          (ack_owned now mailbox_id msg_ids disposition s)
