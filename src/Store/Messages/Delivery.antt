-- ===== src/Store/Messages/Delivery.antt =====
-- A message between send, receive and acknowledge (server/storage/memstore.go).
use nex_talk_file_relay.Base.{
  ℕ, ◌+◌, ◌^◌, ◌<◌, ◌≡◌, refl, Bool, true, false, not, ◌&&◌, List, [], ◌∷◌, ◌++◌, some, Bytes,
  Option-cases, inl, inr, bytes_key, bytes_eq_refl, arith, ltb, leb, length, length-keep-le, take,
  if◌then◌else◌,
}
use nex_talk_file_relay.Base.Map.{Map}
use nex_talk_file_relay.Protocol.Limits.{
  max_batch_messages, max_queued_messages, max_stored_bytes_per_mailbox, mailbox_ttl_seconds,
  msg_ttl_seconds,
}
use nex_talk_file_relay.Protocol.Errors.{Result-cases, ok, fail, err_quota_exceeded}
use nex_talk_file_relay.Protocol.Messages.{SendMessage}
use nex_talk_file_relay.Protocol.Validate.{validate_send_message}
use nex_talk_file_relay.Store.Types.{
  StoredMessage, MailboxData, TransferData, MemStore, put_mailbox, envelope_bytes, millis, to_array,
}
use nex_talk_file_relay.Store.Mailboxes.{
  slide_mailbox, get_mailbox_locked, prune_messages_locked, secret_matches,
}
use nex_talk_file_relay.Store.Mailboxes.Prune.{
  live, with_queue, prune_messages_locked_lem, envelope_bytes-append,
}
use nex_talk_file_relay.Store.Mailboxes.Access.{get_mailbox_locked-put_mailbox}
use nex_talk_file_relay.Store.Messages.{
  enqueue, send_message, receive_messages, ack_messages, has_bad_id, clamp_limit, wanted,
}
use nex_talk_file_relay.Store.Messages.Queue.{count_wanted, unwanted}
use nex_talk_file_relay.Store.Messages.Batch.{backlog, Owns, receive_messages_lem, ack_messages_lem}

-- The message that a send stores.
abbrev pub stored : ℕ → Bytes → SendMessage → StoredMessage
stored now id msg = record {
  id = id;
  envelope = msg.envelope;
  sender_pub = msg.sender_pub;
  enqueued_at = now;
  expires_at = now + millis msg_ttl_seconds;
}

-- A valid message to a live mailbox goes to the end of the queue, unless a hundred messages that
-- have not run out wait already, or its bytes with theirs pass the quota; then the queue is only
-- pruned. Only the sender's success gives the mailbox a new time to live.
pub send_message_lem :
    (now : ℕ) (id : Bytes) (msg : SendMessage) (s : MemStore) (mb : MailboxData)
    → validate_send_message msg ≡ ok tt
    → get_mailbox_locked (to_array 16 msg.mailbox_id) now s ≡ some mb
    → let mid = to_array 16 msg.mailbox_id in
      let queue = backlog now mb in
      send_message now id msg s ≡ (
        if leb max_queued_messages (length queue)
        then (fail err_quota_exceeded "mailbox full", put_mailbox mid (with_queue queue mb) s)
        else if ltb max_stored_bytes_per_mailbox (envelope_bytes queue + length msg.envelope)
        then (fail err_quota_exceeded "mailbox byte quota", put_mailbox mid (with_queue queue mb) s)
        else (
          ok (id, length queue + 1),
          put_mailbox mid (slide_mailbox now (with_queue (queue ++ stored now id msg ∷ []) mb)) s,
        ))
unfolding send_message enqueue
send_message_lem now id msg s mb valid found = ground (
  arith,
  prune_messages_locked_lem mb now,
  envelope_bytes-append (backlog now mb) (stored now id msg ∷ []),
)

live-append :
    (later : ℕ) (ms : List StoredMessage) (m : StoredMessage)
    → later < m.expires_at
    → live later (ms ++ m ∷ []) ≡ live later ms ++ m ∷ []
live-append later [] m h = ground arith
live-append later (x ∷ ms) m h = ground (arith, live-append later ms m h)

count_wanted-live :
    (ids : List Bytes) (now : ℕ) (ms : List StoredMessage)
    → count_wanted ids (live now (unwanted ids ms)) ≡ 0
count_wanted-live ids now [] = refl
count_wanted-live ids now (m ∷ ms) = ground (arith, count_wanted-live ids now ms)

unwanted-live :
    (ids : List Bytes) (now : ℕ) (ms : List StoredMessage)
    → unwanted ids (live now (unwanted ids ms)) ≡ live now (unwanted ids ms)
unwanted-live ids now [] = refl
unwanted-live ids now (m ∷ ms) = ground (arith, unwanted-live ids now ms)

enqueue-transfers :
    (now : ℕ) (id mid : Bytes) (msg : SendMessage) (mb : MailboxData) (s : MemStore)
    (ts : Map Bytes TransferData)
    → (enqueue now id mid msg mb (record s { transfers = ts })).0 ≡ (enqueue now id mid msg mb s).0
unfolding enqueue
enqueue-transfers now id mid msg mb s ts = ground arith

get_mailbox_locked-transfers :
    (mid : Bytes) (now : ℕ) (s : MemStore) (ts : Map Bytes TransferData)
    → get_mailbox_locked mid now (record s { transfers = ts }) ≡ get_mailbox_locked mid now s
unfolding get_mailbox_locked
get_mailbox_locked-transfers mid now s ts = refl

-- What a sender is answered, at any time and on any branch, is the same with any other transfers in
-- the store: also in a mailbox whose byte quota is used up by chunks a message is accepted, though
-- DESIGN.md and protocol/limits.go say that the quota is of messages and chunks.
pub send_message-transfers :
    (now : ℕ) (id : Bytes) (msg : SendMessage) (s : MemStore) (ts : Map Bytes TransferData)
    → (send_message now id msg (record s { transfers = ts })).0 ≡ (send_message now id msg s).0
unfolding send_message
send_message-transfers now id msg s ts =
    let mid = to_array 16 msg.mailbox_id in
    let same = get_mailbox_locked-transfers mid now s ts in
    elim (Result-cases (validate_send_message msg)) [
      | inl (e, bad) ↦ ground arith
      | inr (u, good) ↦ elim (Option-cases (get_mailbox_locked mid now s)) [
        | inl e ↦ ground (arith, same)
        | inr (mb, e) ↦
            ground
              (arith, same, enqueue-transfers now id mid msg (prune_messages_locked mb now) s ts)
      ]
    ]

module _ (sha256 : Bytes → Bytes) where
  -- The owner of a mailbox owns it after a write too, while it lives.
  Owns-put_mailbox :
      (later : ℕ) (mailbox_id read_secret : Bytes) (s : MemStore) (mb : MailboxData)
      → later < mb.expires_at
      → secret_matches sha256 mb.read_secret_hash read_secret ≡ true
      → Owns sha256 later mailbox_id read_secret (put_mailbox mailbox_id mb s) mb
  Owns-put_mailbox later mailbox_id read_secret s mb lives ours = record {
    found = ground (
      arith,
      get_mailbox_locked-put_mailbox mailbox_id mailbox_id later mb s,
      bytes_eq_refl mailbox_id,
    );
    matches = ours;
  }

  -- Acknowledging the same IDs as consumed once more, while the mailbox lives, acknowledges
  -- nothing and reports what is left and has not run out. The mailbox holds fewer than 2 ^ 32
  -- messages, and the IDs are well formed and not too many.
  pub ack_messages-twice :
      (now later : ℕ) (mailbox_id read_secret : Bytes) (ids : List Bytes) (s : MemStore)
      (mb : MailboxData)
      → Owns sha256 now mailbox_id read_secret s mb
      → (leb 1 (length ids) && leb (length ids) max_batch_messages) ≡ true
      → has_bad_id ids ≡ false
      → length mb.messages < 2 ^ 32
      → later < now + millis mailbox_ttl_seconds
      → let s' = (ack_messages sha256 now mailbox_id read_secret ids 2 s).1 in
        (ack_messages sha256 later mailbox_id read_secret ids 2 s').0
        ≡ ok (0, length (live later (unwanted ids (backlog now mb))))
  ack_messages-twice now later mailbox_id read_secret ids s mb o l good few soon =
      let queue = unwanted ids (backlog now mb) in
      let mb' = slide_mailbox now (with_queue queue mb) in
      let few' : length queue < 2 ^ 32 = omega (
        arith,
        length-keep-le (λ (m : StoredMessage). ltb now m.expires_at) mb.messages,
        length-keep-le (λ (m : StoredMessage). not (wanted ids m.id)) (backlog now mb),
      ) in
      let o' = Owns-put_mailbox later mailbox_id read_secret s mb' soon o.matches in
      ground (
        arith,
        ack_messages_lem sha256 now mailbox_id read_secret ids 2 s mb o refl l good few,
        ack_messages_lem sha256 later mailbox_id read_secret ids 2 _ mb' o' refl l good few',
        count_wanted-live ids later (backlog now mb),
        unwanted-live ids later (backlog now mb),
      )

  -- A message that was sent is behind the messages that waited, and a receive before it runs out
  -- hands out the front of that queue. The message is valid, the mailbox is live when it is sent and
  -- has room for it, and the receiver has the secret.
  pub receive_messages-send_message :
      (now later : ℕ) (id : Bytes) (msg : SendMessage) (read_secret : Bytes) (limit : ℕ)
      (peek : Bool) (s : MemStore) (mb : MailboxData)
      → Owns sha256 now (to_array 16 msg.mailbox_id) read_secret s mb
      → validate_send_message msg ≡ ok tt
      → leb max_queued_messages (length (backlog now mb)) ≡ false
      → ltb max_stored_bytes_per_mailbox (envelope_bytes (backlog now mb) + length msg.envelope)
        ≡ false
      → later < now + millis msg_ttl_seconds
      → let s' = (send_message now id msg s).1 in
        (receive_messages sha256 later (to_array 16 msg.mailbox_id) read_secret limit peek s').0
        ≡ ok (
          take (clamp_limit limit) (live later (backlog now mb) ++ stored now id msg ∷ []),
          not peek,
        )
  receive_messages-send_message now later id msg read_secret limit peek s mb o valid room bytes
        soon =
      let mid = to_array 16 msg.mailbox_id in
      let mb' = slide_mailbox now (with_queue (backlog now mb ++ stored now id msg ∷ []) mb) in
      let o' = Owns-put_mailbox later mid read_secret s mb' (omega arith) o.matches in
      ground (
        arith,
        send_message_lem now id msg s mb valid o.found,
        receive_messages_lem sha256 later mid read_secret limit peek _ mb' o',
        live-append later (backlog now mb) (stored now id msg) soon,
      )
