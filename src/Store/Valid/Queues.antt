-- ===== src/Store/Valid/Queues.antt =====
-- The mailbox and queue operations of server/storage/memstore.go under the invariant.
use nex_talk_file_relay.Base.{
  ℕ, zero, suc, ◌+◌, ◌≤◌, ◌≡◌, Bool, List, [], ◌∷◌, some, Bytes, bytes_key, arith, ltb, leb, length,
  length-append, length-keep-le, drop, keep, Option-cases, Bool-cases, not, ◌&&◌, ◌||◌, ◌==◌, inl,
  inr, if◌then◌else◌,
}
use nex_talk_file_relay.Base.Map.{lookup, AllValues-lookup}
use nex_talk_file_relay.Protocol.Limits.{
  max_queued_messages, max_stored_bytes_per_mailbox, max_batch_messages,
}
use nex_talk_file_relay.Protocol.Errors.{Result-cases}
use nex_talk_file_relay.Protocol.Messages.{SendMessage, ack_received, ack_consumed}
use nex_talk_file_relay.Protocol.Validate.{validate_send_message}
use nex_talk_file_relay.Store.Types.{StoredMessage, MailboxData, MemStore, envelope_bytes, to_array}
use nex_talk_file_relay.Store.Mailboxes.{
  create_mailbox, slide_mailbox, get_mailbox_locked, prune_messages_locked,
}
use nex_talk_file_relay.Store.Mailboxes.Prune.{
  with_queue, prune_messages_locked_lem, envelope_bytes-append,
}
use nex_talk_file_relay.Store.Guards.{get_mailbox_locked-lookup, with_owner-rule}
use nex_talk_file_relay.Store.Messages.{
  enqueue, send_message, receive_messages, ack_messages, receive_owned, ack_owned, clamp_limit,
  has_bad_id, wanted,
}
use nex_talk_file_relay.Store.Messages.Batch.{backlog, take_batch_lem, ack_batch_lem}
use nex_talk_file_relay.Store.Messages.Queue.{unwanted}
use nex_talk_file_relay.Store.Messages.Delivery.{stored}
use nex_talk_file_relay.Store.Valid.{IsMailbox, IsValid, put_mailbox-IsValid}

-- A queue with fewer messages and bytes than a valid one is valid.
with_queue-IsMailbox :
    (q : List StoredMessage) (mb : MailboxData)
    → IsMailbox mb
    → length q ≤ length mb.messages
    → envelope_bytes q ≤ envelope_bytes mb.messages
    → IsMailbox (with_queue q mb)
with_queue-IsMailbox q mb m l b = omega (arith, m.counted, m.few, m.small)

envelope_bytes-keep :
    (p : StoredMessage → Bool) (ms : List StoredMessage)
    → envelope_bytes (keep p ms) ≤ envelope_bytes ms
envelope_bytes-keep p [] = omega arith
envelope_bytes-keep p (m ∷ ms) = ground (arith, envelope_bytes-keep p ms)

drop_bounds :
    (n : ℕ) (ms : List StoredMessage)
    → (length (drop n ms) ≤ length ms) × (envelope_bytes (drop n ms) ≤ envelope_bytes ms)
drop_bounds zero ms = omega arith
drop_bounds (suc n) [] = omega arith
drop_bounds (suc n) (m ∷ ms) = omega (arith, drop_bounds n ms)

pub live-IsMailbox :
    (now : ℕ) (mb : MailboxData) → IsMailbox mb → IsMailbox (with_queue (backlog now mb) mb)
live-IsMailbox now mb m =
    with_queue-IsMailbox (backlog now mb) mb m
      (length-keep-le (λ (x : StoredMessage). ltb now x.expires_at) mb.messages)
      (envelope_bytes-keep (λ (x : StoredMessage). ltb now x.expires_at) mb.messages)

pub slide_mailbox-IsMailbox :
    (now : ℕ) (mb : MailboxData) → IsMailbox mb → IsMailbox (slide_mailbox now mb)
slide_mailbox-IsMailbox now mb m = record { counted = m.counted; few = m.few; small = m.small }

module _ (sha256 : Bytes → Bytes) where
  pub create_mailbox-IsValid :
      (now : ℕ) (id hash : Bytes) (s : MemStore)
      → IsValid sha256 s
      → IsValid sha256 (create_mailbox now id hash s).1
  unfolding create_mailbox
  create_mailbox-IsValid now id hash s v = elim (Option-cases (lookup id s.mailboxes)) [
    | inl e ↦ rw (create_mailbox, e) (put_mailbox-IsValid sha256 id _ s (omega arith) v)
    | inr (mb, e) ↦
        rw (create_mailbox, e)
          (put_mailbox-IsValid sha256 id _ s
            (slide_mailbox-IsMailbox now (record mb { read_secret_hash = hash })
              (omega (arith, AllValues-lookup IsMailbox id mb s.mailboxes v.mailboxes e)))
            v)
  ]

  -- The mailbox that a guard lets through is valid.
  pub owner-IsMailbox :
      (now : ℕ) (id : Bytes) (s : MemStore) (mb : MailboxData)
      → IsValid sha256 s
      → get_mailbox_locked id now s ≡ some mb
      → IsMailbox mb
  owner-IsMailbox now id s mb v e =
      AllValues-lookup IsMailbox id mb s.mailboxes v.mailboxes
        (get_mailbox_locked-lookup id now s mb e)

  enqueue-IsValid :
      (now : ℕ) (id mid : Bytes) (msg : SendMessage) (mb : MailboxData) (s : MemStore)
      → IsMailbox mb
      → IsValid sha256 s
      → IsValid sha256 (enqueue now id mid msg mb s).1
  unfolding enqueue
  enqueue-IsValid now id mid msg mb s m v =
      elim (Bool-cases (leb max_queued_messages (length mb.messages))) [
        | inl crowded ↦ rw crowded (put_mailbox-IsValid sha256 mid mb s m v)
        | inr room ↦
            rw room
              (elim (Bool-cases
                (ltb max_stored_bytes_per_mailbox (mb.stored_bytes + length msg.envelope))) [
                  | inl over ↦ rw over (put_mailbox-IsValid sha256 mid mb s m v)
                  | inr fits ↦ rw fits (
                      put_mailbox-IsValid sha256 mid _ s
                        (record {
                          counted = omega (
                            arith,
                            m.counted,
                            envelope_bytes-append mb.messages (stored now id msg ∷ []),
                          );
                          few = ground (arith, length-append mb.messages (stored now id msg ∷ []));
                          small = ground arith;
                        })
                        v)
                ])
      ]

  pub send_message-IsValid :
      (now : ℕ) (id : Bytes) (msg : SendMessage) (s : MemStore)
      → IsValid sha256 s
      → IsValid sha256 (send_message now id msg s).1
  unfolding send_message
  send_message-IsValid now id msg s v = elim (Result-cases (validate_send_message msg)) [
    | inl (e, bad) ↦ rw (bad, send_message) v
    | inr (u, good) ↦
        rw (good, send_message)
          (elim (Option-cases (get_mailbox_locked (to_array 16 msg.mailbox_id) now s)) [
            | inl e ↦ rw (e, send_message) v
            | inr (mb, e) ↦
                rw (e, send_message)
                  (enqueue-IsValid now id (to_array 16 msg.mailbox_id) msg
                    (prune_messages_locked mb now) s
                    (rw (prune_messages_locked_lem mb now)
                      (live-IsMailbox now mb (owner-IsMailbox now _ s mb v e)))
                    v)
          ])
  ]

  receive_owned-IsValid :
      (now : ℕ) (mid : Bytes) (limit : ℕ) (peek : Bool) (s : MemStore) (mb : MailboxData)
      → IsMailbox mb
      → IsValid sha256 s
      → IsValid sha256 (receive_owned now mid limit peek s mb).1
  unfolding receive_owned
  receive_owned-IsValid now mid limit peek s mb m v =
      let live' = live-IsMailbox now mb m in
      let left = if peek then backlog now mb else drop (clamp_limit limit) (backlog now mb) in
      let bounds = drop_bounds (clamp_limit limit) (backlog now mb) in
      put_mailbox-IsValid sha256 mid _ s
        (rw (take_batch_lem now limit peek mb) (
          slide_mailbox-IsMailbox now (with_queue left mb) (
            with_queue-IsMailbox left (with_queue (backlog now mb) mb) live' (ground arith)
              (ground arith))))
        v

  pub receive_messages-IsValid :
      (now : ℕ) (mid secret : Bytes) (limit : ℕ) (peek : Bool) (s : MemStore)
      → IsValid sha256 s
      → IsValid sha256 (receive_messages sha256 now mid secret limit peek s).1
  unfolding receive_messages
  receive_messages-IsValid now mid secret limit peek s v =
      with_owner-rule (IsValid sha256) sha256 now mid secret s _ v
        λ mb e. receive_owned-IsValid now mid limit peek s mb (owner-IsMailbox now mid s mb v e) v

  ack_owned-IsValid :
      (now : ℕ) (mid : Bytes) (ids : List Bytes) (disposition : ℕ) (s : MemStore) (mb : MailboxData)
      → IsMailbox mb
      → IsValid sha256 s
      → IsValid sha256 (ack_owned now mid ids disposition s mb).1
  unfolding ack_owned
  ack_owned-IsValid now mid ids disposition s mb m v =
      let live' = live-IsMailbox now mb m in
      let queue = backlog now mb in
      let left = if disposition == ack_consumed then unwanted ids queue else queue in
      elim (Bool-cases (has_bad_id ids)) [
        | inl bad ↦
            rw bad
              (put_mailbox-IsValid sha256 mid _ s (rw (prune_messages_locked_lem mb now) live') v)
        | inr good ↦ rw good (
            put_mailbox-IsValid sha256 mid _ s
              (rw (ack_batch_lem now ids disposition mb (omega (arith, live'.few))) (
                slide_mailbox-IsMailbox now (with_queue left mb) (
                  with_queue-IsMailbox left (with_queue queue mb) live'
                    (ground
                      (arith, length-keep-le (λ (x : StoredMessage). not (wanted ids x.id)) queue))
                    (ground (
                      arith,
                      envelope_bytes-keep (λ (x : StoredMessage). not (wanted ids x.id)) queue,
                    )))))
              v)
      ]

  pub ack_messages-IsValid :
      (now : ℕ) (mid secret : Bytes) (ids : List Bytes) (disposition : ℕ) (s : MemStore)
      → IsValid sha256 s
      → IsValid sha256 (ack_messages sha256 now mid secret ids disposition s).1
  unfolding ack_messages
  ack_messages-IsValid now mid secret ids disposition s v =
      let owned =
        with_owner-rule (IsValid sha256) sha256 now mid secret s
          (ack_owned now mid ids disposition s) v
          λ (mb : MailboxData) (e : get_mailbox_locked mid now s ≡ some mb).
            ack_owned-IsValid now mid ids disposition s mb (owner-IsMailbox now mid s mb v e) v in
      elim (Bool-cases (not (disposition == ack_received) && not (disposition == ack_consumed))) [
        | inl bad ↦ rw bad v
        | inr known ↦
            rw known (elim (Bool-cases (length ids == 0 || ltb max_batch_messages (length ids))) [
              | inl bad ↦ rw bad v
              | inr fits ↦ rw fits owned
            ])
      ]
