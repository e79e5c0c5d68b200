-- ===== src/Store/Messages/Batch.antt =====
-- Receive and acknowledge (server/storage/memstore.go) on a live mailbox with the right secret.
use nex_talk_file_relay.Base.{
  ℕ, ◌^◌, ◌<◌, ◌≡◌, Bool, true, false, not, ◌&&◌, List, [], some, Bytes, bytes_key, arith, ltb, leb,
  ◌==◌, length, length-keep-le, take, drop, if◌then◌else◌,
}
use nex_talk_file_relay.Protocol.Limits.{max_batch_messages}
use nex_talk_file_relay.Protocol.Errors.{ok}
use nex_talk_file_relay.Protocol.Messages.{ack_consumed}
use nex_talk_file_relay.Store.Types.{StoredMessage, MailboxData, MemStore, put_mailbox, Outcome}
use nex_talk_file_relay.Store.Mailboxes.{
  slide_mailbox, get_mailbox_locked, prune_messages_locked, with_owner, secret_matches,
}
use nex_talk_file_relay.Store.Mailboxes.Prune.{live, with_queue, prune_messages_locked_lem}
use nex_talk_file_relay.Store.Messages.{
  receive_messages, ack_messages, receive_owned, ack_owned, take_batch, ack_batch, clamp_limit,
  has_bad_id,
}
use nex_talk_file_relay.Store.Messages.Queue.{
  receive_loop_lem, ack_loop_lem, count_wanted, unwanted, length-unwanted,
}

-- The messages of a mailbox that have not run out.
abbrev pub backlog : ℕ → MailboxData → List StoredMessage
backlog now mb = live now mb.messages

pub take_batch_lem :
    (now limit : ℕ) (peek : Bool) (mb : MailboxData)
    → take_batch now limit peek (prune_messages_locked mb now) ≡ (
      take (clamp_limit limit) (backlog now mb),
      slide_mailbox now (
          with_queue
            (if peek then backlog now mb else drop (clamp_limit limit) (backlog now mb))
            mb),
    )
unfolding take_batch
take_batch_lem now limit peek mb = rw (prune_messages_locked_lem mb now) (
    ground (
      arith,
      receive_loop_lem (clamp_limit limit) (clamp_limit limit) peek (backlog now mb) [] []
          (omega arith),
    ))

pub ack_batch_lem :
    (now : ℕ) (ids : List Bytes) (disposition : ℕ) (mb : MailboxData)
    → length (backlog now mb) < 2 ^ 32
    → ack_batch now ids disposition (prune_messages_locked mb now) ≡ (
      count_wanted ids (backlog now mb),
      slide_mailbox now (
          with_queue
            (if disposition == ack_consumed then unwanted ids (backlog now mb) else backlog now mb)
            mb),
    )
unfolding ack_batch
ack_batch_lem now ids disposition mb few =
    rw (prune_messages_locked_lem mb now)
      (ground (arith, ack_loop_lem ids (backlog now mb) [] 0 (omega arith)))

module _ (sha256 : Bytes → Bytes) where
  -- The caller owns a live mailbox.
  pub record Owns (now : ℕ) (mailbox_id read_secret : Bytes) (s : MemStore) (mb : MailboxData)
      : Type 0 where
    pub found : get_mailbox_locked mailbox_id now s ≡ some mb
    pub matches : secret_matches sha256 mb.read_secret_hash read_secret ≡ true

  pub with_owner-Owns {ℓ} :
      {A : Type ℓ} {now : ℕ} {mailbox_id read_secret : Bytes} {s : MemStore} {mb : MailboxData}
      (k : MailboxData → Outcome A)
      → Owns now mailbox_id read_secret s mb
      → with_owner sha256 now mailbox_id read_secret s k ≡ k mb
  unfolding with_owner
  with_owner-Owns k o = ground arith

  -- The batch is the front of the backlog, in order, cut at the limit (32 at most); a drain leaves
  -- exactly the rest and a peek the whole backlog, with the byte count of what is left. The mailbox's
  -- own time to live starts anew, and nothing else changes.
  pub receive_messages_lem :
      (now : ℕ) (mailbox_id read_secret : Bytes) (limit : ℕ) (peek : Bool) (s : MemStore)
      (mb : MailboxData)
      → Owns now mailbox_id read_secret s mb
      → receive_messages sha256 now mailbox_id read_secret limit peek s ≡ (
        ok (take (clamp_limit limit) (backlog now mb), not peek),
        put_mailbox mailbox_id
            (slide_mailbox now (
              with_queue
                (if peek then backlog now mb else drop (clamp_limit limit) (backlog now mb))
                mb))
            s,
      )
  unfolding receive_messages receive_owned
  receive_messages_lem now mailbox_id read_secret limit peek s mb o = ground (
    arith,
    with_owner-Owns (receive_owned now mailbox_id limit peek s) o,
    take_batch_lem now limit peek mb,
  )

  -- Of a mailbox with fewer than 2 ^ 32 messages, `consumed` takes away exactly the messages whose
  -- IDs are listed and `received` none; both report how many were listed and how many are left.
  pub ack_messages_lem :
      (now : ℕ) (mailbox_id read_secret : Bytes) (ids : List Bytes) (disposition : ℕ) (s : MemStore)
      (mb : MailboxData)
      → Owns now mailbox_id read_secret s mb
      → (leb 1 disposition && leb disposition 2) ≡ true
      → (leb 1 (length ids) && leb (length ids) max_batch_messages) ≡ true
      → has_bad_id ids ≡ false
      → length mb.messages < 2 ^ 32
      → let left =
          if disposition == ack_consumed then unwanted ids (backlog now mb) else backlog now mb in
        ack_messages sha256 now mailbox_id read_secret ids disposition s ≡ (
          ok (count_wanted ids (backlog now mb), length left),
          put_mailbox mailbox_id (slide_mailbox now (with_queue left mb)) s,
        )
  unfolding ack_messages ack_owned
  ack_messages_lem now mailbox_id read_secret ids disposition s mb o d l good few = ground (
    arith,
    with_owner-Owns (ack_owned now mailbox_id ids disposition s) o,
    ack_batch_lem now ids disposition mb,
    length-keep-le (λ (m : StoredMessage). ltb now m.expires_at) mb.messages,
    length-unwanted ids (backlog now mb),
  )
