-- ===== src/Shard/Server.antt =====
-- server/shard/shard.go: the wrapper of the store for callers in the same process.
use nex_talk_file_relay.Base.{ℕ, ◌≡◌, Bool, not, List, Bytes, map, arith, take, drop, if◌then◌else◌}
use nex_talk_file_relay.Protocol.Errors.{ok, ◌>>=◌}
use nex_talk_file_relay.Protocol.Messages.{SendMessage}
use nex_talk_file_relay.Store.Types.{
  StoredMessage, MailboxData, MemStore, Outcome, put_mailbox, to_array,
}
use nex_talk_file_relay.Store.Mailboxes.{slide_mailbox}
use nex_talk_file_relay.Store.Mailboxes.Prune.{with_queue}
use nex_talk_file_relay.Store.Messages.{send_message, receive_messages, clamp_limit}
use nex_talk_file_relay.Store.Messages.Batch.{backlog, Owns, receive_messages_lem}

unfoldable pub send : ℕ → Bytes → SendMessage → MemStore → Outcome Bytes
send now id m s = let (r, s') = send_message now id m s in ((r >>= λ o. ok o.0), s')

module _ (sha256 : Bytes → Bytes) where
  -- `Receive drains (or peeks)`: the store is asked with `!peek`.
  unfoldable pub receive : ℕ → Bytes → Bytes → ℕ → Bool → MemStore → Outcome (List Bytes)
  receive now mailbox_id read_secret limit peek s =
      let (r, s') =
        receive_messages sha256 now (to_array 16 mailbox_id) read_secret limit (not peek) s in
      ((r >>= λ o. ok (map (λ (m : StoredMessage). m.envelope) o.0)), s')

  -- On a live mailbox with the right secret `Receive` gives the front of the backlog, and it is the
  -- call with `peek` set that takes these messages away: without `peek` the whole backlog stays.
  pub receive_lem :
      (now : ℕ) (mailbox_id read_secret : Bytes) (limit : ℕ) (peek : Bool) (s : MemStore)
      (mb : MailboxData)
      → Owns sha256 now (to_array 16 mailbox_id) read_secret s mb
      → receive now mailbox_id read_secret limit peek s ≡ (
        ok (map (λ (m : StoredMessage). m.envelope) (take (clamp_limit limit) (backlog now mb))),
        put_mailbox
            (to_array 16 mailbox_id)
            (slide_mailbox now (
              with_queue
                (if peek then drop (clamp_limit limit) (backlog now mb) else backlog now mb)
                mb))
            s,
      )
  unfolding receive
  receive_lem now mailbox_id read_secret limit peek s mb o = ground (
    arith,
    receive_messages_lem sha256 now (to_array 16 mailbox_id) read_secret limit (not peek) s mb o,
  )
