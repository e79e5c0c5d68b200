-- ===== src/Store/Contract/Simulation.antt =====
-- What each call about messages (server/storage/memstore.go) does to the boxes of the store.
use nex_talk_file_relay.Base.{
  ℕ, ◌+◌, ◌≡◌, refl, inl, inr, arith, Bool, true, false, not, ◌&&◌, ◌||◌, List, [], ◌∷◌, ◌++◌, none,
  some, Bytes, bytes_key, ltb, ◌==◌, length, drop, if◌then◌else◌, if_rule, Bool-cases, Option-cases,
}
use nex_talk_file_relay.Base.Map.{lookup, AllValues, AllValues-lookup}
use nex_talk_file_relay.Protocol.Limits.{mailbox_ttl_seconds, max_batch_messages}
use nex_talk_file_relay.Protocol.Errors.{
  ProtocolError, Result-cases, ok, err, fail, err_invalid_request, err_mailbox_not_found,
  err_auth_failed,
}
use nex_talk_file_relay.Protocol.Messages.{SendMessage, ack_received, ack_consumed}
use nex_talk_file_relay.Protocol.Validate.{validate_send_message}
use nex_talk_file_relay.Store.Types.{MailboxData, MemStore, put_mailbox, millis, to_array, Outcome}
use nex_talk_file_relay.Store.Mailboxes.{
  slide_mailbox, create_mailbox, get_mailbox_locked, with_owner, secret_matches,
}
use nex_talk_file_relay.Store.Mailboxes.Prune.{with_queue, prune_messages_locked_lem}
use nex_talk_file_relay.Store.Guards.{get_mailbox_locked-lookup}
use nex_talk_file_relay.Store.Messages.{
  send_message, receive_messages, receive_owned, ack_messages, ack_owned, has_bad_id, clamp_limit,
}
use nex_talk_file_relay.Store.Messages.Queue.{unwanted}
use nex_talk_file_relay.Store.Messages.Delivery.{stored, send_message_lem}
use nex_talk_file_relay.Store.Messages.Batch.{
  backlog, Owns, with_owner-Owns, receive_messages_lem, ack_messages_lem,
}
use nex_talk_file_relay.Store.Valid.{IsMailbox}
use nex_talk_file_relay.Store.Contract.{
  box_open, box_post, box_fetch, box_confirm, opened, posted, fetched, confirmed,
}
use nex_talk_file_relay.Store.Contract.Contents.{
  contents, contents-put_mailbox, IsLive, contents-renewed, contents-pruned, open_at-contents,
  contents-none, contents-some, IsLive-backlog, IsLive-drop, IsLive-unwanted, IsLive-stored,
}

pub box_open-contents :
    (now : ℕ) (id hash : Bytes) (s : MemStore)
    → box_open now id hash (contents now s)
      ≡ (opened (create_mailbox now id hash s).0, contents now (create_mailbox now id hash s).1)
unfolding box_open create_mailbox
box_open-contents now id hash s = elim (Option-cases (lookup id s.mailboxes)) [
  | inl e ↦
      let fresh : MailboxData = record {
        read_secret_hash = hash;
        messages = [];
        expires_at = now + millis mailbox_ttl_seconds;
        stored_bytes = 0;
      } in
      ground (arith, contents-none now id s e, contents-put_mailbox now id fresh s)
  | inr (mb, e) ↦
      let again = slide_mailbox now (record mb { read_secret_hash = hash }) in
      ground (arith, contents-some now id s mb e, contents-put_mailbox now id again s)
]

send_message-invalid :
    (now : ℕ) (id : Bytes) (msg : SendMessage) (s : MemStore) (e : ProtocolError)
    → validate_send_message msg ≡ err e
    → send_message now id msg s ≡ (err e, s)
unfolding send_message
send_message-invalid now id msg s e bad = ground arith

send_message-closed :
    (now : ℕ) (id : Bytes) (msg : SendMessage) (s : MemStore)
    → validate_send_message msg ≡ ok tt
    → get_mailbox_locked (to_array 16 msg.mailbox_id) now s ≡ none
    → send_message now id msg s ≡ (fail err_mailbox_not_found "mailbox not found", s)
unfolding send_message
send_message-closed now id msg s good e = ground arith

pub box_post-contents :
    (now : ℕ) (id : Bytes) (msg : SendMessage) (s : MemStore)
    → box_post now id msg (contents now s)
      ≡ (posted (send_message now id msg s).0, contents now (send_message now id msg s).1)
unfolding box_post
box_post-contents now id msg s =
    let mid = to_array 16 msg.mailbox_id in
    elim (Result-cases (validate_send_message msg)) [
      | inl (e, bad) ↦ ground (arith, send_message-invalid now id msg s e bad)
      | inr (u, good) ↦ elim (Option-cases (get_mailbox_locked mid now s)) [
        | inl e ↦
            ground (arith, send_message-closed now id msg s good e, open_at-contents now mid s)
        | inr (mb, e) ↦
            let queue = backlog now mb in
            ground (
              arith,
              send_message_lem now id msg s mb good e,
              open_at-contents now mid s,
              contents-pruned now mid mb s (get_mailbox_locked-lookup mid now s mb e),
              contents-renewed now mid (queue ++ stored now id msg ∷ []) mb s
                  (IsLive-stored now id msg queue (IsLive-backlog now mb)),
            )
      ]
    ]

module _ (sha256 : Bytes → Bytes) where
  with_owner-closed {ℓ} :
      {A : Type ℓ} (now : ℕ) (mid secret : Bytes) (s : MemStore) (k : MailboxData → Outcome A)
      → get_mailbox_locked mid now s ≡ none
      → with_owner sha256 now mid secret s k ≡ (fail err_mailbox_not_found "mailbox not found", s)
  unfolding with_owner
  with_owner-closed now mid secret s k e = ground arith

  with_owner-denied {ℓ} :
      {A : Type ℓ} (now : ℕ) (mid secret : Bytes) (s : MemStore) (mb : MailboxData)
      (k : MailboxData → Outcome A)
      → get_mailbox_locked mid now s ≡ some mb
      → secret_matches sha256 mb.read_secret_hash secret ≡ false
      → with_owner sha256 now mid secret s k ≡ (fail err_auth_failed "bad read secret", s)
  unfolding with_owner
  with_owner-denied now mid secret s mb k e bad = ground arith

  receive_messages-guarded :
      (now : ℕ) (mid secret : Bytes) (limit : ℕ) (peek : Bool) (s : MemStore)
      → receive_messages sha256 now mid secret limit peek s
        ≡ with_owner sha256 now mid secret s (receive_owned now mid limit peek s)
  unfolding receive_messages
  receive_messages-guarded now mid secret limit peek s = refl

  pub box_fetch-contents :
      (now : ℕ) (mid secret : Bytes) (limit : ℕ) (peek : Bool) (s : MemStore)
      → box_fetch sha256 now mid secret limit peek (contents now s) ≡ (
        fetched (receive_messages sha256 now mid secret limit peek s).0,
        contents now (receive_messages sha256 now mid secret limit peek s).1,
      )
  unfolding box_fetch
  box_fetch-contents now mid secret limit peek s =
      let k = receive_owned now mid limit peek s in
      let guarded = receive_messages-guarded now mid secret limit peek s in
      let seen = open_at-contents now mid s in
      elim (Option-cases (get_mailbox_locked mid now s)) [
        | inl e ↦ ground (arith, seen, guarded, with_owner-closed now mid secret s k e)
        | inr (mb, e) ↦ elim (Bool-cases (secret_matches sha256 mb.read_secret_hash secret)) [
          | inr bad ↦ ground (arith, seen, guarded, with_owner-denied now mid secret s mb k e bad)
          | inl good ↦
              let q = if peek then backlog now mb else drop (clamp_limit limit) (backlog now mb) in
              let all_live : IsLive now q =
                if_rule (IsLive now) peek (λ _. IsLive-backlog now mb)
                  (λ _.
                    IsLive-drop now (clamp_limit limit) (backlog now mb) (IsLive-backlog now mb)) in
              ground (
                arith,
                seen,
                receive_messages_lem sha256 now mid secret limit peek s mb
                    record { found = e; matches = good },
                contents-renewed now mid q mb s all_live,
              )
        ]
      ]

  ack_messages-guarded :
      (now : ℕ) (mid secret : Bytes) (ids : List Bytes) (disposition : ℕ) (s : MemStore)
      → ack_messages sha256 now mid secret ids disposition s ≡ (
          if not (disposition == ack_received) && not (disposition == ack_consumed)
          then (fail err_invalid_request "bad disposition", s)
          else if length ids == 0 || ltb max_batch_messages (length ids)
          then (fail err_invalid_request "msg_ids count out of bounds", s)
          else with_owner sha256 now mid secret s (ack_owned now mid ids disposition s))
  unfolding ack_messages
  ack_messages-guarded now mid secret ids disposition s = refl

  ack_owned-bad :
      (now : ℕ) (mid : Bytes) (ids : List Bytes) (disposition : ℕ) (s : MemStore) (mb : MailboxData)
      → has_bad_id ids ≡ true
      → ack_owned now mid ids disposition s mb ≡ (
        fail err_invalid_request "msg_id must be 16 bytes",
        put_mailbox mid (with_queue (backlog now mb) mb) s,
      )
  unfolding ack_owned
  ack_owned-bad now mid ids disposition s mb bad = ground (arith, prune_messages_locked_lem mb now)

  box_confirm-owned :
      (now : ℕ) (mid secret : Bytes) (ids : List Bytes) (disposition : ℕ) (s : MemStore)
      (mb : MailboxData)
      → AllValues IsMailbox s.mailboxes
      → (not (disposition == ack_received) && not (disposition == ack_consumed)) ≡ false
      → (length ids == 0 || ltb max_batch_messages (length ids)) ≡ false
      → Owns sha256 now mid secret s mb
      → box_confirm sha256 now mid secret ids disposition (contents now s) ≡ (
        confirmed (ack_messages sha256 now mid secret ids disposition s).0,
        contents now (ack_messages sha256 now mid secret ids disposition s).1,
      )
  unfolding box_confirm
  box_confirm-owned now mid secret ids disposition s mb valid known some_ids o =
      let k = ack_owned now mid ids disposition s in
      let guarded = ack_messages-guarded now mid secret ids disposition s in
      let seen = open_at-contents now mid s in
      let found = get_mailbox_locked-lookup mid now s mb o.found in
      let fits = AllValues-lookup IsMailbox mid mb s.mailboxes valid found in
      let backlog_live = IsLive-backlog now mb in
      let q =
        if disposition == ack_consumed then unwanted ids (backlog now mb) else backlog now mb in
      let all_live : IsLive now q =
        if_rule (IsLive now) (disposition == ack_consumed)
          (λ _. IsLive-unwanted now ids (backlog now mb) backlog_live) (λ _. backlog_live) in
      elim (Bool-cases (has_bad_id ids)) [
        | inl bad ↦ ground (
          arith,
          seen,
          guarded,
          o.found,
          o.matches,
          with_owner-Owns sha256 k o,
          ack_owned-bad now mid ids disposition s mb bad,
          contents-pruned now mid mb s found,
        )
        | inr good ↦
            let acked =
              ack_messages_lem sha256 now mid secret ids disposition s mb o (ground arith)
                (ground arith) good (omega (arith, fits.few)) in
            ground
              (arith, seen, o.found, o.matches, acked, contents-renewed now mid q mb s all_live)
      ]

  pub box_confirm-contents :
      (now : ℕ) (mid secret : Bytes) (ids : List Bytes) (disposition : ℕ) (s : MemStore)
      → AllValues IsMailbox s.mailboxes
      → box_confirm sha256 now mid secret ids disposition (contents now s) ≡ (
        confirmed (ack_messages sha256 now mid secret ids disposition s).0,
        contents now (ack_messages sha256 now mid secret ids disposition s).1,
      )
  unfolding box_confirm
  box_confirm-contents now mid secret ids disposition s valid =
      let k = ack_owned now mid ids disposition s in
      let guarded = ack_messages-guarded now mid secret ids disposition s in
      let seen = open_at-contents now mid s in
      elim (Bool-cases (not (disposition == ack_received) && not (disposition == ack_consumed))) [
        | inl bad ↦ ground (arith, guarded)
        | inr known ↦ elim (Bool-cases (length ids == 0 || ltb max_batch_messages (length ids))) [
          | inl bad ↦ ground (arith, guarded)
          | inr some_ids ↦ elim (Option-cases (get_mailbox_locked mid now s)) [
            | inl e ↦ ground (arith, seen, guarded, with_owner-closed now mid secret s k e)
            | inr (mb, e) ↦ elim (Bool-cases (secret_matches sha256 mb.read_secret_hash secret)) [
              | inr bad ↦
                  ground (arith, seen, guarded, with_owner-denied now mid secret s mb k e bad)
              | inl good ↦
                  box_confirm-owned now mid secret ids disposition s mb valid known some_ids
                    record { found = e; matches = good }
            ]
          ]
        ]
      ]
