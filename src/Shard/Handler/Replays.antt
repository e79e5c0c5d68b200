-- ===== src/Shard/Handler/Replays.antt =====
-- handleSend of server/shard/handler.go with its clock and the replay cache.
use nex_talk_file_relay.Base.{
  ℕ, ◌+◌, ◌<◌, ◌≤◌, ◌≡◌, ◌^◌, refl, sym, subst, Bool, true, false, List, Bytes, arith, Bool-cases,
  Option-cases, some, inl, inr,
}
use nex_talk_file_relay.Protocol.Limits.{max_request_bytes, replay_window_seconds}
use nex_talk_file_relay.Protocol.Errors.{Result, ok, >>=-eq-ok, Result-cases}
use nex_talk_file_relay.Protocol.Messages.{SendMessage}
use nex_talk_file_relay.Protocol.Codec.{Field, unmarshal_send_message}
use nex_talk_file_relay.Protocol.Auth.{check_skew, verify_signed, verify_msg_send}
use nex_talk_file_relay.Protocol.Auth.Skew.{check_skew_iff}
use nex_talk_file_relay.Store.Types.{millis, to_array, MailboxData, MemStore}
use nex_talk_file_relay.Store.Mailboxes.{get_mailbox_locked, prune_messages_locked}
use nex_talk_file_relay.Store.Messages.{send_message, enqueue}
use nex_talk_file_relay.Protocol.Validate.{validate_send_message}
use nex_talk_file_relay.Store.Replay.{check_and_mark, check_and_mark_replay}
use nex_talk_file_relay.Store.Replay.Window.{
  IsDistinct, InOrder, run_checks, InOrder-le, check_and_mark-replay,
}
use nex_talk_file_relay.Shard.Http.{
  to32, to16, or_fail, Response, answer, refusal, HttpRequest, read_body, post_body, write_error,
}
use nex_talk_file_relay.Shard.Handler.{
  Shard, front, unless_replay, limited, finish, replay_key, replay_domain_msg, checked_send,
  handle_send,
}

abbrev pub is_answer : Response → Bool
is_answer (answer r) = true
is_answer (refusal c e) = false

enqueue-replay :
    (now : ℕ) (id mid : Bytes) (msg : SendMessage) (mb : MailboxData) (s : MemStore)
    → (enqueue now id mid msg mb s).1.replay ≡ s.replay
unfolding enqueue
enqueue-replay now id mid msg mb s = ground arith

send_message-replay :
    (now : ℕ) (id : Bytes) (msg : SendMessage) (s : MemStore)
    → (send_message now id msg s).1.replay ≡ s.replay
unfolding send_message
send_message-replay now id msg s =
    let mid = to_array 16 msg.mailbox_id in
    elim (Result-cases (validate_send_message msg)) [
      | inl (e, bad) ↦ rw (send_message, bad) refl
      | inr (u, good) ↦
          rw (send_message, good)
            (elim (Option-cases (get_mailbox_locked mid now s)) [
              | inl e ↦ rw e refl
              | inr (mb, e) ↦ rw e (enqueue-replay now id mid msg (prune_messages_locked mb now) s)
            ])
    ]

-- Two clock readings that both allow a time stamp are at most a minute apart.
recent_twice :
    (ts now later : ℕ)
    → ts < 2 ^ 64
    → 30000 ≤ now
    → later < 2 ^ 63
    → now ≤ later
    → check_skew ts now ≡ ok tt
    → check_skew ts later ≡ ok tt
    → later < now + millis replay_window_seconds
recent_twice ts now later ht hn hl le a b = omega (
  arith,
  (check_skew_iff ts now ht hn (omega arith)).0 a,
  (check_skew_iff ts later ht (omega arith) hl).0 b,
)

read_body-ok :
    (r : HttpRequest) (limit : ℕ) (raw : Bytes) → read_body r limit ≡ ok raw → r.body ≡ some raw
unfolding read_body
read_body-ok r limit raw h = elim (Option-cases r.body) [
  | inl e ↦ absurd (ground arith)
  | inr (b, e) ↦ ground arith
]

post_body-ok :
    (r : HttpRequest) (limit : ℕ) (raw : Bytes) → post_body r limit ≡ ok raw → r.body ≡ some raw
unfolding post_body
post_body-ok r limit raw h = ground (arith, read_body-ok r limit raw)

module _ (sha256 : Bytes → Bytes) (decode_id : Bytes → Result (List Field))
    (verify : Bytes → Bytes → Bytes → Bool) where
  verify_msg_send-skew :
      (p mid : Bytes) (ts : ℕ) (nonce envelope sig : Bytes) (now : ℕ)
      → verify_msg_send verify sha256 p mid ts nonce envelope sig now ≡ ok tt
      → check_skew ts now ≡ ok tt
  unfolding verify_msg_send verify_signed
  verify_msg_send-skew p mid ts nonce envelope sig now h = ground arith

  -- What a request that passes the checks carries.
  record Passed (now : ℕ) (r : HttpRequest) (msg : SendMessage) : Type 0 where
    raw : Bytes
    reads : post_body r max_request_bytes ≡ ok raw
    decodes : unmarshal_send_message decode_id raw ≡ ok msg
    recent : check_skew msg.timestamp now ≡ ok tt

  checked_send-Passed :
      (now : ℕ) (r : HttpRequest) (msg : SendMessage)
      → checked_send sha256 decode_id verify now r ≡ ok msg
      → Passed now r msg
  unfolding checked_send
  checked_send-Passed now r msg h =
      let (raw, reads, h1) = >>=-eq-ok (post_body r max_request_bytes) _ h in
      let (m, decodes, h2) = >>=-eq-ok (unmarshal_send_message decode_id raw) _ h1 in
      let (key, k, h3) = >>=-eq-ok (or_fail (to32 m.sender_pub) _) _ h2 in
      let (mid, i, h4) = >>=-eq-ok (or_fail (to16 m.mailbox_id) _) _ h3 in
      let (nonce, n, h5) = >>=-eq-ok (or_fail (to16 m.nonce) _) _ h4 in
      let (u, signed, h6) =
        >>=-eq-ok
          (verify_msg_send verify sha256 m.sender_pub mid m.timestamp nonce m.envelope m.signature
            now)
          _ h5 in
      let same : m ≡ msg = cc in
      let recent =
        verify_msg_send-skew m.sender_pub mid m.timestamp nonce m.envelope m.signature now signed in
      record {
        raw = raw;
        reads = reads;
        decodes = cc;
        recent = subst (λ x. check_skew x.timestamp now ≡ ok tt) same recent;
      }

  -- The message is the one that the body decodes to.
  Passed-message :
      (now : ℕ) (r : HttpRequest) (raw : Bytes) (a msg : SendMessage)
      → r.body ≡ some raw
      → unmarshal_send_message decode_id raw ≡ ok msg
      → Passed now r a
      → a ≡ msg
  Passed-message now r raw a msg body decodes p =
      cc (body, decodes, p.decodes, post_body-ok r max_request_bytes p.raw p.reads)

  -- The message of a request that is answered, and what the answer says of the replay cache.
  answered :
      (now store_now : ℕ) (id : Bytes) (r : HttpRequest) (h : Shard)
      → is_answer (handle_send sha256 decode_id verify now store_now id r h).0 ≡ true
      → (msg : SendMessage) × (checked_send sha256 decode_id verify now r ≡ ok msg)
        × ((check_and_mark store_now
              (replay_key sha256 replay_domain_msg msg.sender_pub msg.nonce)
              h.store.replay).0
            ≡ false)
  unfolding handle_send front unless_replay write_error check_and_mark_replay
  answered now store_now id r h done =
      elim (Result-cases (checked_send sha256 decode_id verify now r)) [
        | inl (e, bad) ↦ absurd (ground arith)
        | inr (msg, good) ↦
            let key = replay_key sha256 replay_domain_msg msg.sender_pub msg.nonce in
            elim (Bool-cases (check_and_mark store_now key h.store.replay).0) [
              | inr fresh ↦ (msg, good, fresh)
              | inl seen ↦ absurd (ground arith)
            ]
      ]

  -- The replay cache that the handler leaves, after a request that passes the checks.
  handle_send-replay :
      (now store_now : ℕ) (id : Bytes) (r : HttpRequest) (h : Shard) (msg : SendMessage)
      → checked_send sha256 decode_id verify now r ≡ ok msg
      → (handle_send sha256 decode_id verify now store_now id r h).1.store.replay
        ≡ (check_and_mark store_now
            (replay_key sha256 replay_domain_msg msg.sender_pub msg.nonce)
            h.store.replay).1
  unfolding handle_send front unless_replay check_and_mark_replay limited finish
  handle_send-replay now store_now id r h msg good =
      let s = record h.store {
        replay =
            (check_and_mark store_now (replay_key sha256 replay_domain_msg msg.sender_pub msg.nonce)
              h.store.replay).1;
      } in
      ground (arith, send_message-replay store_now id msg s)

  -- A send request that was answered is refused whenever its body is sent again, by whatever client,
  -- however long after, with any number of other checks of the replay cache in between, on a clock
  -- that has passed 30 seconds and does not go back, for a time stamp of 64 bits: within 90 seconds
  -- the replay cache knows it, and later its time stamp is too old.
  pub handle_send-once :
      (now later : ℕ) (id id' raw : Bytes) (r r' : HttpRequest) (msg : SendMessage) (h k : Shard)
      (cs : List (ℕ × Bytes))
      → r.body ≡ some raw
      → r'.body ≡ some raw
      → unmarshal_send_message decode_id raw ≡ ok msg
      → msg.timestamp < 2 ^ 64
      → 30000 ≤ now
      → later < 2 ^ 63
      → IsDistinct h.store.replay
      → is_answer (handle_send sha256 decode_id verify now now id r h).0 ≡ true
      → k.store.replay
        ≡ run_checks cs (handle_send sha256 decode_id verify now now id r h).1.store.replay
      → InOrder now cs later
      → is_answer (handle_send sha256 decode_id verify later later id' r' k).0 ≡ false
  handle_send-once now later id id' raw r r' msg h k cs body body' decodes u64 started max distinct
        done replay order =
      elim (Bool-cases (is_answer (handle_send sha256 decode_id verify later later id' r' k).0)) [
        | inr refused ↦ refused
        | inl again ↦
            let (a, good, fresh) = answered now now id r h done in
            let (b, good', fresh') = answered later later id' r' k again in
            let p = checked_send-Passed now r a good in
            let q = checked_send-Passed later r' b good' in
            let same : a ≡ msg = Passed-message now r raw a msg body decodes p in
            let same' : b ≡ msg = Passed-message later r' raw b msg body' decodes q in
            let early : check_skew msg.timestamp now ≡ ok tt =
              subst (λ x. check_skew x.timestamp now ≡ ok tt) same p.recent in
            let late : check_skew msg.timestamp later ≡ ok tt =
              subst (λ x. check_skew x.timestamp later ≡ ok tt) same' q.recent in
            let soon =
              recent_twice msg.timestamp now later u64 started max (InOrder-le now cs later order)
                early late in
            let known =
              check_and_mark-replay now later
                (replay_key sha256 replay_domain_msg a.sender_pub a.nonce) cs h.store.replay
                distinct fresh order soon in
            cc
              (known, fresh', replay, handle_send-replay now now id r h a good, sym same, sym same')
      ]
