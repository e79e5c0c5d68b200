-- ===== src/Store/Contract.antt =====
-- What a mailbox promises its users, without the store: a box has an owner, an end and a queue, and
-- a message is gone when it has run out. The calls are the four of server/storage/store.go about
-- messages.
pub mod Contents
pub mod Simulation
pub mod Refinement
use nex_talk_file_relay.Base.{
  ℕ, ◌+◌, Bool, true, false, not, ◌&&◌, ◌||◌, List, [], ◌∷◌, ◌++◌, Option, none, some, Bytes,
  bytes_eq, ltb, leb, ◌==◌, length, take, drop, if◌then◌else◌,
}
use nex_talk_file_relay.Protocol.Limits.{
  mailbox_ttl_seconds, max_queued_messages, max_stored_bytes_per_mailbox, max_batch_messages,
}
use nex_talk_file_relay.Protocol.Errors.{
  Result, ok, err, fail, err_mailbox_not_found, err_auth_failed, err_quota_exceeded,
  err_invalid_request,
}
use nex_talk_file_relay.Protocol.Messages.{SendMessage, ack_received, ack_consumed}
use nex_talk_file_relay.Protocol.Validate.{validate_send_message}
use nex_talk_file_relay.Store.Types.{StoredMessage, MemStore, envelope_bytes, millis, to_array}
use nex_talk_file_relay.Store.Mailboxes.{create_mailbox, secret_matches}
use nex_talk_file_relay.Store.Mailboxes.Prune.{live}
use nex_talk_file_relay.Store.Messages.{
  send_message, receive_messages, ack_messages, clamp_limit, has_bad_id,
}
use nex_talk_file_relay.Store.Messages.Queue.{count_wanted, unwanted}
use nex_talk_file_relay.Store.Messages.Delivery.{stored}

pub data MailCall : Type 0 where
  open_box : Bytes → Bytes → MailCall
  post_message : Bytes → SendMessage → MailCall
  fetch : Bytes → Bytes → ℕ → Bool → MailCall
  confirm : Bytes → Bytes → List Bytes → ℕ → MailCall

pub data Answer : Type 0 where
  opened : Bool → Answer
  posted : Result (Bytes × ℕ) → Answer
  fetched : Result (List StoredMessage × Bool) → Answer
  confirmed : Result (ℕ × ℕ) → Answer

pub record Box : Type 0 where
  pub holder : Bytes
  pub ends : ℕ
  pub queue : List StoredMessage

abbrev pub Boxes : Type 0
Boxes = Bytes → Option Box

unfoldable pub put_box : Bytes → Box → Boxes → Boxes
put_box id b boxes j = if bytes_eq id j then some b else boxes j

-- Time passes: what has run out is gone.
unfoldable pub age : ℕ → Boxes → Boxes
age now boxes j = elim (boxes j) [
  | none ↦ none
  | some b ↦ some (record b { queue = live now b.queue })
]

abbrev pub renewed : ℕ → List StoredMessage → Box → Box
renewed now q b = record b { ends = now + millis mailbox_ttl_seconds; queue = q }

-- A box that has not ended.
unfoldable pub open_at : ℕ → Bytes → Boxes → Option Box
open_at now id boxes = elim (boxes id) [
  | none ↦ none
  | some b ↦ if leb b.ends now then none else some b
]

-- The calls on boxes.
unfoldable pub box_open : ℕ → Bytes → Bytes → Boxes → Answer × Boxes
box_open now id hash boxes = elim (boxes id) [
  | none ↦ (
    opened true,
    put_box id record { holder = hash; ends = now + millis mailbox_ttl_seconds; queue = [] } boxes,
  )
  | some b ↦ (opened false, put_box id (renewed now b.queue (record b { holder = hash })) boxes)
]

unfoldable pub box_post : ℕ → Bytes → SendMessage → Boxes → Answer × Boxes
box_post now id msg boxes = elim (validate_send_message msg) [
  | err e ↦ (posted (err e), boxes)
  | ok _ ↦
      let mid = to_array 16 msg.mailbox_id in
      elim (open_at now mid boxes) [
        | none ↦ (posted (fail err_mailbox_not_found "mailbox not found"), boxes)
        | some b ↦
            if leb max_queued_messages (length b.queue)
            then (posted (fail err_quota_exceeded "mailbox full"), boxes)
            else if ltb max_stored_bytes_per_mailbox (envelope_bytes b.queue + length msg.envelope)
            then (posted (fail err_quota_exceeded "mailbox byte quota"), boxes)
            else (
              posted (ok (id, length b.queue + 1)),
              put_box mid (renewed now (b.queue ++ stored now id msg ∷ []) b) boxes,
            )
      ]
]

module _ (sha256 : Bytes → Bytes) where
  -- The calls of the store.
  unfoldable pub mail_step : ℕ → MailCall → MemStore → Answer × MemStore
  mail_step now (open_box id hash) s =
      let (is_new, s') = create_mailbox now id hash s in (opened is_new, s')
  mail_step now (post_message id msg) s = let (r, s') = send_message now id msg s in (posted r, s')
  mail_step now (fetch mid secret limit peek) s =
      let (r, s') = receive_messages sha256 now mid secret limit peek s in (fetched r, s')
  mail_step now (confirm mid secret ids disposition) s =
      let (r, s') = ack_messages sha256 now mid secret ids disposition s in (confirmed r, s')

  unfoldable pub mail_run : MemStore → List (ℕ × MailCall) → List Answer
  mail_run s [] = []
  mail_run s ((now, c) ∷ cs) = let (a, s') = mail_step now c s in a ∷ mail_run s' cs

  unfoldable pub box_fetch : ℕ → Bytes → Bytes → ℕ → Bool → Boxes → Answer × Boxes
  box_fetch now mid secret limit peek boxes = elim (open_at now mid boxes) [
    | none ↦ (fetched (fail err_mailbox_not_found "mailbox not found"), boxes)
    | some b ↦
        if not (secret_matches sha256 b.holder secret)
        then (fetched (fail err_auth_failed "bad read secret"), boxes)
        else (
          fetched (ok (take (clamp_limit limit) b.queue, not peek)),
          put_box mid (renewed now (if peek then b.queue else drop (clamp_limit limit) b.queue) b)
              boxes,
        )
  ]

  unfoldable pub box_confirm : ℕ → Bytes → Bytes → List Bytes → ℕ → Boxes → Answer × Boxes
  box_confirm now mid secret ids disposition boxes =
      if not (disposition == ack_received) && not (disposition == ack_consumed)
      then (confirmed (fail err_invalid_request "bad disposition"), boxes)
      else if length ids == 0 || ltb max_batch_messages (length ids)
      then (confirmed (fail err_invalid_request "msg_ids count out of bounds"), boxes)
      else elim (open_at now mid boxes) [
        | none ↦ (confirmed (fail err_mailbox_not_found "mailbox not found"), boxes)
        | some b ↦
            if not (secret_matches sha256 b.holder secret)
            then (confirmed (fail err_auth_failed "bad read secret"), boxes)
            else if has_bad_id ids
            then (confirmed (fail err_invalid_request "msg_id must be 16 bytes"), boxes)
            else (let left =
                  if disposition == ack_consumed then unwanted ids b.queue else b.queue in
                (
                  confirmed (ok (count_wanted ids b.queue, length left)),
                  put_box mid (renewed now left b) boxes,
                ))
      ]

  unfoldable pub box_step : ℕ → MailCall → Boxes → Answer × Boxes
  box_step now (open_box id hash) boxes = box_open now id hash boxes
  box_step now (post_message id msg) boxes = box_post now id msg boxes
  box_step now (fetch mid secret limit peek) boxes = box_fetch now mid secret limit peek boxes
  box_step now (confirm mid secret ids disposition) boxes =
      box_confirm now mid secret ids disposition boxes

  unfoldable pub box_run : Boxes → List (ℕ × MailCall) → List Answer
  box_run boxes [] = []
  box_run boxes ((now, c) ∷ cs) =
      let (a, boxes') = box_step now c (age now boxes) in a ∷ box_run boxes' cs
