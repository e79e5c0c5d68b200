-- ===== src/Store/Contract/Contents.antt =====
-- The store of server/storage/memstore.go seen as boxes.
use nex_talk_file_relay.Base.{
  ℕ, ◌+◌, ◌≤◌, ◌≡◌, refl, ap, ◌∙◌, inl, inr, arith, true, not, List, [], ◌∷◌, ◌++◌, none, some,
  Bytes, bytes_eq_iff, bytes_key, ltb, drop, All, All-keep, All-append, All-drop, if_rule,
  Option-cases,
}
use mathlib.Core.Path.{fun_ext}
use nex_talk_file_relay.Base.Map.{lookup, lookup-insert}
use nex_talk_file_relay.Protocol.Limits.{mailbox_ttl_seconds}
use nex_talk_file_relay.Protocol.Messages.{SendMessage}
use nex_talk_file_relay.Store.Types.{StoredMessage, MailboxData, MemStore, put_mailbox, millis}
use nex_talk_file_relay.Store.Mailboxes.{slide_mailbox, get_mailbox_locked}
use nex_talk_file_relay.Store.Mailboxes.Prune.{live, with_queue}
use nex_talk_file_relay.Store.Messages.{wanted}
use nex_talk_file_relay.Store.Messages.Queue.{unwanted}
use nex_talk_file_relay.Store.Messages.Delivery.{stored}
use nex_talk_file_relay.Store.Messages.Batch.{backlog}
use nex_talk_file_relay.Store.Contract.{Box, Boxes, put_box, age, renewed, open_at}

-- A mailbox as a box.
abbrev pub box : ℕ → MailboxData → Box
box now mb = record { holder = mb.read_secret_hash; ends = mb.expires_at; queue = backlog now mb }

-- The boxes of a store. The bytes that are counted, the messages that have run out, the order of the
-- map and the transfers are forgotten.
unfoldable pub contents : ℕ → MemStore → Boxes
contents now s id = elim (lookup id s.mailboxes) [ none ↦ none | some mb ↦ some (box now mb) ]

pub contents-put_mailbox :
    (now : ℕ) (id : Bytes) (mb : MailboxData) (s : MemStore)
    → contents now (put_mailbox id mb s) ≡ put_box id (box now mb) (contents now s)
unfolding contents put_box
contents-put_mailbox now id mb s = fun_ext λ j. ground (arith, lookup-insert id j mb s.mailboxes)

pub live_later :
    (now later : ℕ) (ms : List StoredMessage)
    → now ≤ later
    → live later (live now ms) ≡ live later ms
live_later now later [] h = refl
live_later now later (m ∷ ms) h = ground (arith, live_later now later ms h)

pub age-contents :
    (now later : ℕ) (s : MemStore) → now ≤ later → age later (contents now s) ≡ contents later s
unfolding age contents
age-contents now later s h = fun_ext λ j. elim (Option-cases (lookup j s.mailboxes)) [
  | inl e ↦ ground arith
  | inr (mb, e) ↦ ground (arith, live_later now later mb.messages h)
]

-- A queue without a message that has run out.
abbrev pub IsLive : ℕ → List StoredMessage → Type 0
IsLive now = All (λ (m : StoredMessage). ltb now m.expires_at ≡ true)

pub live-IsLive : (now : ℕ) (ms : List StoredMessage) → IsLive now (live now ms)
live-IsLive now [] = tt
live-IsLive now (m ∷ ms) =
    if_rule (IsLive now) (ltb now m.expires_at) (λ e. (e, live-IsLive now ms))
      (λ e. live-IsLive now ms)

pub live_of_IsLive : (now : ℕ) (ms : List StoredMessage) → IsLive now ms → live now ms ≡ ms
live_of_IsLive now [] h = refl
live_of_IsLive now (m ∷ ms) h = ground (arith, h.0, live_of_IsLive now ms h.1)

-- A write of a queue that is live, as a write of the box.
pub contents-renewed :
    (now : ℕ) (id : Bytes) (q : List StoredMessage) (mb : MailboxData) (s : MemStore)
    → IsLive now q
    → contents now (put_mailbox id (slide_mailbox now (with_queue q mb)) s)
      ≡ put_box id (renewed now q (box now mb)) (contents now s)
contents-renewed now id q mb s l =
    contents-put_mailbox now id (slide_mailbox now (with_queue q mb)) s
    ∙ ap
        (λ r.
          put_box id
            (record {
              holder = mb.read_secret_hash;
              ends = now + millis mailbox_ttl_seconds;
              queue = r;
            })
            (contents now s))
        (live_of_IsLive now q l)

-- Pruning a mailbox does not change its box.
pub contents-pruned :
    (now : ℕ) (id : Bytes) (mb : MailboxData) (s : MemStore)
    → lookup id s.mailboxes ≡ some mb
    → contents now (put_mailbox id (with_queue (backlog now mb) mb) s) ≡ contents now s
unfolding contents
contents-pruned now id mb s found = fun_ext λ j. ground (
  arith,
  lookup-insert id j (with_queue (backlog now mb) mb) s.mailboxes,
  bytes_eq_iff id j,
  live_of_IsLive now (backlog now mb) (live-IsLive now mb.messages),
)

-- The box that is open is that of the mailbox that is live.
pub open_at-contents :
    (now : ℕ) (id : Bytes) (s : MemStore)
    → open_at now id (contents now s)
      ≡ (elim (get_mailbox_locked id now s) [ none ↦ none | some mb ↦ some (box now mb) ])
unfolding open_at contents get_mailbox_locked
open_at-contents now id s = ground arith

pub contents-none :
    (now : ℕ) (id : Bytes) (s : MemStore) → lookup id s.mailboxes ≡ none → contents now s id ≡ none
unfolding contents
contents-none now id s e = ground arith

pub contents-some :
    (now : ℕ) (id : Bytes) (s : MemStore) (mb : MailboxData)
    → lookup id s.mailboxes ≡ some mb
    → contents now s id ≡ some (box now mb)
unfolding contents
contents-some now id s mb e = ground arith

-- Time passes for a queue that is live: what was taken from it or put behind it is live too.
pub IsLive-backlog : (now : ℕ) (mb : MailboxData) → IsLive now (backlog now mb)
IsLive-backlog now mb = live-IsLive now mb.messages

pub IsLive-drop : (now n : ℕ) (q : List StoredMessage) → IsLive now q → IsLive now (drop n q)
IsLive-drop now = All-drop (λ (m : StoredMessage). ltb now m.expires_at ≡ true)

pub IsLive-unwanted :
    (now : ℕ) (ids : List Bytes) (q : List StoredMessage)
    → IsLive now q
    → IsLive now (unwanted ids q)
IsLive-unwanted now ids =
    All-keep (λ (m : StoredMessage). ltb now m.expires_at ≡ true) (λ m. not (wanted ids m.id))

pub IsLive-stored :
    (now : ℕ) (id : Bytes) (msg : SendMessage) (q : List StoredMessage)
    → IsLive now q
    → IsLive now (q ++ stored now id msg ∷ [])
IsLive-stored now id msg q l =
    All-append (λ (m : StoredMessage). ltb now m.expires_at ≡ true) q _ l (ground arith, tt)
