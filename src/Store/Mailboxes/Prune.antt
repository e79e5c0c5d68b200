-- ===== src/Store/Mailboxes/Prune.antt =====
-- Pruning a mailbox (pruneMessagesLocked of server/storage/memstore.go) as a list function.
use nex_talk_file_relay.Base.{
  ℕ, ◌+◌, ◌≡◌, List, [], ◌∷◌, ◌++◌, arith, ltb, length, keep, Bool-cases, inl, inr,
}
use mathlib.Core.List.{append-nil, append_assoc}
use nex_talk_file_relay.Store.Types.{StoredMessage, MailboxData, envelope_bytes}
use nex_talk_file_relay.Store.Mailboxes.{prune_loop, prune_messages_locked}

-- The messages that have not run out.
abbrev pub live : ℕ → List StoredMessage → List StoredMessage
live now = keep (λ m. ltb now m.expires_at)

-- The mailbox with another queue, and the byte count of that.
abbrev pub with_queue : List StoredMessage → MailboxData → MailboxData
with_queue q mb = record mb { messages = q; stored_bytes = envelope_bytes q }

pub envelope_bytes-append :
    (xs ys : List StoredMessage) → envelope_bytes (xs ++ ys) ≡ envelope_bytes xs + envelope_bytes ys
envelope_bytes-append [] ys = omega arith
envelope_bytes-append (x ∷ xs) ys = omega (arith, envelope_bytes-append xs ys)

prune_loop_lem :
    (now : ℕ) (ms kept : List StoredMessage) (bytes : ℕ)
    → prune_loop now ms kept bytes ≡ (kept ++ live now ms, bytes + envelope_bytes (live now ms))
unfolding prune_loop
prune_loop_lem now [] kept bytes = ground (arith, append-nil kept)
prune_loop_lem now (m ∷ ms) kept bytes = elim (Bool-cases (ltb now m.expires_at)) [
  | inl e ↦ rw e (
      ground (
        arith,
        prune_loop_lem now ms (kept ++ m ∷ []) (bytes + length m.envelope),
        append_assoc kept (m ∷ []) (live now ms),
      ))
  | inr e ↦ rw e (prune_loop_lem now ms kept bytes)
]

-- Pruning keeps exactly the messages that have not run out, in their order, and counts their bytes
-- anew; nothing else of the mailbox changes.
pub prune_messages_locked_lem :
    (mb : MailboxData) (now : ℕ)
    → prune_messages_locked mb now ≡ with_queue (live now mb.messages) mb
unfolding prune_messages_locked
prune_messages_locked_lem mb now = ground (arith, prune_loop_lem now mb.messages [] 0)
