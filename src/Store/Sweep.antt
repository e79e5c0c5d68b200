-- ===== src/Store/Sweep.antt =====
-- `Sweep` of server/storage/memstore.go.
use nex_talk_file_relay.Base.{
  ℕ, ◌+◌, ◌-◌, Bool, false, not, ◌&&◌, ◌||◌, [], ◌∷◌, Option, none, some, Bytes, bytes_eq, ltb, leb,
  ◌==◌, length, if◌then◌else◌,
}
use nex_talk_file_relay.Base.Map.{Map}
use nex_talk_file_relay.Store.Types.{MailboxData, TransferData, MemStore}
use nex_talk_file_relay.Store.Mailboxes.{prune_messages_locked}
use nex_talk_file_relay.Store.Replay.{prune_replay}

unfoldable pub has_live_transfer : ℕ → Bytes → Map Bytes TransferData → Bool
has_live_transfer now id [] = false
has_live_transfer now id ((_, t) ∷ ts) =
    t.has_mailbox && bytes_eq t.mailbox_id id && ltb now t.expires_at || has_live_transfer now id ts

-- What becomes of a mailbox, if it is kept.
unfoldable pub sweep_mailbox : ℕ → Bytes → Map Bytes TransferData → MailboxData → Option MailboxData
sweep_mailbox now id ts mb =
    if leb mb.expires_at now && length mb.messages == 0
    then none
    else (let mb' = prune_messages_locked mb now in
        if leb mb'.expires_at now && length mb'.messages == 0 && not (has_live_transfer now id ts)
        then none
        else some mb')

-- The messages that the sweep drops from a mailbox.
unfoldable pub swept_messages : ℕ → MailboxData → ℕ
swept_messages now mb =
    if leb mb.expires_at now && length mb.messages == 0
    then 0
    else length mb.messages - length (prune_messages_locked mb now).messages

unfoldable pub sweep_mailboxes :
    ℕ → Map Bytes TransferData → Map Bytes MailboxData → ℕ × ℕ × Map Bytes MailboxData
sweep_mailboxes now ts [] = (0, 0, [])
sweep_mailboxes now ts ((id, mb) ∷ rest) =
    let (nm, nb, kept) = sweep_mailboxes now ts rest in
    elim (sweep_mailbox now id ts mb) [
      | none ↦ (swept_messages now mb + nm, 1 + nb, kept)
      | some mb' ↦ (swept_messages now mb + nm, nb, (id, mb') ∷ kept)
    ]

-- Both branches of the source's loop delete a transfer that has run out.
unfoldable pub sweep_transfers : ℕ → Map Bytes TransferData → ℕ × Map Bytes TransferData
sweep_transfers now [] = (0, [])
sweep_transfers now ((id, t) ∷ rest) =
    let (nt, kept) = sweep_transfers now rest in
    if leb t.expires_at now then (1 + nt, kept) else (nt, (id, t) ∷ kept)

-- The counts are those of messages, transfers and mailboxes.
unfoldable pub sweep : ℕ → MemStore → (ℕ × ℕ × ℕ) × MemStore
sweep now s =
    let (nm, nb, mailboxes) = sweep_mailboxes now s.transfers s.mailboxes in
    let (nt, transfers) = sweep_transfers now s.transfers in
    (
      (nm, nt, nb),
      record { mailboxes = mailboxes; transfers = transfers; replay = prune_replay now s.replay },
    )
