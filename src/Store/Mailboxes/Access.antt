-- ===== src/Store/Mailboxes/Access.antt =====
-- Looking a mailbox up in a store that was just written (server/storage/memstore.go).
use nex_talk_file_relay.Base.{
  ℕ, ◌≡◌, none, some, Bytes, bytes_eq, bytes_key, arith, leb, if◌then◌else◌,
}
use nex_talk_file_relay.Base.Map.{lookup-insert}
use nex_talk_file_relay.Store.Types.{MailboxData, MemStore, put_mailbox}
use nex_talk_file_relay.Store.Mailboxes.{get_mailbox_locked}

-- At the written key the new mailbox is found while it lives, and elsewhere what was there.
pub get_mailbox_locked-put_mailbox :
    (id j : Bytes) (now : ℕ) (mb : MailboxData) (s : MemStore)
    → get_mailbox_locked j now (put_mailbox id mb s) ≡ (
        if bytes_eq id j
        then (if leb mb.expires_at now then none else some mb)
        else get_mailbox_locked j now s)
unfolding get_mailbox_locked
get_mailbox_locked-put_mailbox id j now mb s = ground (arith, lookup-insert id j mb s.mailboxes)
