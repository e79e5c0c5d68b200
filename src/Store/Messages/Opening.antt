-- ===== src/Store/Messages/Opening.antt =====
-- A mailbox from its creation on (server/storage/memstore.go).
use nex_talk_file_relay.Base.{
  ℕ, ◌+◌, ◌<◌, ◌≡◌, arith, true, [], none, some, Bytes, bytes_eq_refl, bytes_key, leb, length,
  if◌then◌else◌,
}
use nex_talk_file_relay.Base.Map.{lookup}
use nex_talk_file_relay.Protocol.Limits.{mailbox_ttl_seconds}
use nex_talk_file_relay.Store.Types.{MailboxData, MemStore, put_mailbox, millis}
use nex_talk_file_relay.Store.Mailboxes.{
  create_mailbox, slide_mailbox, mailbox_exists, get_mailbox_locked, secret_matches,
}
use nex_talk_file_relay.Store.Mailboxes.Access.{get_mailbox_locked-put_mailbox}
use nex_talk_file_relay.Store.Messages.Batch.{Owns}

-- The mailbox that `CreateMailbox` leaves.
abbrev pub registered : ℕ → Bytes → Bytes → MemStore → MailboxData
registered now id hash s = elim (lookup id s.mailboxes) [
  | some mb ↦ slide_mailbox now (record mb { read_secret_hash = hash })
  | none ↦ record {
    read_secret_hash = hash;
    messages = [];
    expires_at = now + millis mailbox_ttl_seconds;
    stored_bytes = 0;
  }
]

pub create_mailbox-registered :
    (now : ℕ) (id hash : Bytes) (s : MemStore)
    → (create_mailbox now id hash s).1 ≡ put_mailbox id (registered now id hash s) s
unfolding create_mailbox
create_mailbox-registered now id hash s = ground arith

registered_lem :
    (now : ℕ) (id hash : Bytes) (s : MemStore)
    → ((registered now id hash s).expires_at ≡ now + millis mailbox_ttl_seconds)
      × ((registered now id hash s).read_secret_hash ≡ hash)
registered_lem now id hash s = ground arith

pub mailbox_exists-found :
    (now : ℕ) (id : Bytes) (s : MemStore) (mb : MailboxData)
    → get_mailbox_locked id now s ≡ some mb
    → mailbox_exists now id s ≡ true
unfolding mailbox_exists get_mailbox_locked
mailbox_exists-found now id s mb h = ground arith

secret_matches-own :
    (sha256 : Bytes → Bytes) (secret : Bytes)
    → length secret ≡ 32
    → secret_matches sha256 (sha256 secret) secret ≡ true
unfolding secret_matches
secret_matches-own sha256 secret l = ground (arith, bytes_eq_refl (sha256 secret))

unexpired :
    (later : ℕ) (mb : MailboxData)
    → later < mb.expires_at
    → (if leb mb.expires_at later then none else some mb) ≡ some mb
unexpired later mb h = ground arith

-- Whoever holds the secret owns the mailbox that was created with its hash, while it lives.
pub Owns-create_mailbox :
    (sha256 : Bytes → Bytes) (now later : ℕ) (id secret : Bytes) (s : MemStore)
    → length secret ≡ 32
    → later < now + millis mailbox_ttl_seconds
    → Owns sha256 later id secret
        (create_mailbox now id (sha256 secret) s).1
        (registered now id (sha256 secret) s)
Owns-create_mailbox sha256 now later id secret s l lives =
    let mb = registered now id (sha256 secret) s in
    let (ends, hash) = registered_lem now id (sha256 secret) s in
    record {
      found =
          rw
            (
              create_mailbox-registered now id (sha256 secret) s,
              get_mailbox_locked-put_mailbox id id later mb s,
              bytes_eq_refl id,
            )
            (unexpired later mb (omega (arith, ends)));
      matches = rw hash (secret_matches-own sha256 secret l);
    }
