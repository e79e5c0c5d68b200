-- ===== src/Store/Guards.antt =====
-- Proof rules for the guards that the operations of server/storage/memstore.go share.
use nex_talk_file_relay.Base.{
  ℕ, ◌≡◌, Bool, true, false, not, ◌&&◌, none, some, Bytes, bytes_eq, bytes_eq_refl, bytes_key,
  arith, leb, Bool-cases, Option-cases, inl, inr,
}
use nex_talk_file_relay.Base.Map.{lookup, lookup-insert}
use nex_talk_file_relay.Protocol.Errors.{fail, err_transfer_not_found, err_transfer_expired}
use nex_talk_file_relay.Store.Types.{
  MailboxData, TransferData, MemStore, Outcome, expired, put_mailbox, put_transfer,
}
use nex_talk_file_relay.Store.Mailboxes.{
  slide_mailbox, get_mailbox_locked, secret_matches, with_owner,
}
use nex_talk_file_relay.Store.Transfers.{
  get_transfer_locked, with_transfer, with_recipient, is_complete, slide_owner,
}

pub get_mailbox_locked-lookup :
    (id : Bytes) (now : ℕ) (s : MemStore) (mb : MailboxData)
    → get_mailbox_locked id now s ≡ some mb
    → lookup id s.mailboxes ≡ some mb
unfolding get_mailbox_locked
get_mailbox_locked-lookup id now s mb h = ground arith

abbrev pub has_run_out : ℕ → TransferData → Bool
has_run_out now t = leb t.expires_at now && not (is_complete t.state)

module _ {ℓ} {A : Type ℓ} (now : ℕ) (id : Bytes) (s : MemStore)
    (k : TransferData → MemStore → Outcome A) where
  pub with_transfer-unknown :
      lookup id s.transfers ≡ none
      → with_transfer now id s k ≡ (fail err_transfer_not_found "transfer not found", s)
  unfolding with_transfer get_transfer_locked
  with_transfer-unknown e = ground arith

  pub with_transfer-expired :
      (t : TransferData)
      → lookup id s.transfers ≡ some t
      → has_run_out now t ≡ true
      → with_transfer now id s k ≡ (
        fail err_transfer_expired "transfer expired",
        put_transfer id (record t { state = expired }) s,
      )
  unfolding with_transfer get_transfer_locked
  with_transfer-expired t e late =
      ground
        (arith, lookup-insert id id (record t { state = expired }) s.transfers, bytes_eq_refl id)

  pub with_transfer-live :
      (t : TransferData)
      → lookup id s.transfers ≡ some t
      → has_run_out now t ≡ false
      → with_transfer now id s k ≡ k t s
  unfolding with_transfer get_transfer_locked
  with_transfer-live t e early = ground arith

module _ {ℓ κ} {A : Type ℓ} (P : MemStore → Type κ) where
  pub with_owner-rule :
      (sha256 : Bytes → Bytes) (now : ℕ) (mid secret : Bytes) (s : MemStore)
      (k : MailboxData → Outcome A)
      → P s
      → ((mb : MailboxData) → get_mailbox_locked mid now s ≡ some mb → P (k mb).1)
      → P (with_owner sha256 now mid secret s k).1
  unfolding with_owner
  with_owner-rule sha256 now mid secret s k p h =
      elim (Option-cases (get_mailbox_locked mid now s)) [
        | inl e ↦ rw (with_owner, e) p
        | inr (mb, e) ↦
            rw (with_owner, e)
              (elim (Bool-cases (secret_matches sha256 mb.read_secret_hash secret)) [
                | inl good ↦ rw good (h mb e)
                | inr bad ↦ rw bad p
              ])
      ]

  -- A transfer that has run out is marked so, and that is all that happens to it.
  pub with_transfer-rule :
      (now : ℕ) (id : Bytes) (s : MemStore) (k : TransferData → MemStore → Outcome A)
      → P s
      → ((t : TransferData)
          → lookup id s.transfers ≡ some t
          → is_complete t.state ≡ false
          → P (put_transfer id (record t { state = expired }) s))
      → ((t : TransferData) → lookup id s.transfers ≡ some t → P (k t s).1)
      → P (with_transfer now id s k).1
  with_transfer-rule now id s k p ran_out runs = elim (Option-cases (lookup id s.transfers)) [
    | inl e ↦ rw (with_transfer-unknown now id s k e) p
    | inr (t, e) ↦ elim (Bool-cases (has_run_out now t)) [
      | inl late ↦ rw (with_transfer-expired now id s k t e late) (ran_out t e (ground arith))
      | inr early ↦ rw (with_transfer-live now id s k t e early) (runs t e)
    ]
  ]

  pub with_recipient-rule :
      (sha256 : Bytes → Bytes) (now : ℕ) (t : TransferData) (mid secret : Bytes) (s : MemStore)
      (k : MemStore → Outcome A)
      → P s
      → P (k s).1
      → ((mb : MailboxData)
          → get_mailbox_locked mid now s ≡ some mb
          → P (k (put_mailbox mid (slide_mailbox now mb) s)).1)
      → P (with_recipient sha256 now t mid secret s k).1
  unfolding with_recipient
  with_recipient-rule sha256 now t mid secret s k p open_access owner =
      elim (Bool-cases t.has_mailbox) [
        | inr e ↦ rw (e, with_recipient) open_access
        | inl e ↦
            rw (e, with_recipient)
              (elim (Bool-cases (bytes_eq t.mailbox_id mid)) [
                | inr other ↦ rw other p
                | inl same ↦ rw same (
                    with_owner-rule sha256 now mid secret s
                      (λ mb. k (put_mailbox mid (slide_mailbox now mb) s)) p owner)
              ])
      ]

pub slide_owner-rule {κ} :
    (P : MemStore → Type κ) (now : ℕ) (mid : Bytes) (s : MemStore)
    → P s
    → ((mb : MailboxData)
        → lookup mid s.mailboxes ≡ some mb
        → P (put_mailbox mid (slide_mailbox now mb) s))
    → P (slide_owner now mid s)
unfolding slide_owner
slide_owner-rule P now mid s p h = elim (Option-cases (lookup mid s.mailboxes)) [
  | inl e ↦ rw (slide_owner, e) p
  | inr (mb, e) ↦ rw (slide_owner, e) (h mb e)
]
