-- ===== src/Store/Contract/Refinement.antt =====
-- Sequences of calls on the store of server/storage/memstore.go and on boxes.
use nex_talk_file_relay.Base.{ℕ, ◌≤◌, ◌≡◌, refl, ap, List, [], ◌∷◌, Bytes}
use nex_talk_file_relay.Store.Types.{MemStore}
use nex_talk_file_relay.Store.Valid.{IsValid}
use nex_talk_file_relay.Store.Valid.Queues.{
  create_mailbox-IsValid, send_message-IsValid, receive_messages-IsValid, ack_messages-IsValid,
}
use nex_talk_file_relay.Store.Contract.{
  MailCall, open_box, post_message, fetch, confirm, mail_step, mail_run, box_step, box_run,
}
use nex_talk_file_relay.Store.Contract.Contents.{contents, age-contents}
use nex_talk_file_relay.Store.Contract.Simulation.{
  box_open-contents, box_post-contents, box_fetch-contents, box_confirm-contents,
}

-- The clock does not go back.
abbrev pub AreTimed : ℕ → List (ℕ × MailCall) → Type 0
AreTimed start [] = Unit
AreTimed start ((now, c) ∷ cs) = (start ≤ now) × AreTimed now cs

module _ (sha256 : Bytes → Bytes) where
  mail_step-IsValid :
      (now : ℕ) (c : MailCall) (s : MemStore)
      → IsValid sha256 s
      → IsValid sha256 (mail_step sha256 now c s).1
  unfolding mail_step
  mail_step-IsValid now (open_box id hash) s v = create_mailbox-IsValid sha256 now id hash s v
  mail_step-IsValid now (post_message id msg) s v = send_message-IsValid sha256 now id msg s v
  mail_step-IsValid now (fetch mid secret limit peek) s v =
      receive_messages-IsValid sha256 now mid secret limit peek s v
  mail_step-IsValid now (confirm mid secret ids disposition) s v =
      ack_messages-IsValid sha256 now mid secret ids disposition s v

  -- One call: the answer is that of the boxes, and the boxes of the store are those after it.
  pub box_step-contents :
      (now : ℕ) (c : MailCall) (s : MemStore)
      → IsValid sha256 s
      → box_step sha256 now c (contents now s)
        ≡ ((mail_step sha256 now c s).0, contents now (mail_step sha256 now c s).1)
  unfolding box_step mail_step
  box_step-contents now (open_box id hash) s v = box_open-contents now id hash s
  box_step-contents now (post_message id msg) s v = box_post-contents now id msg s
  box_step-contents now (fetch mid secret limit peek) s v =
      box_fetch-contents sha256 now mid secret limit peek s
  box_step-contents now (confirm mid secret ids disposition) s v =
      box_confirm-contents sha256 now mid secret ids disposition s v.mailboxes

  -- The store refines the boxes: from a valid store, any sequence of calls about messages, on any
  -- mailboxes and at times that do not fall, gets the same answers as from the boxes of that store.
  pub mail_run-box_run :
      (start : ℕ) (s : MemStore) (cs : List (ℕ × MailCall))
      → IsValid sha256 s
      → AreTimed start cs
      → mail_run sha256 s cs ≡ box_run sha256 (contents start s) cs
  unfolding mail_run box_run
  mail_run-box_run start s [] v o = refl
  mail_run-box_run start s ((now, c) ∷ cs) v o =
      rw (age-contents start now s o.0, box_step-contents now c s v)
        (ap (◌∷◌ (mail_step sha256 now c s).0)
          (mail_run-box_run now (mail_step sha256 now c s).1 cs (mail_step-IsValid now c s v) o.1))
