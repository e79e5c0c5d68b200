-- ===== src/Tests/Contract.antt =====
-- A mailbox used through the store and as a box; missing chunks of a large file.
use nex_talk_file_relay.Base.{ℕ, ◌≡◌, arith, true, false, List, [], ◌∷◌, replicate}
use nex_talk_file_relay.Protocol.Errors.{ok}
use nex_talk_file_relay.Protocol.Wire.{Range, decode_ranges}
use nex_talk_file_relay.Protocol.Messages.{resume_ranges}
use nex_talk_file_relay.Store.Types.{TransferData, new_mem_store}
use nex_talk_file_relay.Store.Valid.{new_mem_store-IsValid}
use nex_talk_file_relay.Store.Resume.{build_resume_view}
use nex_talk_file_relay.Store.Resume.Missing.{Lists, missing_from, build_resume_view-Lists}
use nex_talk_file_relay.Store.Contract.{
  MailCall, open_box, post_message, fetch, confirm, mail_run, box_run,
}
use nex_talk_file_relay.Store.Contract.Contents.{contents}
use nex_talk_file_relay.Store.Contract.Refinement.{mail_run-box_run}
use nex_talk_file_relay.Tests.Data.{cut, mailbox_id, secret, message_id, message, fresh_transfer}

abbrev calls : List (ℕ × MailCall)
calls =
    (40000, open_box mailbox_id secret)
    ∷ (41000, post_message message_id message)
    ∷ (42000, fetch mailbox_id secret 5 true)
    ∷ (42000, confirm mailbox_id secret (message_id ∷ []) 2)
    ∷ (43000, fetch mailbox_id secret 5 false)
    ∷ []

mail_run-box_run_example :
    mail_run cut new_mem_store calls ≡ box_run cut (contents 40000 new_mem_store) calls
mail_run-box_run_example =
    mail_run-box_run cut 40000 new_mem_store calls (new_mem_store-IsValid cut)
      (omega arith, (omega arith, (omega arith, (omega arith, (omega arith, tt)))))

abbrev large : TransferData
large = record fresh_transfer { chunk_count = 300; present = replicate 299 true }

build_resume_view-Lists_example :
    let view = (build_resume_view large message_id).0 in
    (rs : List Range) × (view.encoding ≡ resume_ranges)
    × (decode_ranges view.missing_ranges ≡ ok rs)
    × Lists rs (missing_from 300 0 large.present)
build_resume_view-Lists_example =
    build_resume_view-Lists large message_id (omega arith) (omega arith)
