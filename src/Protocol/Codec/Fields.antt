-- ===== src/Protocol/Codec/Fields.antt =====
-- The loops of `Unmarshal*` in protocol/schemas.go, protocol/messages.go, protocol/transfers.go and
-- protocol/control.go over the decoded fields: one function for the body of each switch.
use nex_talk_file_relay.Base.{ℕ, List, [], ◌∷◌, Bytes, ◌==◌, if◌then◌else◌}
use nex_talk_file_relay.Protocol.Errors.{Result, ok, ◌>>=◌}
use nex_talk_file_relay.Protocol.Messages.{
  Hello, SendMessage, ReceiveMessages, MessageAck, TransferCreate, ChunkUpload, ChunkDownload,
  ResumeRequest, TransferComplete, TransferCancel,
}
use nex_talk_file_relay.Protocol.Wire.{get_u32, get_u64, get_u8}

-- `FieldID`: an ID and its data.
abbrev pub Field : Type 0
Field = ℕ × Bytes

-- The loop over the decoded fields: `set` is the body of the switch.
unfoldable pub set_fields {ℓ} :
    {A : Type ℓ} → (ℕ → Bytes → A → Result A) → List Field → A → Result A
set_fields set [] a = ok a
set_fields set ((id, d) ∷ fs) a = set id d a >>= set_fields set fs

unfoldable pub set_send_message : ℕ → Bytes → SendMessage → Result SendMessage
set_send_message id d m =
    if id == 1
    then ok (record m { mailbox_id = d })
    else if id == 2
    then ok (record m { envelope = d })
    else if id == 3
    then ok (record m { sender_pub = d })
    else if id == 4
    then (get_u64 d >>= λ v. ok (record m { timestamp = v }))
    else if id == 5
    then ok (record m { nonce = d })
    else if id == 6
    then ok (record m { signature = d })
    else if id == 7
    then (get_u32 d >>= λ v. ok (record m { ttl_hint_sec = v }))
    else if id == 8
    then (get_u8 d >>= λ v. ok (record m { burn = v }))
    else ok m

unfoldable pub set_hello : ℕ → Bytes → Hello → Result Hello
set_hello id d m =
    if id == 1
    then (get_u8 d >>= λ v. ok (record m { major = v }))
    else if id == 2
    then (get_u8 d >>= λ v. ok (record m { minor = v }))
    else if id == 3
    then (get_u64 d >>= λ v. ok (record m { now_ms = v }))
    else ok m

unfoldable pub set_chunk_upload : ℕ → Bytes → ChunkUpload → Result ChunkUpload
set_chunk_upload id d c =
    if id == 1
    then ok (record c { transfer_id = d })
    else if id == 2
    then (get_u32 d >>= λ v. ok (record c { index = v }))
    else if id == 3
    then ok (record c { payload = d })
    else if id == 4
    then ok (record c { chunk_hash = d })
    else if id == 5
    then (get_u64 d >>= λ v. ok (record c { offset = v }))
    else ok c

unfoldable pub set_receive_messages : ℕ → Bytes → ReceiveMessages → Result ReceiveMessages
set_receive_messages id d r =
    if id == 1
    then ok (record r { mailbox_id = d })
    else if id == 2
    then ok (record r { read_secret = d })
    else if id == 3
    then (get_u8 d >>= λ v. ok (record r { limit = v }))
    else if id == 4
    then (get_u8 d >>= λ v. ok (record r { peek = v }))
    else ok r

-- The flat list of IDs is kept beside the message until the fields are read.
unfoldable pub set_message_ack : ℕ → Bytes → MessageAck × Bytes → Result (MessageAck × Bytes)
set_message_ack id d (a, flat) =
    if id == 1
    then ok (record a { mailbox_id = d }, flat)
    else if id == 2
    then ok (record a { read_secret = d }, flat)
    else if id == 3
    then ok (a, d)
    else if id == 4
    then (get_u8 d >>= λ v. ok (record a { disposition = v }, flat))
    else ok (a, flat)

unfoldable pub set_transfer_create : ℕ → Bytes → TransferCreate → Result TransferCreate
set_transfer_create id d t =
    if id == 1
    then ok (record t { mailbox_id = d })
    else if id == 2
    then (get_u64 d >>= λ v. ok (record t { total_size = v }))
    else if id == 3
    then (get_u32 d >>= λ v. ok (record t { chunk_size = v }))
    else if id == 4
    then (get_u32 d >>= λ v. ok (record t { chunk_count = v }))
    else if id == 5
    then ok (record t { manifest = d })
    else if id == 6
    then ok (record t { sender_pub = d })
    else if id == 7
    then (get_u64 d >>= λ v. ok (record t { timestamp = v }))
    else if id == 8
    then ok (record t { nonce = d })
    else if id == 9
    then ok (record t { signature = d })
    else ok t

unfoldable pub set_chunk_download : ℕ → Bytes → ChunkDownload → Result ChunkDownload
set_chunk_download id d r =
    if id == 1
    then ok (record r { transfer_id = d })
    else if id == 2
    then (get_u32 d >>= λ v. ok (record r { index = v }))
    else if id == 3
    then (get_u32 d >>= λ v. ok (record r { count = v }))
    else if id == 4
    then ok (record r { mailbox_id = d })
    else if id == 5
    then ok (record r { read_secret = d })
    else if id == 6
    then ok (record r { ticket = d })
    else ok r

unfoldable pub set_resume_request : ℕ → Bytes → ResumeRequest → Result ResumeRequest
set_resume_request id d r =
    if id == 1
    then ok (record r { transfer_id = d })
    else if id == 2
    then ok (record r { mailbox_id = d })
    else if id == 3
    then ok (record r { read_secret = d })
    else if id == 4
    then ok (record r { ticket = d })
    else ok r

unfoldable pub set_transfer_complete : ℕ → Bytes → TransferComplete → Result TransferComplete
set_transfer_complete id d t =
    if id == 1
    then ok (record t { transfer_id = d })
    else if id == 2
    then ok (record t { manifest_hash = d })
    else if id == 3
    then ok (record t { mailbox_id = d })
    else if id == 4
    then ok (record t { sender_pub = d })
    else if id == 5
    then (get_u64 d >>= λ v. ok (record t { timestamp = v }))
    else if id == 6
    then ok (record t { nonce = d })
    else if id == 7
    then ok (record t { signature = d })
    else ok t

unfoldable pub set_transfer_cancel : ℕ → Bytes → TransferCancel → Result TransferCancel
set_transfer_cancel id d t =
    if id == 1
    then ok (record t { transfer_id = d })
    else if id == 2
    then ok (record t { mailbox_id = d })
    else if id == 3
    then (get_u8 d >>= λ v. ok (record t { reason = v }))
    else if id == 4
    then ok (record t { read_secret = d })
    else ok t
