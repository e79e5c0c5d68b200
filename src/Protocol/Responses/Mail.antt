-- ===== src/Protocol/Responses/Mail.antt =====
-- The answers about messages: schemas 58, 60 and 62 of protocol/messages.go.
use nex_talk_file_relay.Base.{
  ℕ, zero, suc, ◌*◌, ◌%◌, ◌^◌, Bool, false, not, ◌||◌, List, [], ◌∷◌, ◌++◌, Bytes, ltb, ◌==◌,
  length, take, drop, if◌then◌else◌, ◌+◌,
}
use nex_talk_file_relay.Protocol.Limits.{max_message_bytes, max_batch_messages}
use nex_talk_file_relay.Protocol.Errors.{
  Result, ok, fail, ◌>>=◌, ◌>>◌, err_invalid_request, err_message_too_large, err_batch_too_large,
}
use nex_talk_file_relay.Protocol.Wire.{put_u32, be_u32, get_u32, get_u8}
use nex_talk_file_relay.Protocol.Codec.{Field, unmarshal}

pub record SendMessageResponse : Type 0 where
  pub accepted : ℕ
  pub queued : ℕ
  pub msg_id : Bytes

pub record ReceivedMessage : Type 0 where
  pub msg_id : Bytes
  pub envelope : Bytes

pub record ReceiveMessagesResponse : Type 0 where
  pub messages : List ReceivedMessage
  pub consumed : Bool

pub record MessageAckResponse : Type 0 where
  pub acked : ℕ
  pub remaining : ℕ

unfoldable pub check_msg_id : Bytes → Result (Unit {0})
check_msg_id id =
    if not (length id == 16) then fail err_invalid_request "msg_id must be 16 bytes" else ok tt

unfoldable pub set_send_message_response :
    ℕ → Bytes → SendMessageResponse → Result SendMessageResponse
set_send_message_response id d r =
    if id == 1
    then (get_u8 d >>= λ v. ok (record r { accepted = v }))
    else if id == 2
    then (get_u32 d >>= λ v. ok (record r { queued = v }))
    else if id == 3
    then ok (record r { msg_id = d })
    else ok r

unfoldable pub set_message_ack_response : ℕ → Bytes → MessageAckResponse → Result MessageAckResponse
set_message_ack_response id d r =
    if id == 1
    then (get_u32 d >>= λ v. ok (record r { acked = v }))
    else if id == 2
    then (get_u32 d >>= λ v. ok (record r { remaining = v }))
    else ok r

-- The checks of the loop that encodes a batch.
unfoldable pub check_entries : List ReceivedMessage → Result (Unit {0})
check_entries [] = ok tt
check_entries (m ∷ ms) =
    if not (length m.msg_id == 16)
    then fail err_invalid_request "msg_id must be 16 bytes"
    else if length m.envelope == 0 || ltb max_message_bytes (length m.envelope)
    then fail err_message_too_large "envelope out of bounds"
    else check_entries ms

-- The two byte strings that this loop fills.
unfoldable pub entry_ids : List ReceivedMessage → Bytes
entry_ids [] = []
entry_ids (m ∷ ms) = m.msg_id ++ entry_ids ms

unfoldable pub entry_payloads : List ReceivedMessage → Bytes
unfolding put_u32
entry_payloads [] = []
entry_payloads (m ∷ ms) = put_u32 (length m.envelope) ++ (m.envelope ++ entry_payloads ms)

-- The fields of a batch before they are cut into messages.
pub record RawBatch : Type 0 where
  pub count : ℕ
  pub ids : Bytes
  pub payloads : Bytes
  pub consumed : Bool

unfoldable pub set_batch : ℕ → Bytes → RawBatch → Result RawBatch
set_batch id d b =
    if id == 1
    then (get_u32 d >>= λ v. ok (record b { count = v }))
    else if id == 2
    then ok (record b { ids = d })
    else if id == 3
    then ok (record b { payloads = d })
    else if id == 4
    then (get_u8 d >>= λ v. ok (record b { consumed = v == 1 }))
    else ok b

-- The loop over the payloads, `count` rounds, and the check of what is left.
unfoldable pub cut_entries : ℕ → Bytes → Bytes → Result (List ReceivedMessage)
unfolding be_u32
cut_entries zero ids [] = ok []
cut_entries zero ids (b ∷ left) = fail err_invalid_request "payloads trailing bytes"
cut_entries (suc count) ids (a ∷ b ∷ c ∷ d ∷ rest) =
    let n = be_u32 a b c d in
    let later = cut_entries count (drop 16 ids) (drop n rest) in
    if n == 0 || ltb max_message_bytes n || ltb (length rest) n
    then fail err_message_too_large "envelope out of bounds"
    else (later >>= λ ms. ok (record { msg_id = take 16 ids; envelope = take n rest } ∷ ms))
cut_entries (suc count) ids payloads = fail err_invalid_request "payloads truncated"

-- The end of `UnmarshalReceiveMessagesResponse`.
unfoldable pub with_entries : RawBatch → Result ReceiveMessagesResponse
with_entries b =
    if ltb max_batch_messages b.count
    then fail err_batch_too_large "batch too large"
    else if not (length b.ids % 2 ^ 32 == b.count * 16 % 2 ^ 32)
    then fail err_invalid_request "ids length mismatch"
    else (cut_entries b.count b.ids b.payloads >>= λ ms.
        ok record { messages = ms; consumed = b.consumed })

module _ (encode_id : List Field → Result Bytes) where
  unfoldable pub marshal_send_message_response : ℕ → ℕ → Bytes → Result Bytes
  marshal_send_message_response accepted queued msg_id =
      check_msg_id msg_id >> encode_id ((1, accepted ∷ []) ∷ (2, put_u32 queued) ∷ (3, msg_id) ∷ [])

  unfoldable pub marshal_receive_messages_response : List ReceivedMessage → Bool → Result Bytes
  marshal_receive_messages_response msgs consumed =
      if ltb max_batch_messages (length msgs)
      then fail err_batch_too_large "batch too large"
      else (check_entries msgs
          >> encode_id (
              (1, put_u32 (length msgs))
              ∷ (2, entry_ids msgs)
              ∷ (3, entry_payloads msgs)
              ∷ (4, (if consumed then 1 else 0) ∷ [])
              ∷ []))

  unfoldable pub marshal_message_ack_response : ℕ → ℕ → Result Bytes
  marshal_message_ack_response acked remaining =
      encode_id ((1, put_u32 acked) ∷ (2, put_u32 remaining) ∷ [])

module _ (decode_id : Bytes → Result (List Field)) where
  unfoldable pub unmarshal_send_message_response : Bytes → Result SendMessageResponse
  unmarshal_send_message_response body =
      unmarshal decode_id 256 set_send_message_response
        record { accepted = 0; queued = 0; msg_id = [] } body
      >>= λ r. check_msg_id r.msg_id >> ok r

  unfoldable pub unmarshal_receive_messages_response : Bytes → Result ReceiveMessagesResponse
  unmarshal_receive_messages_response body =
      unmarshal decode_id (max_batch_messages * max_message_bytes + 4096) set_batch
        record { count = 0; ids = []; payloads = []; consumed = false } body
      >>= with_entries

  unfoldable pub unmarshal_message_ack_response : Bytes → Result MessageAckResponse
  unmarshal_message_ack_response body =
      unmarshal decode_id 64 set_message_ack_response record { acked = 0; remaining = 0 } body
