-- ===== src/Protocol/Responses/Batch.antt =====
-- A batch of messages between encoder and decoder (protocol/messages.go).
use nex_talk_file_relay.Base.{
  ◌+◌, ◌*◌, ◌<◌, ◌≤◌, ◌≡◌, refl, arith, Bool, true, false, List, [], ◌∷◌, ◌++◌, Bytes, ltb, length,
  length-append, subst, take-append_exact, drop-append_exact, take, drop, if◌then◌else◌, Bool-cases,
  inl, inr,
}
use nex_talk_file_relay.Protocol.Limits.{max_message_bytes, max_batch_messages}
use nex_talk_file_relay.Protocol.Errors.{Result, ok, ◌>>◌, >>=-eq-ok}
use nex_talk_file_relay.Protocol.Wire.{put_u32, be_u32-put_u32, get_u32-put_u32, get_u8}
use nex_talk_file_relay.Protocol.Codec.{Field, set_fields}
use nex_talk_file_relay.Protocol.Codec.Roundtrip.{unmarshal-encoded}
use nex_talk_file_relay.Protocol.Responses.Mail.{
  ReceivedMessage, check_entries, entry_ids, entry_payloads, set_batch, cut_entries, with_entries,
  marshal_receive_messages_response, unmarshal_receive_messages_response,
}

-- The first entry is within its bounds, and so are the others.
check_entries-first :
    (m : ReceivedMessage) (ms : List ReceivedMessage)
    → check_entries (m ∷ ms) ≡ ok tt
    → (length m.msg_id ≡ 16)
      × (0 < length m.envelope)
      × (length m.envelope ≤ max_message_bytes)
      × (check_entries ms ≡ ok tt)
unfolding check_entries
check_entries-first m ms h = ground arith

length-entry_ids :
    (ms : List ReceivedMessage) → check_entries ms ≡ ok tt → length (entry_ids ms) ≡ length ms * 16
unfolding entry_ids
length-entry_ids [] h = refl
length-entry_ids (m ∷ ms) h =
    let (wide, some_bytes, small, later) = check_entries-first m ms h in
    omega (arith, wide, length-append m.msg_id (entry_ids ms), length-entry_ids ms later)

cut_entries-entries :
    (ms : List ReceivedMessage)
    → check_entries ms ≡ ok tt
    → cut_entries (length ms) (entry_ids ms) (entry_payloads ms) ≡ ok ms
unfolding cut_entries entry_ids entry_payloads
cut_entries-entries [] h = refl
cut_entries-entries (m ∷ ms) h =
    let (wide, some_bytes, small, later) = check_entries-first m ms h in
    let rest = entry_payloads ms in
    let size = be_u32-put_u32 (length m.envelope) (omega (arith, small)) in
    let first : take 16 (m.msg_id ++ entry_ids ms) ≡ m.msg_id =
      subst (λ n. take n (m.msg_id ++ entry_ids ms) ≡ m.msg_id) wide
        (take-append_exact m.msg_id (entry_ids ms)) in
    let others : drop 16 (m.msg_id ++ entry_ids ms) ≡ entry_ids ms =
      subst (λ n. drop n (m.msg_id ++ entry_ids ms) ≡ entry_ids ms) wide
        (drop-append_exact m.msg_id (entry_ids ms)) in
    rw
      (
        size,
        first,
        others,
        take-append_exact m.envelope rest,
        drop-append_exact m.envelope rest,
        cut_entries-entries ms later,
      )
      (ground (arith, length-append m.envelope rest, some_bytes, small))

with_entries-entries :
    (ms : List ReceivedMessage) (consumed : Bool)
    → ltb max_batch_messages (length ms) ≡ false
    → check_entries ms ≡ ok tt
    → with_entries record {
      count = length ms;
      ids = entry_ids ms;
      payloads = entry_payloads ms;
      consumed = consumed;
    }
      ≡ ok record { messages = ms; consumed = consumed }
unfolding with_entries
with_entries-entries ms consumed few good =
    ground (arith, length-entry_ids ms good, cut_entries-entries ms good)

-- The fields of an encoded batch.
abbrev batch_fields : List ReceivedMessage → Bool → List Field
batch_fields ms consumed =
    (1, put_u32 (length ms))
    ∷ (2, entry_ids ms)
    ∷ (3, entry_payloads ms)
    ∷ (4, (if consumed then 1 else 0) ∷ [])
    ∷ []

read_batch :
    (ms : List ReceivedMessage) (consumed : Bool)
    → ltb max_batch_messages (length ms) ≡ false
    → set_fields set_batch
        (batch_fields ms consumed)
        record { count = 0; ids = []; payloads = []; consumed = false }
      ≡ ok record {
        count = length ms;
        ids = entry_ids ms;
        payloads = entry_payloads ms;
        consumed = consumed;
      }
unfolding set_fields set_batch get_u8
read_batch ms true few = rw (get_u32-put_u32 (length ms) (ground arith)) refl
read_batch ms false few = rw (get_u32-put_u32 (length ms) (ground arith)) refl

marshal_receive_messages_response-ok :
    (encode_id : List Field → Result Bytes) (ms : List ReceivedMessage) (consumed : Bool)
    (body : Bytes)
    → marshal_receive_messages_response encode_id ms consumed ≡ ok body
    → (ltb max_batch_messages (length ms) ≡ false)
      × (check_entries ms ≡ ok tt)
      × (encode_id (batch_fields ms consumed) ≡ ok body)
unfolding marshal_receive_messages_response
marshal_receive_messages_response-ok encode_id ms consumed body h =
    elim (Bool-cases (ltb max_batch_messages (length ms))) [
      | inl many ↦ absurd (ground arith)
      | inr few ↦
          let h' : (check_entries ms >> encode_id (batch_fields ms consumed)) ≡ ok body =
            ground arith in
          let (u, good, encoded) = >>=-eq-ok (check_entries ms) _ h' in (few, good, encoded)
    ]

-- nanopack decodes what it encodes.
module _ (encode_id : List Field → Result Bytes) (decode_id : Bytes → Result (List Field))
    (inverse : (fs : List Field) (body : Bytes)
      → encode_id fs ≡ ok body
      → decode_id body ≡ ok fs) where
  -- A batch that the shard has encoded within the limit on such a body is decoded to the same
  -- messages, in order, with the same flag.
  pub unmarshal_receive_messages_response-marshal :
      (ms : List ReceivedMessage) (consumed : Bool) (body : Bytes)
      → marshal_receive_messages_response encode_id ms consumed ≡ ok body
      → length body ≤ max_batch_messages * max_message_bytes + 4096
      → unmarshal_receive_messages_response decode_id body
        ≡ ok record { messages = ms; consumed = consumed }
  unfolding unmarshal_receive_messages_response
  unmarshal_receive_messages_response-marshal ms consumed body h fits =
      let (few, good, encoded) =
        marshal_receive_messages_response-ok encode_id ms consumed body h in
      rw
        (
          unmarshal-encoded encode_id decode_id inverse
              (max_batch_messages * max_message_bytes + 4096) set_batch _ _ body encoded fits,
          read_batch ms consumed few,
        )
        (with_entries-entries ms consumed few good)
