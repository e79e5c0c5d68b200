-- ===== src/Client/Adapter.antt =====
-- client/adapter.go and client/time.go. `sign` is Ed25519 under the sender's private key and
-- `pub_key` its public key; `random` is what `rand.Read` gives, none if it fails; the HTTP exchange
-- is a function from the body of the request to the status, none if there is no response.
use nex_talk_file_relay.Base.{
  ℕ, zero, suc, Bool, false, not, ◌||◌, List, [], ◌∷◌, ◌++◌, Option, none, some, Bytes, ltb, ◌==◌,
  length, take, drop, if◌then◌else◌,
}
use nex_talk_file_relay.Protocol.Limits.{
  max_message_bytes, max_chunk_bytes, max_file_bytes, msg_ttl_seconds,
}
use nex_talk_file_relay.Protocol.Errors.{
  ProtocolError, Result, ok, err, fail, protocol_error, err_message_too_large, err_chunk_invalid,
  err_payload_too_large,
}
use nex_talk_file_relay.Protocol.Messages.{SendMessage}
use nex_talk_file_relay.Protocol.Codec.{Field, marshal_send_message}
use nex_talk_file_relay.Protocol.Auth.{canonical_msg_send}
use nex_talk_file_relay.Store.Types.{to_array}

-- `nowMillis`: the variable that it calls returns `testNow`, and nothing assigns it.
abbrev pub now_millis : ℕ
now_millis = 1750000000000

-- The rounds of strings.TrimRight(base, "/"); `left` is the base reversed.
unfoldable pub drop_slashes : Bytes → Bytes
drop_slashes [] = []
drop_slashes (c ∷ left) = if c == 47 then drop_slashes left else c ∷ left

unfoldable pub reversed : Bytes → Bytes → Bytes
reversed [] acc = acc
reversed (c ∷ cs) acc = reversed cs (c ∷ acc)

unfoldable pub has_slash : Bytes → Bool
has_slash [] = false
has_slash (c ∷ cs) = c == 47

unfoldable pub join_url : Bytes → Bytes → Bytes
join_url base route =
    reversed (drop_slashes (reversed base [])) [] ++ (if has_slash route then route else 47 ∷ route)

-- The loop of `SplitOpaque` over the bytes that are left; there are no more chunks than bytes.
unfoldable pub split_loop : ℕ → ℕ → Bytes → List Bytes
split_loop chunk_size fuel [] = []
split_loop chunk_size zero content = []
split_loop chunk_size (suc fuel) (b ∷ rest) =
    take chunk_size (b ∷ rest) ∷ split_loop chunk_size fuel (drop chunk_size (b ∷ rest))

unfoldable pub split_opaque : Bytes → ℕ → Result (List Bytes)
split_opaque content chunk_size =
    if chunk_size == 0 || ltb max_chunk_bytes chunk_size
    then fail err_chunk_invalid ""
    else if ltb max_file_bytes (length content)
    then fail err_payload_too_large ""
    else ok (split_loop chunk_size (length content) content)

-- What the adapter's `SendMessage` fails with.
pub data SendError : Type 0 where
  relay : ProtocolError → SendError
  no_random : SendError
  no_response : SendError
  bad_status : ℕ → SendError

pub data Sent : Type 0 where
  failed : SendError → Sent
  sent : Bytes → Sent

module _ (sha256 : Bytes → Bytes) (sign : Bytes → Bytes) where
  -- The signed message.
  unfoldable pub signed_message : Bytes → Bytes → Bytes → Bytes → SendMessage
  signed_message pub_key mailbox_id nonce payload = record {
    mailbox_id = mailbox_id;
    envelope = payload;
    sender_pub = pub_key;
    timestamp = now_millis;
    nonce = nonce;
    signature =
        sign (canonical_msg_send sha256 (to_array 32 pub_key) mailbox_id now_millis nonce payload);
    ttl_hint_sec = msg_ttl_seconds;
    burn = 1;
  }

  -- The end of `SendMessage`: the ID that it returns is drawn at random, not read from the response.
  unfoldable pub finish_send : Option Bytes → Option ℕ → Sent
  finish_send random none = failed no_response
  finish_send random (some status) =
      if not (status == 200)
      then failed (bad_status status)
      else elim random [ none ↦ failed no_random | some id ↦ sent id ]

  unfoldable pub adapter_send :
      (List Field → Result Bytes)
      → (Bytes → Option ℕ)
      → Option Bytes
      → Option Bytes
      → Bytes
      → Bytes
      → Bytes
      → Sent
  adapter_send encode_id exchange random_nonce random_id pub_key mailbox_id payload =
      if length payload == 0 || ltb max_message_bytes (length payload)
      then failed (relay (protocol_error err_message_too_large ""))
      else elim random_nonce [
        | none ↦ failed no_random
        | some nonce ↦
            elim (marshal_send_message encode_id
              (signed_message pub_key mailbox_id nonce payload)) [
                | err e ↦ failed (relay e)
                | ok body ↦ finish_send random_id (exchange body)
              ]
      ]
