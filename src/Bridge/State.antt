-- ===== src/Bridge/State.antt =====
-- The state of the bridge (transports/filerelay/bridge/main.go and xfer.go), its answers, and the
-- operations about mailboxes and messages. `exchange` is the HTTP exchange: from URL and body to
-- status and answer, none if there is none. A map is walked in the order of insertion, where Go has
-- any order. Of an error text made of parts only the first part is kept.
use nex_talk_file_relay.Base.{
  ℕ, ◌-◌, Bool, not, ◌||◌, ◌&&◌, List, [], ◌∷◌, ◌++◌, map, Option, none, some, Bytes, String,
  bytes_key, ltb, leb, ◌==◌, length, if◌then◌else◌,
}
use nex_talk_file_relay.Base.Map.{Map, lookup, insert, delete}
use nex_talk_file_relay.Protocol.Limits.{msg_ttl_seconds}
use nex_talk_file_relay.Protocol.Errors.{
  ProtocolError, Result, ok, err, fail, protocol_error, ◌>>=◌,
}
use nex_talk_file_relay.Protocol.Messages.{SendMessage}
use nex_talk_file_relay.Protocol.Codec.{Field, marshal_send_message}
use nex_talk_file_relay.Protocol.Control.{marshal_resolve, unmarshal_resolve_response}
use nex_talk_file_relay.Protocol.Responses.Mail.{unmarshal_receive_messages_response}
use nex_talk_file_relay.Protocol.Responses.Requests.{marshal_receive_messages}
use nex_talk_file_relay.Protocol.Auth.{canonical_msg_send}
use nex_talk_file_relay.Store.Types.{to_array}
use nex_talk_file_relay.Bridge.Url.{join_url}
use nex_talk_file_relay.Bridge.Rpc.{
  SendReq, AttachReq, PollReq, action_start, unmarshal_send, unmarshal_attach, unmarshal_detach,
  unmarshal_poll, unmarshal_start_stop,
}

pub record Mailbox : Type 0 where
  pub read_secret : Bytes
  pub shard_url : Bytes
  pub router_url : Bytes

pub record TransferBind : Type 0 where
  pub mailbox_id : Bytes
  pub shard_url : Bytes
  pub chunk_count : ℕ

-- `saved` is what transfers.json holds, none if the file cannot be read.
pub record Bridge : Type 0 where
  pub running : Bool
  pub mailboxes : Map Bytes Mailbox
  pub router_url : Bytes
  pub transfers : Map Bytes TransferBind
  pub saved : Option Bytes

abbrev pub err_not_ready : ℕ
err_not_ready = 3

abbrev pub err_transport : ℕ
err_transport = 4

-- The op with its payload before it is encoded.
pub data Reply : Type 0 where
  failure : ℕ → ProtocolError → Reply
  ack : Reply
  polled : List Bytes → Reply
  created : Bytes → Bytes → Bytes → ℕ → Reply
  progress : ℕ → ℕ → Bytes → Bytes → ℕ → Reply
  chunk : Bytes → Bytes → Reply

-- `opError, marshalError(errTransport, err.Error())`
unfoldable pub or_transport : Result Reply → Reply
or_transport (err e) = failure err_transport e
or_transport (ok r) = r

-- The test of the status, and of the error of the exchange.
unfoldable pub posted : String → Option (ℕ × Bytes) → Result Bytes
posted what none = fail 0 what
posted what (some (status, raw)) = if not (status == 200) then fail 0 what else ok raw

unfoldable pub started : Bridge → Reply → Reply
started b r = if not b.running then failure err_not_ready (protocol_error 0 "not started") else r

unfoldable pub learned_router : Map Bytes Mailbox → Bytes
learned_router [] = []
learned_router ((id, mb) ∷ rest) =
    if not (length mb.router_url == 0) then mb.router_url else learned_router rest

unfoldable pub effective_router : Bridge → Bytes
effective_router b =
    if not (length b.router_url == 0) then b.router_url else learned_router b.mailboxes

-- The change of `onAttach` to the state.
unfoldable pub attach : AttachReq → Bridge → Bridge
attach req b = record b {
  mailboxes =
      insert req.mailbox_id
        record {
          read_secret = req.read_secret;
          shard_url = req.shard_url;
          router_url = req.router_url;
        }
        b.mailboxes;
  router_url =
      if length b.router_url == 0 && not (length req.router_url == 0)
      then req.router_url
      else b.router_url;
}

-- "/fr/v1/resolve", "/fr/v1/send" and "/fr/v1/receive"
abbrev pub route_resolve : Bytes
route_resolve = 47 ∷ 102 ∷ 114 ∷ 47 ∷ 118 ∷ 49 ∷ 47 ∷ 114 ∷ 101 ∷ 115 ∷ 111 ∷ 108 ∷ 118 ∷ 101 ∷ []

abbrev pub route_send : Bytes
route_send = 47 ∷ 102 ∷ 114 ∷ 47 ∷ 118 ∷ 49 ∷ 47 ∷ 115 ∷ 101 ∷ 110 ∷ 100 ∷ []

abbrev pub route_receive : Bytes
route_receive = 47 ∷ 102 ∷ 114 ∷ 47 ∷ 118 ∷ 49 ∷ 47 ∷ 114 ∷ 101 ∷ 99 ∷ 101 ∷ 105 ∷ 118 ∷ 101 ∷ []

module _ (decode_id : Bytes → Result (List Field)) where
  unfoldable pub on_start_stop : Bytes → Bridge → Reply × Bridge
  on_start_stop payload b = elim (unmarshal_start_stop decode_id payload) [
    | err e ↦ (failure err_transport e, b)
    | ok action ↦ (ack, record b { running = action == action_start })
  ]

  unfoldable pub on_attach : Bytes → Bridge → Reply × Bridge
  on_attach payload b =
      if not b.running
      then (failure err_not_ready (protocol_error 0 "not started"), b)
      else elim (unmarshal_attach decode_id payload) [
        | err e ↦ (failure err_transport e, b)
        | ok req ↦ (ack, attach req b)
      ]

  unfoldable pub on_detach : Bytes → Bridge → Reply × Bridge
  on_detach payload b = elim (unmarshal_detach decode_id payload) [
    | err e ↦ (failure err_transport e, b)
    | ok id ↦ (ack, record b { mailboxes = delete id b.mailboxes })
  ]

module _ (encode_id : List Field → Result Bytes) (decode_id : Bytes → Result (List Field))
    (exchange : Bytes → Bytes → Option (ℕ × Bytes)) where
  -- The mailbox and the shard of a public key.
  unfoldable pub resolve : Bytes → Bytes → Result (Bytes × Bytes)
  resolve recipient_pub router_url =
      marshal_resolve encode_id record { client_pub = recipient_pub } >>= λ body.
      posted "resolve http" (exchange (join_url router_url route_resolve) body) >>= λ raw.
      unmarshal_resolve_response decode_id raw >>= λ res.
      ok (to_array 16 res.mailbox_id, res.shard_url)

  unfoldable pub fetch_batch : Mailbox → Bytes → ℕ → Result (List Bytes)
  fetch_batch mb mailbox_id limit =
      let limit' = if limit == 0 || ltb 32 limit then 32 else limit in
      marshal_receive_messages encode_id
        record { mailbox_id = mailbox_id; read_secret = mb.read_secret; limit = limit'; peek = 0 }
      >>= λ body. posted "receive" (exchange (join_url mb.shard_url route_receive) body) >>= λ raw.
          unmarshal_receive_messages_response decode_id raw >>= λ res.
          ok (map (λ m. m.envelope) res.messages)

  -- The loop of `onPoll`; `frames` is what it has.
  unfoldable pub poll_loop : ℕ → List Bytes → Map Bytes Mailbox → Result (List Bytes)
  poll_loop limit frames [] = ok frames
  poll_loop limit frames ((id, mb) ∷ rest) =
      if leb limit (length frames)
      then ok frames
      else (fetch_batch mb id (limit - length frames) >>= λ got.
          poll_loop limit (frames ++ got) rest)

  unfoldable pub poll_targets : PollReq → Bridge → Map Bytes Mailbox
  poll_targets req b =
      if length req.mailbox_id == 16
      then elim (lookup req.mailbox_id b.mailboxes) [
        | none ↦ []
        | some mb ↦ (req.mailbox_id, mb) ∷ []
      ]
      else b.mailboxes

  unfoldable pub on_poll : Bytes → Bridge → Reply
  on_poll payload b = started b (
      or_transport (
        unmarshal_poll decode_id payload >>= λ req.
        poll_loop req.limit [] (poll_targets req b) >>= λ frames. ok (polled frames)))

  module _ (sha256 : Bytes → Bytes) (sign : Bytes → Bytes) (courier_pub : Bytes) where
    -- The message that `postMessage` encodes.
    unfoldable pub courier_message : Bytes → Bytes → ℕ → Bytes → SendMessage
    courier_message mailbox_id frame ts nonce = record {
      mailbox_id = mailbox_id;
      envelope = frame;
      sender_pub = courier_pub;
      timestamp = ts;
      nonce = nonce;
      signature =
          sign (canonical_msg_send sha256 (to_array 32 courier_pub) mailbox_id ts nonce frame);
      ttl_hint_sec = msg_ttl_seconds;
      burn = 1;
    }

    unfoldable pub post_message : Option Bytes → ℕ → Bytes → Bytes → Bytes → Result Bytes
    post_message none ts shard_url mailbox_id frame = fail 0 "rand"
    post_message (some nonce) ts shard_url mailbox_id frame =
        marshal_send_message encode_id (courier_message mailbox_id frame ts nonce) >>= λ body.
        posted "send" (exchange (join_url shard_url route_send) body)

    -- Mailbox and shard that a frame goes to.
    unfoldable pub recipient : SendReq → Bridge → Result (Bytes × Bytes)
    recipient req b =
        if length req.mailbox_id == 16 && not (length req.shard_url == 0)
        then ok (to_array 16 req.mailbox_id, req.shard_url)
        else if not (length req.recipient_pub == 32)
        then fail 0 "recipient_pub must be 32 bytes"
        else if length (effective_router b) == 0
        then fail 0 "no router_url: pass via initialize config or attach first"
        else resolve req.recipient_pub (effective_router b)

    unfoldable pub on_send : Option Bytes → ℕ → Bytes → Bridge → Reply
    on_send drawn ts payload b = started b (
        or_transport (
          unmarshal_send decode_id payload >>= λ req. recipient req b >>= λ (mailbox_id, shard_url).
          post_message drawn ts shard_url mailbox_id req.frame >>= λ raw. ok ack))
