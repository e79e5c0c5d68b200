-- ===== src/Tests/Bridge.antt =====
-- The bridge: the URL of a router, and a transfer across a restart.
use nex_talk_file_relay.Base.{
  ℕ, ◌≡◌, ◌∙◌, refl, arith, ap, true, [], ◌∷◌, ◌++◌, List, Option, none, some, Bytes, replicate,
  get_or,
}
use nex_talk_file_relay.Base.Map.{Map}
use nex_talk_file_relay.Protocol.Errors.{ok, err}
use nex_talk_file_relay.Protocol.Codec.{Field}
use nex_talk_file_relay.Protocol.Wire.{put_u32, put_u64}
use nex_talk_file_relay.Bridge.Url.{
  join_url, api_prefix, has_prefix, has_suffix, IsHost, join_url-rooted,
}
use nex_talk_file_relay.Client.Adapter.{drop_slashes, reversed}
use nex_talk_file_relay.Bridge.State.{Bridge, TransferBind, created}
use nex_talk_file_relay.Bridge.Transfers.{bind_for, restarted}
use nex_talk_file_relay.Bridge.RpcFile.{unmarshal_xfer_create, set_xfer_create}
use nex_talk_file_relay.Bridge.State.{posted}
use nex_talk_file_relay.Protocol.Codec.{set_fields, unmarshal, check_body_len}
use nex_talk_file_relay.Protocol.Validate.{validate_transfer_create_msg, validate_transfer_create}
use nex_talk_file_relay.Protocol.Responses.Requests.{marshal_transfer_create}
use nex_talk_file_relay.Protocol.Responses.Files.{
  unmarshal_transfer_create_response, set_transfer_create_response,
}
use nex_talk_file_relay.Protocol.Wire.{get_u64, get_u32, be_u32}
use nex_talk_file_relay.Tests.Nanopack.{decode_within}
use nex_talk_file_relay.Bridge.Creation.{
  on_xfer_create, destination, create_at, finish_create, courier_create,
}
use nex_talk_file_relay.Bridge.Bindings.{KeepsText, on_xfer_create-bind_for, on_xfer_create-forgets}
use nex_talk_file_relay.Tests.Nanopack.{encode_id, decode_id, inverse, flatten}
use nex_talk_file_relay.Tests.Data.{cut, key, mailbox_id, nonce, signature, transfer_id}

-- "http://a", and "x"
abbrev host : Bytes
host = 104 ∷ 116 ∷ 116 ∷ 112 ∷ 58 ∷ 47 ∷ 47 ∷ 97 ∷ []

host-IsHost : IsHost host
unfolding IsHost has_prefix has_suffix drop_slashes reversed
host-IsHost = (refl, refl)

join_url-rooted_example :
    (join_url host (api_prefix ++ 47 ∷ 120 ∷ []) ≡ host ++ (api_prefix ++ 47 ∷ 120 ∷ []))
    × (join_url (host ++ api_prefix) (api_prefix ++ 47 ∷ 120 ∷ [])
        ≡ join_url host (api_prefix ++ 47 ∷ 120 ∷ []))
    × (join_url (host ++ 47 ∷ []) (api_prefix ++ 47 ∷ 120 ∷ [])
        ≡ join_url host (api_prefix ++ 47 ∷ 120 ∷ []))
join_url-rooted_example = join_url-rooted host (120 ∷ []) host-IsHost

abbrev sign : Bytes → Bytes
sign m = signature

-- Every shard answers with the same transfer.
abbrev exchange : Bytes → Bytes → Option (ℕ × Bytes)
exchange url body =
    some (200, flatten ((1, transfer_id) ∷ (2, put_u64 9) ∷ (3, put_u32 2) ∷ (4, key) ∷ []))

-- A request for a file of five bytes in chunks of two.
abbrev payload : Bytes
payload =
    flatten ((1, put_u64 5) ∷ (2, put_u32 2) ∷ (3, put_u32 3) ∷ (5, mailbox_id) ∷ (7, host) ∷ [])

-- A concrete encoding of bindings that stands for JSON's: three fields for each.
unfoldable fields : Map Bytes TransferBind → List Field
fields [] = []
fields ((id, bind) ∷ m) =
    (bind.chunk_count, id) ∷ (0, bind.mailbox_id) ∷ (0, bind.shard_url) ∷ fields m

unfoldable bindings : List Field → Option (Map Bytes TransferBind)
bindings [] = some []
bindings ((n, id) ∷ (_, mailbox_id) ∷ (_, shard_url) ∷ fs) = elim (bindings fs) [
  | none ↦ none
  | some m ↦
      some ((id, record { mailbox_id = mailbox_id; shard_url = shard_url; chunk_count = n }) ∷ m)
]
bindings _ = none

abbrev to_json : Map Bytes TransferBind → Option Bytes
to_json m = some (flatten (fields m))

abbrev of_json : Bytes → Option (Map Bytes TransferBind)
of_json raw = elim (decode_id raw) [ err e ↦ none | ok fs ↦ bindings fs ]

abbrev write_file : Option Bytes → Bytes → Option Bytes
write_file held raw = some raw

-- Every URL is a text.
abbrev IsText : Bytes → Type 0
IsText url = Unit

bindings-fields : (m : Map Bytes TransferBind) → bindings (fields m) ≡ some m
unfolding bindings fields
bindings-fields [] = refl
bindings-fields ((id, bind) ∷ m) = rw (bindings-fields m) refl

of_json-fields : (raw : Bytes) (fs : List Field) → decode_id raw ≡ ok fs → of_json raw ≡ bindings fs
of_json-fields raw fs h =
    ap
      (λ r. elim r as (λ x. Option (Map Bytes TransferBind)) [ err e ↦ none | ok gs ↦ bindings gs ])
      h

keeps : KeepsText to_json of_json IsText
keeps m texts =
    let decoded = inverse (fields m) (flatten (fields m)) refl in
    (flatten (fields m), m, refl, of_json-fields _ _ decoded ∙ bindings-fields m, λ id. refl)

-- A bridge whose file names one transfer.
abbrev other : Bytes
other = replicate 16 7

abbrev fresh : Bridge
fresh = record {
  running = true;
  mailboxes = [];
  router_url = [];
  transfers = [];
  saved =
      to_json ((other, record { mailbox_id = mailbox_id; shard_url = host; chunk_count = 3 }) ∷ []);
}

answered :
    (on_xfer_create encode_id decode_id exchange cut sign key to_json write_file
      (some nonce)
      1
      payload
      fresh).0
    ≡ created transfer_id key host 9
unfolding on_xfer_create unmarshal_xfer_create set_fields set_xfer_create decode_within flatten
    destination create_at finish_create courier_create marshal_transfer_create
    validate_transfer_create_msg validate_transfer_create posted unmarshal_transfer_create_response
    unmarshal set_transfer_create_response check_body_len get_u64 get_u32 put_u64 put_u32 be_u32
answered = refl

on_xfer_create-bind_for_example :
    let after =
      (on_xfer_create encode_id decode_id exchange cut sign key to_json write_file
        (some nonce)
        1
        payload
        fresh).1 in
    (bind : TransferBind) × (bind.shard_url ≡ host)
    × ((bind_for of_json transfer_id (restarted after)).0 ≡ some bind)
on_xfer_create-bind_for_example =
    on_xfer_create-bind_for encode_id decode_id exchange cut sign key to_json write_file of_json
      IsText keeps (some nonce) 1 payload fresh transfer_id key host 9 (λ raw. refl) tt tt answered

on_xfer_create-forgets_example :
    let after =
      (on_xfer_create encode_id decode_id exchange cut sign key to_json write_file
        (some nonce)
        1
        payload
        fresh).1 in
    (bind_for of_json other (restarted after)).0 ≡ none
on_xfer_create-forgets_example =
    on_xfer_create-forgets encode_id decode_id exchange cut sign key to_json write_file of_json
      IsText keeps (some nonce) 1 payload fresh transfer_id key host 9 other (λ raw. refl) tt refl
      answered λ e. (let differ : 3 ≡ 7 = ap (λ b. get_or b 0 0) e in omega arith)
