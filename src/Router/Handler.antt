-- ===== src/Router/Handler.antt =====
-- The route handlers of server/router/handler.go. `now` is the router's clock and `store_now` that of
-- the stores; `random` is what `rand.Read` gives for a read secret, none if it fails. SHA-256, HMAC,
-- Ed25519 and nanopack are parameters.
use nex_talk_file_relay.Base.{
  ℕ, ◌+◌, Bool, not, List, [], ◌∷◌, Option, none, some, Bytes, bytes_eq, keep, ◌==◌, length,
  if◌then◌else◌,
}
use nex_talk_file_relay.Protocol.Limits.{capability_ttl_seconds, routing_table_ttl_seconds}
use nex_talk_file_relay.Protocol.Errors.{
  ProtocolError, Result, ok, err, ◌>>=◌, ◌>>◌, protocol_error, err_invalid_request,
  err_replay_detected, err_server_unavailable, err_storage_unavailable,
}
use nex_talk_file_relay.Protocol.Codec.{Field, unmarshal_hello}
use nex_talk_file_relay.Protocol.Control.{
  Register, Resolve, routing_algo_sha256_mod_n, unmarshal_register, unmarshal_resolve,
  marshal_hello, marshal_register_response, marshal_resolve_response, marshal_routing_table,
}
use nex_talk_file_relay.Protocol.Auth.{verify_register}
use nex_talk_file_relay.Protocol.Auth.Derived.{mailbox_id_from_pub, canonical_routing_table}
use nex_talk_file_relay.Store.Types.{millis, to_array}
use nex_talk_file_relay.Store.Mailboxes.{create_mailbox, mailbox_exists}
use nex_talk_file_relay.Shard.Http.{HttpRequest, get, post, other, read_body}
use nex_talk_file_relay.Shard.Handler.{rate_limited}
use nex_talk_file_relay.Router.State.{
  ShardRef, Router, RouterResponse, owner, shard_urls, find_shard, put_shard, allow_rl, reg_ip_key,
  res_ip_key, check_replay, write_error, write_result, or_empty, written,
}

abbrev method_not_allowed : ProtocolError
method_not_allowed = protocol_error err_invalid_request "method not allowed"

abbrev not_configured : ProtocolError
not_configured = protocol_error err_server_unavailable "router not configured"

-- The era walk: the first of the URLs whose shard has the mailbox.
unfoldable pub first_with : ℕ → Bytes → List Bytes → List ShardRef → Option Bytes
first_with store_now id [] shards = none
first_with store_now id (u ∷ us) shards =
    let rest = first_with store_now id us shards in
    elim (find_shard u shards) [
      | none ↦ rest
      | some ref ↦ if mailbox_exists store_now id ref.store then some u else rest
    ]

-- The primary shard, then the others in their order.
unfoldable pub walk_order : Bytes → List Bytes → List Bytes
walk_order primary urls = primary ∷ keep (λ u. not (bytes_eq u primary)) urls

-- The URL that is answered: where the mailbox was found, or the guess.
unfoldable pub or_primary : Bytes → Option Bytes → Bytes
or_primary primary none = primary
or_primary primary (some u) = u

module _ (decode_id : Bytes → Result (List Field)) (verify : Bytes → Bytes → Bytes → Bool) where
  -- Body, shape, signature and clock of a registration.
  unfoldable pub checked_register : ℕ → HttpRequest → Result Register
  checked_register now r = read_body r 256 >>= λ raw. unmarshal_register decode_id raw >>= λ req.
      verify_register verify req.client_pub req.timestamp (to_array 16 req.nonce) req.signature now
      >> ok req

module _ (sha256 : Bytes → Bytes) (hmac : Bytes → Bytes → Bytes)
    (encode_id : List Field → Result Bytes) where
  -- The part of `handleRegister` behind the replay cache.
  unfoldable pub register_mailbox :
      ℕ → ℕ → Option Bytes → Register → Router → RouterResponse × Router
  register_mailbox now store_now random req h =
      if length h.secret == 0
      then (write_error not_configured, h)
      else (let mailbox_id = mailbox_id_from_pub hmac h.secret req.client_pub in
          let urls = shard_urls h.shards in
          if length urls == 0
          then (write_error (protocol_error err_server_unavailable "no shards"), h)
          else (let primary = owner sha256 mailbox_id urls in
              elim (find_shard primary h.shards) [
                | none ↦ (write_error (protocol_error err_server_unavailable "shard not found"), h)
                | some ref ↦ elim random [
                  | none ↦ (write_error (protocol_error err_storage_unavailable "rand failed"), h)
                  | some secret ↦
                      let (is_new, s) =
                        create_mailbox store_now mailbox_id (sha256 secret) ref.store in
                      (
                        write_result 53 (
                            marshal_register_response encode_id record {
                              mailbox_id = mailbox_id;
                              read_secret = secret;
                              shard_url = primary;
                              table_version = h.version;
                              expires_at = now + millis capability_ttl_seconds;
                            }),
                        record h { shards = put_shard primary s h.shards },
                      )
                ]
              ]))

  -- The part of `handleResolve` behind the decoder. The stores are asked at one time.
  unfoldable pub resolve_mailbox : ℕ → Resolve → Router → RouterResponse
  resolve_mailbox store_now req h =
      if length h.secret == 0
      then write_error not_configured
      else if length h.shards == 0
      then write_error not_configured
      else (let mailbox_id = mailbox_id_from_pub hmac h.secret req.client_pub in
          let urls = shard_urls h.shards in
          let primary = owner sha256 mailbox_id urls in
          let found = first_with store_now mailbox_id (walk_order primary urls) h.shards in
          write_result 55 (
            marshal_resolve_response encode_id record {
              mailbox_id = mailbox_id;
              shard_url = or_primary primary found;
              era = 0;
              table_version = h.version;
            }))

module _ (sha256 : Bytes → Bytes) (hmac : Bytes → Bytes → Bytes)
    (encode_id : List Field → Result Bytes) (decode_id : Bytes → Result (List Field)) where
  module _ (verify : Bytes → Bytes → Bytes → Bool) where
    unfoldable pub handle_register :
        ℕ → ℕ → Option Bytes → HttpRequest → Router → RouterResponse × Router
    handle_register now store_now random r h = elim r.method [
      | post ↦
          let (allowed, table) = allow_rl (reg_ip_key r.client_ip) now h.max_reg h.reg_rl in
          let h1 = record h { reg_rl = table } in
          if not allowed
          then (write_error rate_limited, h1)
          else elim (checked_register decode_id verify now r) [
            | err e ↦ (write_error e, h1)
            | ok req ↦
                let (seen, cache) = check_replay sha256 req.client_pub req.nonce now h1.replay in
                let h2 = record h1 { replay = cache } in
                if seen
                then (write_error (protocol_error err_replay_detected "replay detected"), h2)
                else register_mailbox sha256 hmac encode_id now store_now random req h2
          ]
      | _ ↦ (write_error method_not_allowed, h)
    ]

  unfoldable pub handle_resolve : ℕ → ℕ → HttpRequest → Router → RouterResponse × Router
  handle_resolve now store_now r h = elim r.method [
    | post ↦
        let (allowed, table) = allow_rl (res_ip_key r.client_ip) now h.max_res h.res_rl in
        let h1 = record h { res_rl = table } in
        if not allowed
        then (write_error rate_limited, h1)
        else elim (read_body r 128 >>= unmarshal_resolve decode_id) [
          | err e ↦ (write_error e, h1)
          | ok req ↦ (resolve_mailbox sha256 hmac encode_id store_now req h1, h1)
        ]
    | _ ↦ (write_error method_not_allowed, h)
  ]

module _ (sha256 : Bytes → Bytes) (encode_id : List Field → Result Bytes) where
  -- `sign` is Ed25519 under the router's private key.
  unfoldable pub handle_table : (Bytes → Bytes) → ℕ → HttpRequest → Router → RouterResponse
  handle_table sign now r h = elim r.method [
    | other ↦ write_error method_not_allowed
    | _ ↦
        let urls = shard_urls h.shards in
        if length urls == 0
        then write_error (protocol_error err_server_unavailable "no shards")
        else (let expires = now + millis routing_table_ttl_seconds in
            write_result 56 (
              marshal_routing_table encode_id record {
                version = h.version;
                generated_at = now;
                expires_at = expires;
                algorithm = routing_algo_sha256_mod_n;
                shards = urls;
                replication_factor = 1;
                router_pub = h.router_pub;
                signature = sign (
                    canonical_routing_table sha256 h.version now expires routing_algo_sha256_mod_n
                      urls h.router_pub);
              }))
  ]

module _ (encode_id : List Field → Result Bytes) (decode_id : Bytes → Result (List Field)) where
  unfoldable pub handle_hello : ℕ → HttpRequest → RouterResponse
  handle_hello now r =
      let greeting =
        written 50
          (or_empty (marshal_hello encode_id record { major = 1; minor = 1; now_ms = now })) in
      elim r.method [
        | other ↦ write_error method_not_allowed
        | get ↦ greeting
        | post ↦ elim (read_body r 64 >>= unmarshal_hello decode_id) [
          | err e ↦ write_error e
          | ok _ ↦ greeting
        ]
      ]
