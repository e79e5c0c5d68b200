-- ===== src/Router/Registration.antt =====
-- A registration (server/router/handler.go) together with the store of the shard that it writes to.
use nex_talk_file_relay.Base.{
  ℕ, ◌+◌, ◌<◌, ◌≡◌, refl, inl, inr, arith, Bool, true, false, not, keep, List, [], ◌∷◌, Option,
  some, Bytes, bytes_eq, bytes_key, length, Option-cases, Bool-cases,
}
use nex_talk_file_relay.Protocol.Limits.{mailbox_ttl_seconds, capability_ttl_seconds}
use nex_talk_file_relay.Protocol.Errors.{Result, ok}
use nex_talk_file_relay.Protocol.Codec.{Field}
use nex_talk_file_relay.Protocol.Control.{
  Register, Resolve, marshal_register_response, marshal_resolve_response,
}
use nex_talk_file_relay.Protocol.Auth.Derived.{mailbox_id_from_pub}
use nex_talk_file_relay.Store.Types.{MailboxData, MemStore, millis}
use nex_talk_file_relay.Store.Mailboxes.{create_mailbox, mailbox_exists}
use nex_talk_file_relay.Store.Messages.Batch.{Owns}
use nex_talk_file_relay.Store.Messages.Opening.{
  registered, mailbox_exists-found, Owns-create_mailbox,
}
use nex_talk_file_relay.Shard.Http.{HttpRequest, post}
use nex_talk_file_relay.Router.State.{
  ShardRef, Router, write_result, owner, shard_urls, find_shard, put_shard, allow_rl, check_replay,
  reg_ip_key,
}
use nex_talk_file_relay.Router.Handler.{
  walk_order, or_primary, checked_register, register_mailbox, resolve_mailbox, handle_register,
}
use nex_talk_file_relay.Router.Owner.{
  is_shard, is_shard-owner, length-shard_urls, has_mailbox, first_with-step,
}

find_shard-put_shard :
    (u : Bytes) (store : MemStore) (ss : List ShardRef) (ref : ShardRef)
    → find_shard u ss ≡ some ref
    → find_shard u (put_shard u store ss) ≡ some (record ref { store = store })
unfolding find_shard put_shard
find_shard-put_shard u store [] ref h = cc
find_shard-put_shard u store (s ∷ ss) ref h = elim (Bool-cases (bytes_eq s.url u)) [
  | inl same ↦ ground arith
  | inr other ↦ ground (arith, find_shard-put_shard u store ss ref)
]

shard_urls-put_shard :
    (u : Bytes) (store : MemStore) (ss : List ShardRef)
    → shard_urls (put_shard u store ss) ≡ shard_urls ss
unfolding shard_urls put_shard
shard_urls-put_shard u store [] = refl
shard_urls-put_shard u store (s ∷ ss) = ground (arith, shard_urls-put_shard u store ss)

find_shard-known :
    (shards : List ShardRef) (u : Bytes)
    → is_shard shards u ≡ true
    → (ref : ShardRef) × (find_shard u shards ≡ some ref)
unfolding is_shard
find_shard-known shards u h = elim (Option-cases (find_shard u shards)) [
  | inl e ↦ absurd (ground arith)
  | inr found ↦ found
]

module _ (sha256 : Bytes → Bytes) (hmac : Bytes → Bytes → Bytes)
    (encode_id : List Field → Result Bytes) where
  -- Behind the guards a registration answers with the owner, whose store gets the mailbox.
  register_mailbox_lem :
      (now store_now : ℕ) (secret : Bytes) (req : Register) (h : Router)
      → 0 < length h.secret
      → 0 < length h.shards
      → let id = mailbox_id_from_pub hmac h.secret req.client_pub in
        let primary = owner sha256 id (shard_urls h.shards) in
        (ref : ShardRef) × (find_shard primary h.shards ≡ some ref)
        × (register_mailbox sha256 hmac encode_id now store_now (some secret) req h ≡ (
          write_result 53 (
              marshal_register_response encode_id record {
                mailbox_id = id;
                read_secret = secret;
                shard_url = primary;
                table_version = h.version;
                expires_at = now + millis capability_ttl_seconds;
              }),
          record h {
            shards =
                put_shard primary
                  (create_mailbox store_now id (sha256 secret) ref.store).1
                  h.shards;
          },
        ))
  unfolding register_mailbox
  register_mailbox_lem now store_now secret req h keyed some_shard =
      let id = mailbox_id_from_pub hmac h.secret req.client_pub in
      let primary = owner sha256 id (shard_urls h.shards) in
      let (ref, found) =
        find_shard-known h.shards primary (is_shard-owner sha256 id h.shards some_shard) in
      (ref, found, ground (arith, length-shard_urls h.shards))

  -- With the mailbox at its owner a resolution answers the owner.
  resolve_mailbox-owner :
      (store_now : ℕ) (req : Resolve) (h : Router) (primary : Bytes)
      → let id = mailbox_id_from_pub hmac h.secret req.client_pub in
        0 < length h.secret
        → 0 < length (shard_urls h.shards)
        → owner sha256 id (shard_urls h.shards) ≡ primary
        → has_mailbox store_now id h.shards primary ≡ true
        → resolve_mailbox sha256 hmac encode_id store_now req h
          ≡ write_result 55 (
              marshal_resolve_response encode_id
                record { mailbox_id = id; shard_url = primary; era = 0; table_version = h.version })
  unfolding resolve_mailbox walk_order or_primary
  resolve_mailbox-owner store_now req h primary keyed some_shard same found =
      let id = mailbox_id_from_pub hmac h.secret req.client_pub in
      let others = keep (λ u. not (bytes_eq u primary)) (shard_urls h.shards) in
      ground
        (arith, first_with-step store_now id primary others h.shards, length-shard_urls h.shards)

has_mailbox-found :
    (now : ℕ) (id : Bytes) (shards : List ShardRef) (u : Bytes) (ref : ShardRef)
    → find_shard u shards ≡ some ref
    → mailbox_exists now id ref.store ≡ true
    → has_mailbox now id shards u ≡ true
unfolding has_mailbox
has_mailbox-found now id shards u ref e there = ground arith

module _ (sha256 : Bytes → Bytes) (hmac : Bytes → Bytes → Bytes)
    (encode_id : List Field → Result Bytes) (decode_id : Bytes → Result (List Field))
    (verify : Bytes → Bytes → Bytes → Bool) where
  handle_register-passed :
      (now store_now : ℕ) (random : Option Bytes) (r : HttpRequest) (req : Register) (h : Router)
      → r.method ≡ post
      → (allow_rl (reg_ip_key r.client_ip) now h.max_reg h.reg_rl).0 ≡ true
      → checked_register decode_id verify now r ≡ ok req
      → (check_replay sha256 req.client_pub req.nonce now h.replay).0 ≡ false
      → handle_register sha256 hmac encode_id decode_id verify now store_now random r h
        ≡ register_mailbox sha256 hmac encode_id now store_now random req (record h {
          reg_rl = (allow_rl (reg_ip_key r.client_ip) now h.max_reg h.reg_rl).1;
          replay = (check_replay sha256 req.client_pub req.nonce now h.replay).1;
        })
  unfolding handle_register
  handle_register-passed now store_now random r req h is_post allowed checked fresh = ground arith

  -- A registration that passes the limiter, the checks and the replay cache of a configured router
  -- is answered with what the encoder makes of the response: the fresh secret, and the owner of the
  -- mailbox among the shards. The owner's store then has the mailbox, also if it had it before: the
  -- fresh secret takes the place of an old one, though DESIGN.md has it rotated on explicit rotation
  -- only. The secret is the mailbox's own until its time to live runs out, and for as long a
  -- resolution of the same key answers, as far as its encoder does, the same shard.
  pub handle_register-Owns :
      (now store_now later : ℕ) (secret : Bytes) (r : HttpRequest) (req : Register) (h : Router)
      → r.method ≡ post
      → (allow_rl (reg_ip_key r.client_ip) now h.max_reg h.reg_rl).0 ≡ true
      → checked_register decode_id verify now r ≡ ok req
      → (check_replay sha256 req.client_pub req.nonce now h.replay).0 ≡ false
      → 0 < length h.secret
      → 0 < length h.shards
      → length secret ≡ 32
      → later < store_now + millis mailbox_ttl_seconds
      → let id = mailbox_id_from_pub hmac h.secret req.client_pub in
        let primary = owner sha256 id (shard_urls h.shards) in
        let (response, after) =
          handle_register sha256 hmac encode_id decode_id verify now store_now (some secret) r h in
        (ref : ShardRef) × (mb : MailboxData) × (response
          ≡ write_result 53 (
              marshal_register_response encode_id record {
                mailbox_id = id;
                read_secret = secret;
                shard_url = primary;
                table_version = h.version;
                expires_at = now + millis capability_ttl_seconds;
              }))
        × (find_shard primary after.shards ≡ some ref)
        × Owns sha256 later id secret ref.store mb
        × (resolve_mailbox sha256 hmac encode_id later record { client_pub = req.client_pub } after
            ≡ write_result 55 (
                marshal_resolve_response encode_id record {
                  mailbox_id = id;
                  shard_url = primary;
                  era = 0;
                  table_version = h.version;
                }))
  handle_register-Owns now store_now later secret r req h is_post allowed checked fresh keyed
        some_shard l lives =
      let id = mailbox_id_from_pub hmac h.secret req.client_pub in
      let primary = owner sha256 id (shard_urls h.shards) in
      let table = (allow_rl (reg_ip_key r.client_ip) now h.max_reg h.reg_rl).1 in
      let cache = (check_replay sha256 req.client_pub req.nonce now h.replay).1 in
      let h2 : Router = record h { reg_rl = table; replay = cache } in
      let (ref, found, result) =
        register_mailbox_lem sha256 hmac encode_id now store_now secret req h2 keyed some_shard in
      let passed =
        handle_register-passed now store_now (some secret) r req h is_post allowed checked fresh in
      let store = (create_mailbox store_now id (sha256 secret) ref.store).1 in
      let held : ShardRef = record ref { store = store } in
      let mb = registered store_now id (sha256 secret) ref.store in
      let owns = Owns-create_mailbox sha256 store_now later id secret ref.store l lives in
      let there = find_shard-put_shard primary store h.shards ref found in
      let h3 : Router = record h2 { shards = put_shard primary store h.shards } in
      let urls = shard_urls-put_shard primary store h.shards in
      let has =
        has_mailbox-found later id h3.shards primary held there
          (mailbox_exists-found later id store mb owns.found) in
      (
        held,
        mb,
        rw (passed, result) refl,
        rw (passed, result) there,
        owns,
        rw (passed, result)
            (resolve_mailbox-owner sha256 hmac encode_id later
              record { client_pub = req.client_pub } h3 primary keyed
              (rw urls (omega (arith, length-shard_urls h.shards))) (rw urls refl) has),
      )
