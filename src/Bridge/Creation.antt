-- ===== src/Bridge/Creation.antt =====
-- onXferCreate and onXferComplete of transports/filerelay/bridge/xfer.go, which sign with the key of
-- the bridge. `drawn` is what the random source gives, none if it fails, and `ts` the clock.
use nex_talk_file_relay.Base.{
  ℕ, not, ◌||◌, ◌&&◌, List, [], Option, none, some, Bytes, ◌==◌, length, if◌then◌else◌,
}
use nex_talk_file_relay.Base.Map.{Map}
use nex_talk_file_relay.Protocol.Errors.{Result, ok, err, fail, ◌>>=◌}
use nex_talk_file_relay.Protocol.Messages.{TransferCreate}
use nex_talk_file_relay.Protocol.Codec.{Field}
use nex_talk_file_relay.Protocol.Responses.Files.{
  TransferCreateResponse, unmarshal_transfer_create_response, unmarshal_transfer_complete_response,
}
use nex_talk_file_relay.Protocol.Responses.Requests.{
  marshal_transfer_create, marshal_transfer_complete,
}
use nex_talk_file_relay.Protocol.Auth.{canonical_xfer_create, canonical_xfer_complete}
use nex_talk_file_relay.Store.Types.{to_array}
use nex_talk_file_relay.Bridge.Url.{join_url}
use nex_talk_file_relay.Bridge.RpcFile.{XferCreate, unmarshal_xfer_create, unmarshal_xfer_complete}
use nex_talk_file_relay.Bridge.State.{
  TransferBind, Bridge, Reply, failure, ack, created, err_transport, posted, resolve,
  effective_router,
}
use nex_talk_file_relay.Bridge.Transfers.{route_create, route_complete, save_binding, with_bind}

module _ (encode_id : List Field → Result Bytes) (decode_id : Bytes → Result (List Field))
    (exchange : Bytes → Bytes → Option (ℕ × Bytes)) (sha256 : Bytes → Bytes) (sign : Bytes → Bytes)
    (courier_pub : Bytes) where
  -- The mailbox and shard of a new transfer: the ones that are given, else those of the key.
  unfoldable pub destination : XferCreate → Bridge → Result (Bytes × Bytes)
  destination req b =
      (if length req.recipient_pub == 32
          && (not (length req.mailbox_id == 16) || length req.shard_url == 0)
        then (if length (effective_router b) == 0
            then fail 0 "no router_url for resolve"
            else resolve encode_id decode_id exchange req.recipient_pub (effective_router b))
        else ok (req.mailbox_id, req.shard_url))
      >>= λ (mailbox_id, shard_url).
          if not (length mailbox_id == 16) || length shard_url == 0
          then fail 0 "mailbox+shard or recipient_pub required"
          else ok (mailbox_id, shard_url)

  unfoldable pub courier_create : XferCreate → Bytes → ℕ → Bytes → TransferCreate
  courier_create req mailbox_id ts nonce = record {
    mailbox_id = mailbox_id;
    total_size = req.total;
    chunk_size = req.chunk_size;
    chunk_count = req.chunk_count;
    manifest = req.manifest;
    sender_pub = courier_pub;
    timestamp = ts;
    nonce = nonce;
    signature = sign (
        canonical_xfer_create sha256 (to_array 32 courier_pub) (to_array 16 mailbox_id) req.total
          req.chunk_size req.chunk_count ts nonce req.manifest);
  }

  unfoldable pub create_at :
      XferCreate → Option Bytes → ℕ → Bytes × Bytes → Result TransferCreateResponse
  create_at req none ts (mailbox_id, shard_url) = fail 0 "rand"
  create_at req (some nonce) ts (mailbox_id, shard_url) =
      marshal_transfer_create encode_id (courier_create req mailbox_id ts nonce) >>= λ body.
      posted "xfer-create" (exchange (join_url shard_url route_create) body) >>= λ raw.
      unmarshal_transfer_create_response decode_id raw

  -- The end of `onXferCreate`.
  unfoldable pub finish_create :
      (Map Bytes TransferBind → Option Bytes)
      → (Option Bytes → Bytes → Option Bytes)
      → XferCreate
      → Bytes × Bytes
      → TransferCreateResponse
      → Bridge
      → Reply × Bridge
  finish_create to_json write_file req (mailbox_id, shard_url) res b = (
    created res.transfer_id res.download_secret shard_url res.expires_at,
    save_binding to_json write_file res.transfer_id
        record { mailbox_id = mailbox_id; shard_url = shard_url; chunk_count = req.chunk_count } b,
  )

  unfoldable pub on_xfer_create :
      (Map Bytes TransferBind → Option Bytes)
      → (Option Bytes → Bytes → Option Bytes)
      → Option Bytes
      → ℕ
      → Bytes
      → Bridge
      → Reply × Bridge
  on_xfer_create to_json write_file drawn ts payload b =
      elim (unmarshal_xfer_create decode_id payload >>= λ req. destination req b >>= λ place.
      create_at req drawn ts place >>= λ res.
      ok (finish_create to_json write_file req place res b)) [
        | err e ↦ (failure err_transport e, b)
        | ok done ↦ done
      ]

  unfoldable pub complete_at : Option Bytes → ℕ → Bytes → Bytes → TransferBind → Result Reply
  complete_at none ts transfer_id manifest_hash bind = fail 0 "rand"
  complete_at (some nonce) ts transfer_id manifest_hash bind =
      marshal_transfer_complete encode_id record {
        transfer_id = transfer_id;
        manifest_hash = manifest_hash;
        mailbox_id = [];
        sender_pub = courier_pub;
        timestamp = ts;
        nonce = nonce;
        signature = sign (
            canonical_xfer_complete (to_array 32 courier_pub) (to_array 16 transfer_id)
              (to_array 32 manifest_hash) ts nonce);
      }
      >>= λ body.
          posted "xfer-complete" (exchange (join_url bind.shard_url route_complete) body) >>= λ raw.
          unmarshal_transfer_complete_response decode_id raw >>= λ r. ok ack

  unfoldable pub on_xfer_complete :
      (Bytes → Option (Map Bytes TransferBind)) → Option Bytes → ℕ → Bytes → Bridge → Reply × Bridge
  on_xfer_complete of_json drawn ts payload b = elim (unmarshal_xfer_complete decode_id payload) [
    | err e ↦ (failure err_transport e, b)
    | ok req ↦ with_bind of_json "unknown transfer" req.0 b (complete_at drawn ts req.0 req.1)
  ]
