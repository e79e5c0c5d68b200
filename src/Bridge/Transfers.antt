-- ===== src/Bridge/Transfers.antt =====
-- The transfer operations of transports/filerelay/bridge/xfer.go. A binding is kept under the ID of
-- the transfer itself, of which the source takes the hexadecimal text, which determines it.
-- `to_json` is json.Marshal of the bindings, none if it fails, and `of_json` json.Unmarshal, none if
-- it fails; `write_file` is what os.WriteFile leaves in transfers.json, from what was there and what
-- is to be written, none if the file cannot be read then. What `of_json` gives has a binding for
-- every key: null, on which the source would crash, is nothing that the bridge writes.
use nex_talk_file_relay.Base.{
  ℕ, false, not, List, [], ◌∷◌, Option, none, some, Bytes, String, bytes_key, ◌==◌, length,
  bytes_eq, if◌then◌else◌,
}
use nex_talk_file_relay.Base.Map.{Map, lookup, insert}
use nex_talk_file_relay.Protocol.Errors.{Result, ok, err, fail, ◌>>=◌}
use nex_talk_file_relay.Protocol.Codec.{Field, marshal_chunk_upload}
use nex_talk_file_relay.Protocol.Responses.Files.{
  ChunkDownloadResponse, unmarshal_chunk_ack, unmarshal_chunk_download_response,
  unmarshal_resume_response,
}
use nex_talk_file_relay.Protocol.Responses.Requests.{
  marshal_chunk_download, marshal_resume_request, marshal_transfer_cancel,
}
use nex_talk_file_relay.Bridge.Url.{join_url}
use nex_talk_file_relay.Bridge.RpcFile.{
  XferPut, XferResume, XferGet, unmarshal_xfer_put, unmarshal_xfer_resume, unmarshal_xfer_get,
  unmarshal_xfer_cancel,
}
use nex_talk_file_relay.Bridge.State.{
  TransferBind, Bridge, Reply, failure, ack, progress, chunk, err_transport, or_transport, posted,
}

-- "/fr/v1/xfer/"
abbrev pub route_xfer : Bytes → Bytes
route_xfer name = 47 ∷ 102 ∷ 114 ∷ 47 ∷ 118 ∷ 49 ∷ 47 ∷ 120 ∷ 102 ∷ 101 ∷ 114 ∷ 47 ∷ name

abbrev pub route_create : Bytes
route_create = route_xfer (99 ∷ 114 ∷ 101 ∷ 97 ∷ 116 ∷ 101 ∷ [])

abbrev pub route_put : Bytes
route_put = route_xfer (112 ∷ 117 ∷ 116 ∷ [])

abbrev pub route_get : Bytes
route_get = route_xfer (103 ∷ 101 ∷ 116 ∷ [])

abbrev pub route_resume : Bytes
route_resume = route_xfer (114 ∷ 101 ∷ 115 ∷ 117 ∷ 109 ∷ 101 ∷ [])

abbrev pub route_complete : Bytes
route_complete = route_xfer (99 ∷ 111 ∷ 109 ∷ 112 ∷ 108 ∷ 101 ∷ 116 ∷ 101 ∷ [])

abbrev pub route_cancel : Bytes
route_cancel = route_xfer (99 ∷ 97 ∷ 110 ∷ 99 ∷ 101 ∷ 108 ∷ [])

-- The part of `bindFor` about transfers.json: a binding counts if it has a mailbox ID.
unfoldable pub bind_saved :
    (Bytes → Option (Map Bytes TransferBind)) → Bytes → Bridge → Option TransferBind × Bridge
bind_saved of_json transfer_id b = elim b.saved [
  | none ↦ (none, b)
  | some raw ↦ elim (of_json raw) [
    | none ↦ (none, b)
    | some all ↦ elim (lookup transfer_id all) [
      | none ↦ (none, b)
      | some bind ↦
          if length bind.mailbox_id == 16
          then (some bind, record b { transfers = insert transfer_id bind b.transfers })
          else (none, b)
    ]
  ]
]

unfoldable pub bind_for :
    (Bytes → Option (Map Bytes TransferBind)) → Bytes → Bridge → Option TransferBind × Bridge
bind_for of_json transfer_id b = elim (lookup transfer_id b.transfers) [
  | some bind ↦ (some bind, b)
  | none ↦ bind_saved of_json transfer_id b
]

module _ (to_json : Map Bytes TransferBind → Option Bytes)
    (write_file : Option Bytes → Bytes → Option Bytes) where
  -- An error of the encoder ends it, and one of the writing is ignored.
  unfoldable pub save_bindings : Bridge → Bridge
  save_bindings b = elim (to_json b.transfers) [
    | none ↦ b
    | some raw ↦ record b { saved = write_file b.saved raw }
  ]

  -- The new binding is kept in memory, and the bindings are saved.
  unfoldable pub save_binding : Bytes → TransferBind → Bridge → Bridge
  save_binding transfer_id bind b =
      save_bindings record b { transfers = insert transfer_id bind b.transfers }

-- A bridge that was stopped and started anew: it keeps its files.
unfoldable pub restarted : Bridge → Bridge
restarted b = record b { running = false; mailboxes = []; router_url = []; transfers = [] }

-- The handlers that ask `bindFor` first.
unfoldable pub with_bind :
    (Bytes → Option (Map Bytes TransferBind))
    → String
    → Bytes
    → Bridge
    → (TransferBind → Result Reply)
    → Reply × Bridge
with_bind of_json what transfer_id b k =
    let (found, b') = bind_for of_json transfer_id b in
    (elim found [ none ↦ or_transport (fail 0 what) | some bind ↦ or_transport (k bind) ], b')

module _ (sha256 : Bytes → Bytes) where
  -- The check of a chunk against its hash.
  unfoldable pub check_hash : ChunkDownloadResponse → Result Reply
  check_hash r =
      if not (bytes_eq (sha256 r.payload) r.chunk_hash)
      then fail 0 "chunk hash mismatch (relay data corrupt)"
      else ok (chunk r.payload r.chunk_hash)

module _ (encode_id : List Field → Result Bytes) (decode_id : Bytes → Result (List Field))
    (exchange : Bytes → Bytes → Option (ℕ × Bytes)) where
  unfoldable pub put_at : XferPut → TransferBind → Result Reply
  put_at req bind =
      marshal_chunk_upload encode_id record {
        transfer_id = req.transfer_id;
        index = req.index;
        payload = req.payload;
        chunk_hash = req.hash;
        offset = req.offset;
      }
      >>= λ body. posted "xfer-put" (exchange (join_url bind.shard_url route_put) body) >>= λ raw.
          unmarshal_chunk_ack decode_id raw >>= λ a.
          ok (progress a.highest_contiguous bind.chunk_count a.missing_ranges a.bitmap a.encoding)

  unfoldable pub on_xfer_put :
      (Bytes → Option (Map Bytes TransferBind)) → Bytes → Bridge → Reply × Bridge
  on_xfer_put of_json payload b = elim (unmarshal_xfer_put decode_id payload) [
    | err e ↦ (failure err_transport e, b)
    | ok req ↦
        with_bind of_json "unknown transfer (create first via this bridge)" req.transfer_id b
          (put_at req)
  ]

  -- The request of a resumption at a shard.
  unfoldable pub resume_at : Bytes → Bytes → Bytes → Bytes → Bytes → Result Reply
  resume_at shard_url transfer_id mailbox_id read_secret ticket =
      marshal_resume_request encode_id record {
        transfer_id = transfer_id;
        mailbox_id = mailbox_id;
        read_secret = read_secret;
        ticket = ticket;
      }
      >>= λ body. posted "xfer-resume" (exchange (join_url shard_url route_resume) body) >>= λ raw.
          unmarshal_resume_response decode_id raw >>= λ r.
          ok (progress r.highest_contiguous r.chunk_count r.missing_ranges r.bitmap r.encoding)

  unfoldable pub resume_bound : XferResume → TransferBind → Result Reply
  resume_bound req bind =
      if not (bytes_eq req.mailbox_id bind.mailbox_id)
      then fail 0 "mailbox mismatch"
      else resume_at bind.shard_url req.transfer_id req.mailbox_id req.read_secret []

  unfoldable pub on_xfer_resume :
      (Bytes → Option (Map Bytes TransferBind)) → Bytes → Bridge → Reply × Bridge
  on_xfer_resume of_json payload b = elim (unmarshal_xfer_resume decode_id payload) [
    | err e ↦ (failure err_transport e, b)
    | ok req ↦
        if length req.ticket == 32
        then (
          or_transport (
              if length req.shard_url == 0
              then fail 0 "ticket mode: shard_url required"
              else resume_at req.shard_url req.transfer_id [] [] req.ticket),
          b,
        )
        else with_bind of_json "unknown transfer" req.transfer_id b (resume_bound req)
  ]

  unfoldable pub on_xfer_cancel :
      (Bytes → Option (Map Bytes TransferBind)) → Bytes → Bridge → Reply × Bridge
  on_xfer_cancel of_json payload b = elim (unmarshal_xfer_cancel decode_id payload) [
    | err e ↦ (failure err_transport e, b)
    | ok req ↦ with_bind of_json "unknown transfer" req.transfer_id b λ bind.
        if not (bytes_eq req.mailbox_id bind.mailbox_id)
        then fail 0 "mailbox mismatch"
        else (marshal_transfer_cancel encode_id record {
          transfer_id = req.transfer_id;
          mailbox_id = req.mailbox_id;
          reason = 0;
          read_secret = req.read_secret;
        }
            >>= λ body.
                posted "xfer-cancel" (exchange (join_url bind.shard_url route_cancel) body)
                >>= λ raw. ok ack)
  ]

  module _ (sha256 : Bytes → Bytes) where
    -- The request of one chunk at a shard.
    unfoldable pub get_at : Bytes → XferGet → Bytes → Bytes → Bytes → Result Reply
    get_at shard_url req mailbox_id read_secret ticket =
        marshal_chunk_download encode_id record {
          transfer_id = req.transfer_id;
          index = req.index;
          count = 1;
          mailbox_id = mailbox_id;
          read_secret = read_secret;
          ticket = ticket;
        }
        >>= λ body. posted "xfer-get" (exchange (join_url shard_url route_get) body) >>= λ raw.
            unmarshal_chunk_download_response decode_id raw >>= check_hash sha256

    unfoldable pub get_bound : XferGet → TransferBind → Result Reply
    get_bound req bind =
        if not (bytes_eq req.mailbox_id bind.mailbox_id)
        then fail 0 "mailbox mismatch"
        else get_at bind.shard_url req req.mailbox_id req.read_secret []

    unfoldable pub on_xfer_get :
        (Bytes → Option (Map Bytes TransferBind)) → Bytes → Bridge → Reply × Bridge
    on_xfer_get of_json payload b = elim (unmarshal_xfer_get decode_id payload) [
      | err e ↦ (failure err_transport e, b)
      | ok req ↦
          if length req.ticket == 32
          then (
            or_transport (
                if length req.shard_url == 0
                then fail 0 "ticket mode: shard_url required"
                else get_at req.shard_url req [] [] req.ticket),
            b,
          )
          else with_bind of_json "unknown transfer" req.transfer_id b (get_bound req)
    ]
