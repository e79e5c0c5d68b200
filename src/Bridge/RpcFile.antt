-- ===== src/Bridge/RpcFile.antt =====
-- The requests of transports/filerelay/bridge/rpc_file.go about transfers.
use nex_talk_file_relay.Base.{ℕ, not, ◌||◌, List, [], Bytes, ◌==◌, length, if◌then◌else◌}
use nex_talk_file_relay.Protocol.Errors.{Result, ok, fail, ◌>>=◌, ◌>>◌}
use nex_talk_file_relay.Protocol.Wire.{get_u32, get_u64}
use nex_talk_file_relay.Protocol.Codec.{Field, set_fields}

pub record XferCreate : Type 0 where
  pub total : ℕ
  pub chunk_size : ℕ
  pub chunk_count : ℕ
  pub manifest : Bytes
  pub mailbox_id : Bytes
  pub recipient_pub : Bytes
  pub shard_url : Bytes

pub record XferPut : Type 0 where
  pub transfer_id : Bytes
  pub index : ℕ
  pub payload : Bytes
  pub hash : Bytes
  pub offset : ℕ

pub record XferResume : Type 0 where
  pub transfer_id : Bytes
  pub mailbox_id : Bytes
  pub read_secret : Bytes
  pub ticket : Bytes
  pub shard_url : Bytes

pub record XferGet : Type 0 where
  pub transfer_id : Bytes
  pub index : ℕ
  pub mailbox_id : Bytes
  pub read_secret : Bytes
  pub ticket : Bytes
  pub shard_url : Bytes

pub record XferCancel : Type 0 where
  pub transfer_id : Bytes
  pub mailbox_id : Bytes
  pub read_secret : Bytes

unfoldable pub set_xfer_create : ℕ → Bytes → XferCreate → Result XferCreate
set_xfer_create id d r =
    if id == 1
    then (get_u64 d >>= λ v. ok (record r { total = v }))
    else if id == 2
    then (get_u32 d >>= λ v. ok (record r { chunk_size = v }))
    else if id == 3
    then (get_u32 d >>= λ v. ok (record r { chunk_count = v }))
    else if id == 4
    then ok (record r { manifest = d })
    else if id == 5
    then ok (record r { mailbox_id = d })
    else if id == 6
    then ok (record r { recipient_pub = d })
    else if id == 7
    then ok (record r { shard_url = d })
    else ok r

unfoldable pub set_xfer_put : ℕ → Bytes → XferPut → Result XferPut
set_xfer_put id d r =
    if id == 1
    then ok (record r { transfer_id = d })
    else if id == 2
    then (get_u32 d >>= λ v. ok (record r { index = v }))
    else if id == 3
    then ok (record r { payload = d })
    else if id == 4
    then ok (record r { hash = d })
    else if id == 5
    then (get_u64 d >>= λ v. ok (record r { offset = v }))
    else ok r

unfoldable pub set_xfer_resume : ℕ → Bytes → XferResume → Result XferResume
set_xfer_resume id d r =
    if id == 1
    then ok (record r { transfer_id = d })
    else if id == 2
    then ok (record r { mailbox_id = d })
    else if id == 3
    then ok (record r { read_secret = d })
    else if id == 4
    then ok (record r { ticket = d })
    else if id == 5
    then ok (record r { shard_url = d })
    else ok r

unfoldable pub set_xfer_get : ℕ → Bytes → XferGet → Result XferGet
set_xfer_get id d r =
    if id == 1
    then ok (record r { transfer_id = d })
    else if id == 2
    then (get_u32 d >>= λ v. ok (record r { index = v }))
    else if id == 3
    then ok (record r { mailbox_id = d })
    else if id == 4
    then ok (record r { read_secret = d })
    else if id == 5
    then ok (record r { ticket = d })
    else if id == 6
    then ok (record r { shard_url = d })
    else ok r

unfoldable pub set_xfer_cancel : ℕ → Bytes → XferCancel → Result XferCancel
set_xfer_cancel id d r =
    if id == 1
    then ok (record r { transfer_id = d })
    else if id == 2
    then ok (record r { mailbox_id = d })
    else if id == 3
    then ok (record r { read_secret = d })
    else ok r

unfoldable pub set_xfer_complete : ℕ → Bytes → Bytes × Bytes → Result (Bytes × Bytes)
set_xfer_complete id d (transfer_id, manifest_hash) =
    if id == 1
    then ok (d, manifest_hash)
    else if id == 2
    then ok (transfer_id, d)
    else ok (transfer_id, manifest_hash)

unfoldable pub check_resume_auth : Bytes → Bytes → Bytes → Result (Unit {0})
check_resume_auth mailbox_id read_secret ticket =
    if length ticket == 32
    then (if not (length mailbox_id == 0) || not (length read_secret == 0)
        then fail 0 "rpc: ticket mode: mailbox and read_secret must be empty"
        else ok tt)
    else if not (length ticket == 0)
    then fail 0 "rpc: ticket must be 32 bytes"
    else if not (length mailbox_id == 16) || not (length read_secret == 32)
    then fail 0 "rpc: bad resume"
    else ok tt

module _ (decode_id : Bytes → Result (List Field)) where
  unfoldable pub unmarshal_xfer_create : Bytes → Result XferCreate
  unmarshal_xfer_create body = decode_id body >>= λ fs.
      set_fields set_xfer_create fs record {
        total = 0;
        chunk_size = 0;
        chunk_count = 0;
        manifest = [];
        mailbox_id = [];
        recipient_pub = [];
        shard_url = [];
      }
      >>= λ r.
          if r.total == 0 || r.chunk_size == 0 || r.chunk_count == 0
          then fail 0 "rpc: bad xfer params"
          else ok r

  unfoldable pub unmarshal_xfer_put : Bytes → Result XferPut
  unmarshal_xfer_put body = decode_id body >>= λ fs.
      set_fields set_xfer_put fs
        record { transfer_id = []; index = 0; payload = []; hash = []; offset = 0 }
      >>= λ r.
          if not (length r.transfer_id == 16) || length r.payload == 0 || not (length r.hash == 32)
          then fail 0 "rpc: bad chunk"
          else ok r

  unfoldable pub unmarshal_xfer_resume : Bytes → Result XferResume
  unmarshal_xfer_resume body = decode_id body >>= λ fs.
      set_fields set_xfer_resume fs
        record { transfer_id = []; mailbox_id = []; read_secret = []; ticket = []; shard_url = [] }
      >>= λ r.
          if not (length r.transfer_id == 16)
          then fail 0 "rpc: bad resume"
          else (check_resume_auth r.mailbox_id r.read_secret r.ticket >> ok r)

  -- The error of the credentials is wrapped in a text, which is left out.
  unfoldable pub unmarshal_xfer_get : Bytes → Result XferGet
  unmarshal_xfer_get body = decode_id body >>= λ fs.
      set_fields set_xfer_get fs record {
        transfer_id = [];
        index = 0;
        mailbox_id = [];
        read_secret = [];
        ticket = [];
        shard_url = [];
      }
      >>= λ r.
          if not (length r.transfer_id == 16)
          then fail 0 "rpc: bad get"
          else (check_resume_auth r.mailbox_id r.read_secret r.ticket >> ok r)

  unfoldable pub unmarshal_xfer_cancel : Bytes → Result XferCancel
  unmarshal_xfer_cancel body = decode_id body >>= λ fs.
      set_fields set_xfer_cancel fs record { transfer_id = []; mailbox_id = []; read_secret = [] }
      >>= λ r.
          if not (length r.transfer_id == 16)
            || not (length r.mailbox_id == 16)
            || not (length r.read_secret == 32)
          then fail 0 "rpc: bad cancel"
          else ok r

  -- The transfer and the hash of its manifest.
  unfoldable pub unmarshal_xfer_complete : Bytes → Result (Bytes × Bytes)
  unmarshal_xfer_complete body = decode_id body >>= λ fs.
      set_fields set_xfer_complete fs ([], []) >>= λ (transfer_id, manifest_hash).
      if not (length transfer_id == 16) || not (length manifest_hash == 32)
      then fail 0 "rpc: bad complete"
      else ok (transfer_id, manifest_hash)
