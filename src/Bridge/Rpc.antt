-- ===== src/Bridge/Rpc.antt =====
-- The requests of transports/filerelay/bridge/rpc.go. A plain Go error has the code 0, and the URLs
-- are byte strings.
use nex_talk_file_relay.Base.{ℕ, not, ◌||◌, List, [], ◌∷◌, Bytes, ltb, ◌==◌, length, if◌then◌else◌}
use nex_talk_file_relay.Protocol.Errors.{Result, ok, fail, ◌>>=◌}
use nex_talk_file_relay.Protocol.Wire.{get_u32, get_u8}
use nex_talk_file_relay.Protocol.Codec.{Field, set_fields}

abbrev pub max_frame_bytes : ℕ
max_frame_bytes = 40960

abbrev pub max_rpc_bytes : ℕ
max_rpc_bytes = 2097152

abbrev pub action_start : ℕ
action_start = 1

pub record Envelope : Type 0 where
  pub op : ℕ
  pub req_id : ℕ
  pub payload : Bytes

pub record SendReq : Type 0 where
  pub frame : Bytes
  pub recipient_pub : Bytes
  pub mailbox_id : Bytes
  pub shard_url : Bytes

pub record AttachReq : Type 0 where
  pub mailbox_id : Bytes
  pub read_secret : Bytes
  pub shard_url : Bytes
  pub router_url : Bytes

pub record PollReq : Type 0 where
  pub limit : ℕ
  pub mailbox_id : Bytes

unfoldable pub set_envelope : ℕ → Bytes → Envelope → Result Envelope
set_envelope id d e =
    if id == 1
    then (get_u8 d >>= λ v. ok (record e { op = v }))
    else if id == 2
    then (get_u32 d >>= λ v. ok (record e { req_id = v }))
    else if id == 3
    then ok (record e { payload = d })
    else ok e

unfoldable pub set_send : ℕ → Bytes → SendReq → Result SendReq
set_send id d r =
    if id == 1
    then ok (record r { frame = d })
    else if id == 2
    then ok (record r { recipient_pub = d })
    else if id == 4
    then ok (record r { mailbox_id = d })
    else if id == 5
    then ok (record r { shard_url = d })
    else ok r

unfoldable pub set_attach : ℕ → Bytes → AttachReq → Result AttachReq
set_attach id d r =
    if id == 1
    then ok (record r { mailbox_id = d })
    else if id == 2
    then ok (record r { read_secret = d })
    else if id == 3
    then ok (record r { shard_url = d })
    else if id == 4
    then ok (record r { router_url = d })
    else ok r

unfoldable pub set_poll : ℕ → Bytes → PollReq → Result PollReq
set_poll id d r =
    if id == 1
    then (get_u8 d >>= λ v. ok (record r { limit = v }))
    else if id == 2
    then ok (record r { mailbox_id = d })
    else ok r

-- The first field 1 decides.
unfoldable pub find_mailbox : List Field → Result Bytes
find_mailbox [] = fail 0 "rpc: bad detach"
find_mailbox ((id, d) ∷ fs) =
    if id == 1
    then (if not (length d == 16) then fail 0 "rpc: bad detach" else ok d)
    else find_mailbox fs

-- The first field 1 of one byte decides.
unfoldable pub find_action : List Field → Result ℕ
find_action [] = fail 0 "rpc: missing action"
find_action ((id, b ∷ []) ∷ fs) = if id == 1 then ok b else find_action fs
find_action ((id, d) ∷ fs) = find_action fs

module _ (decode_id : Bytes → Result (List Field)) where
  unfoldable pub unmarshal_envelope : Bytes → Result Envelope
  unmarshal_envelope body =
      if length body == 0 || ltb max_rpc_bytes (length body)
      then fail 0 "rpc: bad envelope length"
      else (decode_id body >>= λ fs.
          set_fields set_envelope fs record { op = 0; req_id = 0; payload = [] })

  unfoldable pub unmarshal_send : Bytes → Result SendReq
  unmarshal_send body = decode_id body >>= λ fs.
      set_fields set_send fs
        record { frame = []; recipient_pub = []; mailbox_id = []; shard_url = [] }
      >>= λ r.
          if length r.frame == 0 || ltb max_frame_bytes (length r.frame)
          then fail 0 "rpc: frame out of bounds"
          else ok r

  unfoldable pub unmarshal_attach : Bytes → Result AttachReq
  unmarshal_attach body = decode_id body >>= λ fs.
      set_fields set_attach fs
        record { mailbox_id = []; read_secret = []; shard_url = []; router_url = [] }
      >>= λ r.
          if not (length r.mailbox_id == 16)
            || not (length r.read_secret == 32)
            || length r.shard_url == 0
          then fail 0 "rpc: bad attach"
          else ok r

  unfoldable pub unmarshal_detach : Bytes → Result Bytes
  unmarshal_detach body = decode_id body >>= find_mailbox

  unfoldable pub unmarshal_poll : Bytes → Result PollReq
  unmarshal_poll body = decode_id body >>= λ fs.
      set_fields set_poll fs record { limit = 0; mailbox_id = [] } >>= λ r.
      ok (if r.limit == 0 then record r { limit = 32 } else r)

  unfoldable pub unmarshal_start_stop : Bytes → Result ℕ
  unmarshal_start_stop body = decode_id body >>= find_action
