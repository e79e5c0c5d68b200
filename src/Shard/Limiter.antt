-- ===== src/Shard/Limiter.antt =====
-- The rate limiter of server/shard/handler.go: fixed windows of 60 seconds. A key is a byte string:
-- the bytes of its ASCII prefix, then those of the address or of the hex form of an ID.
pub mod Bound
use nex_talk_file_relay.Base.{
  ℕ, ◌+◌, ◌/◌, ◌%◌, Bool, true, false, List, [], ◌∷◌, ◌++◌, none, some, Bytes, bytes_key, ltb, leb,
  ◌==◌, if◌then◌else◌,
}
use nex_talk_file_relay.Base.Map.{Map, lookup, insert}

pub record RateLimits : Type 0 where
  pub sends_per_sender : ℕ
  pub sends_per_target : ℕ
  pub sends_per_ip : ℕ
  pub receives_per_ip : ℕ
  pub puts_per_xfer : ℕ
  pub puts_per_ip : ℕ

abbrev pub default_rate_limits : RateLimits
default_rate_limits = record {
  sends_per_sender = 600;
  sends_per_target = 600;
  sends_per_ip = 1200;
  receives_per_ip = 1200;
  puts_per_xfer = 2000;
  puts_per_ip = 4000;
}

pub record Window : Type 0 where
  pub count : ℕ
  pub reset_at : ℕ

-- True if the request may proceed. A limit of 0 is no limit.
unfoldable pub allow : Bytes → ℕ → ℕ → Map Bytes Window → Bool × Map Bytes Window
allow key now max buckets = if leb max 0 then (true, buckets) else elim (lookup key buckets) [
  | none ↦ (true, insert key record { count = 1; reset_at = now + 60000 } buckets)
  | some w ↦
      if leb w.reset_at now
      then (true, insert key record { count = 1; reset_at = now + 60000 } buckets)
      else if leb max w.count
      then (false, buckets)
      else (true, insert key record { count = w.count + 1; reset_at = w.reset_at } buckets)
]

-- `!allow(..) || !allow(..) || ...`, negated: the first limit that is hit ends the chain, and the
-- windows before it have counted the request.
unfoldable pub allow_all : ℕ → List (Bytes × ℕ) → Map Bytes Window → Bool × Map Bytes Window
allow_all now [] buckets = (true, buckets)
allow_all now ((key, max) ∷ ks) buckets =
    let (ok_now, after) = allow key now max buckets in
    let rest = allow_all now ks after in if ok_now then rest else (false, after)

-- A hex digit: 48 is `0` and 97 is `a`.
abbrev pub hex_digit : ℕ → ℕ
hex_digit d = if ltb d 10 then 48 + d else 87 + d

-- hex.EncodeToString
unfoldable pub hex : Bytes → Bytes
hex [] = []
hex (b ∷ bs) = hex_digit (b / 16) ∷ hex_digit (b % 16) ∷ hex bs

-- `send-sender:`
unfoldable pub send_sender_key : Bytes → Bytes
send_sender_key id =
    (115 ∷ 101 ∷ 110 ∷ 100 ∷ 45 ∷ 115 ∷ 101 ∷ 110 ∷ 100 ∷ 101 ∷ 114 ∷ 58 ∷ []) ++ hex id

-- `send-target:`
unfoldable pub send_target_key : Bytes → Bytes
send_target_key id =
    (115 ∷ 101 ∷ 110 ∷ 100 ∷ 45 ∷ 116 ∷ 97 ∷ 114 ∷ 103 ∷ 101 ∷ 116 ∷ 58 ∷ []) ++ hex id

-- `send-ip:`
unfoldable pub send_ip_key : Bytes → Bytes
send_ip_key ip = (115 ∷ 101 ∷ 110 ∷ 100 ∷ 45 ∷ 105 ∷ 112 ∷ 58 ∷ []) ++ ip

-- `recv-ip:`
unfoldable pub recv_ip_key : Bytes → Bytes
recv_ip_key ip = (114 ∷ 101 ∷ 99 ∷ 118 ∷ 45 ∷ 105 ∷ 112 ∷ 58 ∷ []) ++ ip

-- `create-sender:`
unfoldable pub create_sender_key : Bytes → Bytes
create_sender_key id =
    (99 ∷ 114 ∷ 101 ∷ 97 ∷ 116 ∷ 101 ∷ 45 ∷ 115 ∷ 101 ∷ 110 ∷ 100 ∷ 101 ∷ 114 ∷ 58 ∷ []) ++ hex id

-- `create-ip:`
unfoldable pub create_ip_key : Bytes → Bytes
create_ip_key ip = (99 ∷ 114 ∷ 101 ∷ 97 ∷ 116 ∷ 101 ∷ 45 ∷ 105 ∷ 112 ∷ 58 ∷ []) ++ ip

-- `put-xfer:`
unfoldable pub put_xfer_key : Bytes → Bytes
put_xfer_key id = (112 ∷ 117 ∷ 116 ∷ 45 ∷ 120 ∷ 102 ∷ 101 ∷ 114 ∷ 58 ∷ []) ++ hex id

-- `put-ip:`
unfoldable pub put_ip_key : Bytes → Bytes
put_ip_key ip = (112 ∷ 117 ∷ 116 ∷ 45 ∷ 105 ∷ 112 ∷ 58 ∷ []) ++ ip
