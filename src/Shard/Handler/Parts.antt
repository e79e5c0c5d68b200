-- ===== src/Shard/Handler/Parts.antt =====
-- What the handlers of server/shard/handler.go are put together from: the state behind them, the
-- replay keys, and the guards and endings that they share.
use nex_talk_file_relay.Base.{ℕ, List, [], ◌∷◌, ◌++◌, Bytes, if◌then◌else◌}
use nex_talk_file_relay.Base.Map.{Map}
use nex_talk_file_relay.Protocol.Errors.{
  ProtocolError, Result, ok, err, ◌>>=◌, err_replay_detected, err_rate_limited,
}
use nex_talk_file_relay.Store.Types.{MemStore, Outcome, to_array}
use nex_talk_file_relay.Store.Replay.{check_and_mark_replay}
use nex_talk_file_relay.Shard.Limiter.{RateLimits, Window, allow_all}
use nex_talk_file_relay.Shard.Http.{Reply, Response, write_error, write_result}

-- A handler with the store behind it; the rate limits do not change.
pub record Shard : Type 0 where
  pub store : MemStore
  pub buckets : Map Bytes Window
  pub limits : RateLimits

-- `FR1/replay-`
abbrev replay_domain : Bytes
replay_domain = 70 ∷ 82 ∷ 49 ∷ 47 ∷ 114 ∷ 101 ∷ 112 ∷ 108 ∷ 97 ∷ 121 ∷ 45 ∷ []

-- `msg`
abbrev pub replay_domain_msg : Bytes
replay_domain_msg = replay_domain ++ (109 ∷ 115 ∷ 103 ∷ 0 ∷ [])

-- `create`
abbrev pub replay_domain_create : Bytes
replay_domain_create = replay_domain ++ (99 ∷ 114 ∷ 101 ∷ 97 ∷ 116 ∷ 101 ∷ 0 ∷ [])

-- `complete`
abbrev pub replay_domain_complete : Bytes
replay_domain_complete = replay_domain ++ (99 ∷ 111 ∷ 109 ∷ 112 ∷ 108 ∷ 101 ∷ 116 ∷ 101 ∷ 0 ∷ [])

abbrev pub rate_limited : ProtocolError
rate_limited = record { code = err_rate_limited; detail = "rate limited"; retry_after = 60 }

-- A call of the store, and the response to its outcome.
unfoldable pub finish {ℓ} : {A : Type ℓ} → Shard → Outcome A → (A → Reply) → Response × Shard
finish h (r, s) reply = (write_result (r >>= λ a. ok (reply a)), record h { store = s })

-- A call of the store in the middle of a handler.
unfoldable pub then_call {ℓ} :
    {A : Type ℓ} → Shard → Outcome A → (A → Shard → Response × Shard) → Response × Shard
then_call h (err e, s) k = (write_error e, record h { store = s })
then_call h (ok a, s) k = k a (record h { store = s })

-- `if !allow(..) || .. { return rate limited }`
unfoldable pub limited :
    ℕ → List (Bytes × ℕ) → Shard → (Shard → Response × Shard) → Response × Shard
limited now ks h k =
    let (allowed, after) = allow_all now ks h.buckets in
    let h' = record h { buckets = after } in
    let rest = k h' in if allowed then rest else (write_error rate_limited, h')

-- `if CheckAndMarkReplay(key) { return replay detected }`
unfoldable pub unless_replay : ℕ → Bytes → Shard → (Shard → Response × Shard) → Response × Shard
unless_replay store_now key h k =
    let (seen, s) = check_and_mark_replay store_now key h.store in
    let h' = record h { store = s } in
    let rest = k h' in
    if seen
    then (
      write_error
          record { code = err_replay_detected; detail = "replay detected"; retry_after = 0 },
      h',
    )
    else rest

-- The pure front of a handler: an error ends it.
unfoldable pub front {ℓ} :
    {A : Type ℓ} → Result A → Shard → (A → Response × Shard) → Response × Shard
front (err e) h k = (write_error e, h)
front (ok a) h k = k a

unfoldable pub replay_key : (Bytes → Bytes) → Bytes → Bytes → Bytes → Bytes
replay_key sha256 domain pub_key nonce = to_array 32 (sha256 (domain ++ (pub_key ++ nonce)))
