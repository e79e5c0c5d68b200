-- ===== src/Protocol/Auth/Skew.antt =====
-- The check of the clock of protocol/auth.go.
use nex_talk_file_relay.Base.{ℕ, ◌+◌, ◌^◌, ◌<◌, ◌≤◌, ◌≡◌, ◌↔◌, ◌⊎◌, arith}
use nex_talk_file_relay.Protocol.Errors.{ok}
use nex_talk_file_relay.Protocol.Auth.{check_skew, abs_int64, sub_int64}

-- On a clock that has passed 30 seconds a time stamp is accepted exactly if it is at most 30 seconds
-- from the clock, before or after it, or if it is the one number that lies 2 ^ 63 after the clock,
-- where the negation overflows.
pub check_skew_iff :
    (timestamp_ms now_millis : ℕ)
    → timestamp_ms < 2 ^ 64
    → 30000 ≤ now_millis
    → now_millis < 2 ^ 63
    → (check_skew timestamp_ms now_millis ≡ ok tt) ↔ (
        ((now_millis ≤ timestamp_ms + 30000) × (timestamp_ms ≤ now_millis + 30000))
        ⊎ (timestamp_ms ≡ now_millis + 2 ^ 63))
unfolding check_skew abs_int64 sub_int64
check_skew_iff timestamp_ms now_millis ht hl hn = ground arith
