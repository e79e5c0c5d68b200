-- ===== src/Store/Replay.antt =====
-- The replay cache of server/storage/memstore.go, and the one of server/router/handler.go, which is
-- the same code over its own map.
pub mod Window
use nex_talk_file_relay.Base.{
  ℕ, ◌+◌, Bool, true, false, List, [], ◌∷◌, none, some, Bytes, bytes_key, ltb, leb, if◌then◌else◌,
}
use nex_talk_file_relay.Base.Map.{Map, lookup, insert}
use nex_talk_file_relay.Protocol.Limits.{replay_window_seconds}
use nex_talk_file_relay.Store.Types.{MemStore, millis}

-- The loop that deletes the keys that have run out.
unfoldable pub prune_replay : ℕ → Map Bytes ℕ → Map Bytes ℕ
prune_replay now [] = []
prune_replay now ((k, exp) ∷ m) =
    if leb exp now then prune_replay now m else (k, exp) ∷ prune_replay now m

-- `if exp, ok := s.replay[key]; ok && now < exp`
unfoldable pub is_seen : ℕ → Bytes → Map Bytes ℕ → Bool
is_seen now key m = elim (lookup key m) [ none ↦ false | some exp ↦ ltb now exp ]

-- True if the key was seen within the window; if not, it is marked.
unfoldable pub check_and_mark : ℕ → Bytes → Map Bytes ℕ → Bool × Map Bytes ℕ
check_and_mark now key m =
    if is_seen now key m
    then (true, m)
    else (false, insert key (now + millis replay_window_seconds) (prune_replay now m))

unfoldable pub check_and_mark_replay : ℕ → Bytes → MemStore → Bool × MemStore
check_and_mark_replay now key s =
    let (seen, m) = check_and_mark now key s.replay in (seen, record s { replay = m })
