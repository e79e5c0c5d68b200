-- ===== src/Store/Replay/Window.antt =====
-- The replay cache of server/storage/memstore.go over a sequence of checks.
use nex_talk_file_relay.Base.{
  ℕ, ◌+◌, ◌<◌, ◌≤◌, ◌≡◌, refl, true, false, not, ◌&&◌, List, [], ◌∷◌, none, some, Bytes, bytes_eq,
  bytes_eq_iff, bytes_eq_refl, bytes_key, arith, ltb, leb, if◌then◌else◌,
}
use nex_talk_file_relay.Base.Map.{Map, lookup, insert, lookup-insert}
use nex_talk_file_relay.Protocol.Limits.{replay_window_seconds}
use nex_talk_file_relay.Store.Types.{millis}
use nex_talk_file_relay.Store.Replay.{prune_replay, is_seen, check_and_mark}

-- Every key stands once, as in a Go map.
abbrev pub IsDistinct : Map Bytes ℕ → Type 0
IsDistinct [] = Unit {0}
IsDistinct ((k, v) ∷ m) = (lookup k m ≡ none) × IsDistinct m

lookup-prune_replay :
    (now : ℕ) (j : Bytes) (m : Map Bytes ℕ)
    → IsDistinct m
    → lookup j (prune_replay now m)
      ≡ elim (lookup j m) [ none ↦ none | some e ↦ if leb e now then none else some e ]
unfolding lookup prune_replay
lookup-prune_replay now j [] d = refl
lookup-prune_replay now j ((k, e) ∷ m) d =
    ground (arith, bytes_eq_iff k j, lookup-prune_replay now j m d.1)

pub prune_replay-IsDistinct :
    (now : ℕ) (m : Map Bytes ℕ) → IsDistinct m → IsDistinct (prune_replay now m)
unfolding prune_replay
prune_replay-IsDistinct now [] d = tt
prune_replay-IsDistinct now ((k, e) ∷ m) d =
    ground (arith, lookup-prune_replay now k m d.1, prune_replay-IsDistinct now m d.1)

insert-IsDistinct : (k : Bytes) (e : ℕ) (m : Map Bytes ℕ) → IsDistinct m → IsDistinct (insert k e m)
unfolding insert lookup
insert-IsDistinct k e [] d = (refl, tt)
insert-IsDistinct k e ((j, v) ∷ m) d =
    ground (
      arith,
      insert-IsDistinct k e m d.1,
      lookup-insert k j e m,
      bytes_eq_iff j k,
      bytes_eq_iff k j,
    )

pub check_and_mark-IsDistinct :
    (now : ℕ) (key : Bytes) (m : Map Bytes ℕ)
    → IsDistinct m
    → IsDistinct (check_and_mark now key m).1
unfolding check_and_mark
check_and_mark-IsDistinct now key m d = ground (
  arith,
  insert-IsDistinct key (now + millis replay_window_seconds) (prune_replay now m),
  prune_replay-IsDistinct now m d,
)

-- What a check changes of what any later check sees, in a cache where every key stands once: if the
-- key was new, it is refused until the window ends; every other key is seen as before.
is_seen-check_and_mark :
    (now later : ℕ) (key j : Bytes) (m : Map Bytes ℕ)
    → IsDistinct m
    → now ≤ later
    → is_seen later j (check_and_mark now key m).1 ≡ (
        if not (is_seen now key m) && bytes_eq key j
        then ltb later (now + millis replay_window_seconds)
        else is_seen later j m)
unfolding is_seen check_and_mark
is_seen-check_and_mark now later key j m d h = ground (
  arith,
  lookup-insert key j (now + millis replay_window_seconds) (prune_replay now m),
  lookup-prune_replay now j m d,
  bytes_eq_iff key j,
)

-- Checks of any keys, each with its time.
unfoldable pub run_checks : List (ℕ × Bytes) → Map Bytes ℕ → Map Bytes ℕ
run_checks [] m = m
run_checks ((now, key) ∷ cs) m = run_checks cs (check_and_mark now key m).1

-- The times do not fall, from `start` to `end`.
abbrev pub InOrder : ℕ → List (ℕ × Bytes) → ℕ → Type 0
InOrder start [] end = start ≤ end
InOrder start ((now, key) ∷ cs) end = (start ≤ now) × InOrder now cs end

pub InOrder-le : (start : ℕ) (cs : List (ℕ × Bytes)) (end : ℕ) → InOrder start cs end → start ≤ end
InOrder-le start [] end h = h
InOrder-le start ((now, key) ∷ cs) end h = omega (arith, InOrder-le now cs end h.1)

is_seen-earlier :
    (now later : ℕ) (j : Bytes) (m : Map Bytes ℕ)
    → now ≤ later
    → is_seen later j m ≡ true
    → is_seen now j m ≡ true
unfolding is_seen
is_seen-earlier now later j m le h = ground arith

check_and_mark-is_seen :
    (now : ℕ) (key : Bytes) (m : Map Bytes ℕ) → (check_and_mark now key m).0 ≡ is_seen now key m
unfolding check_and_mark
check_and_mark-is_seen now key m = ground arith

-- A key that would be refused at the end is still refused then, after any checks in between.
run_checks-seen :
    (start end : ℕ) (j : Bytes) (cs : List (ℕ × Bytes)) (m : Map Bytes ℕ)
    → IsDistinct m
    → InOrder start cs end
    → is_seen end j m ≡ true
    → is_seen end j (run_checks cs m) ≡ true
unfolding run_checks
run_checks-seen start end j [] m d o h = h
run_checks-seen start end j ((now, key) ∷ cs) m d o h =
    run_checks-seen now end j cs (check_and_mark now key m).1
      (check_and_mark-IsDistinct now key m d) o.1
      (ground (
        arith,
        is_seen-check_and_mark now end key j m d (InOrder-le now cs end o.1),
        is_seen-earlier now end j m (InOrder-le now cs end o.1),
        bytes_eq_iff key j,
      ))

-- In a cache where every key stands once, a key that a check has accepted is refused by every check
-- within the window after it, with any number of checks of any keys in between, at times that do not
-- fall.
pub check_and_mark-replay :
    (start end : ℕ) (key : Bytes) (cs : List (ℕ × Bytes)) (m : Map Bytes ℕ)
    → IsDistinct m
    → (check_and_mark start key m).0 ≡ false
    → InOrder start cs end
    → end < start + millis replay_window_seconds
    → (check_and_mark end key (run_checks cs (check_and_mark start key m).1)).0 ≡ true
check_and_mark-replay start end key cs m d fresh o soon =
    let le = InOrder-le start cs end o in
    let first : is_seen end key (check_and_mark start key m).1 ≡ true = ground (
      arith,
      is_seen-check_and_mark start end key key m d le,
      check_and_mark-is_seen start key m,
      bytes_eq_refl key,
    ) in
    ground (
      arith,
      run_checks-seen start end key cs _ (check_and_mark-IsDistinct start key m d) o first,
      check_and_mark-is_seen end key (run_checks cs (check_and_mark start key m).1),
    )

-- In a cache where every key stands once, a key that a check has accepted is accepted again after the
-- window, if no check comes in between.
check_and_mark-reuse :
    (start end : ℕ) (key : Bytes) (m : Map Bytes ℕ)
    → IsDistinct m
    → (check_and_mark start key m).0 ≡ false
    → start + millis replay_window_seconds ≤ end
    → (check_and_mark end key (check_and_mark start key m).1).0 ≡ false
check_and_mark-reuse start end key m d fresh late = ground (
  arith,
  is_seen-check_and_mark start end key key m d (omega arith),
  check_and_mark-is_seen start key m,
  check_and_mark-is_seen end key (check_and_mark start key m).1,
  bytes_eq_refl key,
)
