-- ===== src/Shard/Limiter/Bound.antt =====
-- The limiter of server/shard/handler.go over a sequence of requests.
use nex_talk_file_relay.Base.{
  ℕ, ◌+◌, ◌<◌, ◌≤◌, ◌≡◌, true, false, ◌&&◌, List, [], ◌∷◌, some, Bytes, bytes_key, bytes_eq,
  bytes_eq_iff, bytes_eq_refl, Bool-cases, Option-cases, inl, inr, arith, leb, if◌then◌else◌,
}
use nex_talk_file_relay.Base.Map.{Map, lookup, insert, lookup-insert}
use nex_talk_file_relay.Shard.Limiter.{Window, allow}

-- Requests of any keys and limits, each with its time: how many of those for `key` get through.
unfoldable pub count_allowed : Bytes → List (ℕ × Bytes × ℕ) → Map Bytes Window → ℕ
count_allowed key [] buckets = 0
count_allowed key ((now, k, max) ∷ rs) buckets =
    let (ok_now, after) = allow k now max buckets in
    let rest = count_allowed key rs after in if ok_now && bytes_eq k key then rest + 1 else rest

-- The requests come before `end`, and those for `key` are held to the limit `max`.
abbrev pub Held : Bytes → ℕ → ℕ → List (ℕ × Bytes × ℕ) → Type 0
Held key max end [] = Unit {0}
Held key max end ((now, k, m) ∷ rs) =
    (now < end) × (bytes_eq k key ≡ true → m ≡ max) × Held key max end rs

allow-other :
    (key k : Bytes) (now max : ℕ) (buckets : Map Bytes Window)
    → bytes_eq k key ≡ false
    → lookup key (allow k now max buckets).1 ≡ lookup key buckets
unfolding allow
allow-other key k now max buckets ne =
    let fresh = lookup-insert k key (record { count = 1; reset_at = now + 60000 }) buckets in
    elim (Option-cases (lookup k buckets)) [
      | inl e ↦ ground (arith, fresh)
      | inr (w, e) ↦ ground (
        arith,
        fresh,
        lookup-insert k key (record { count = w.count + 1; reset_at = w.reset_at }) buckets,
      )
    ]

allow-full :
    (key : Bytes) (now max : ℕ) (buckets : Map Bytes Window) (w : Window)
    → 1 ≤ max
    → lookup key buckets ≡ some w
    → now < w.reset_at
    → max ≤ w.count
    → allow key now max buckets ≡ (false, buckets)
unfolding allow
allow-full key now max buckets w pos found open_still full = ground arith

allow-room :
    (key : Bytes) (now max : ℕ) (buckets : Map Bytes Window) (w : Window)
    → lookup key buckets ≡ some w
    → now < w.reset_at
    → w.count < max
    → allow key now max buckets
      ≡ (true, insert key record { count = w.count + 1; reset_at = w.reset_at } buckets)
unfolding allow
allow-room key now max buckets w found open_still room = ground arith

-- While a window of a key is open, no more requests for the key get through than the limit leaves,
-- whatever other keys are asked for in between. The limit is positive, the window is within it, and
-- all the requests come before the window ends and hold the key to this limit.
pub count_allowed-le :
    (key : Bytes) (max : ℕ) (rs : List (ℕ × Bytes × ℕ)) (buckets : Map Bytes Window) (w : Window)
    → 1 ≤ max
    → lookup key buckets ≡ some w
    → w.count ≤ max
    → Held key max w.reset_at rs
    → w.count + count_allowed key rs buckets ≤ max
unfolding count_allowed
count_allowed-le key max [] buckets w pos found le h = omega arith
count_allowed-le key max ((now, k, m) ∷ rs) buckets w pos found le h =
    elim (Bool-cases (bytes_eq k key)) [
      | inr ne ↦ ground (
        arith,
        count_allowed-le key max rs (allow k now m buckets).1 w pos,
        allow-other key k now m buckets ne,
      )
      | inl same ↦
          let e : k ≡ key = (bytes_eq_iff k key).0 same in
          elim (Bool-cases (leb max w.count)) [
            | inl full ↦ ground (
              arith,
              allow-full key now max buckets w,
              count_allowed-le key max rs buckets w pos found le h.2,
            )
            | inr room ↦
                let next : Window = record { count = w.count + 1; reset_at = w.reset_at } in
                ground (
                  arith,
                  allow-room key now max buckets w,
                  lookup-insert key key next buckets,
                  bytes_eq_refl key,
                  count_allowed-le key max rs (insert key next buckets) next pos,
                )
          ]
    ]
