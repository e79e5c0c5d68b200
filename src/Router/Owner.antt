-- ===== src/Router/Owner.antt =====
-- The shard of a mailbox (server/router/handler.go): owner, lookup by URL, and the era walk.
use nex_talk_file_relay.Base.{
  ℕ, zero, suc, ◌%◌, ◌<◌, ◌≡◌, refl, ◌⊎◌, inl, inr, arith, Bool, true, false, not, List, [], ◌∷◌,
  none, some, Option, Bytes, bytes_eq, bytes_eq_refl, bytes_eq_iff, All, keep, length, get_or,
  if◌then◌else◌, Bool-cases, subst, sym, if_rule,
}
use nex_talk_file_relay.Protocol.Errors.{Result}
use nex_talk_file_relay.Protocol.Codec.{Field}
use nex_talk_file_relay.Protocol.Control.{Resolve, marshal_resolve_response}
use nex_talk_file_relay.Protocol.Auth.Derived.{mailbox_id_from_pub}
use nex_talk_file_relay.Store.Types.{to_array}
use nex_talk_file_relay.Store.Mailboxes.{mailbox_exists}
use nex_talk_file_relay.Router.State.{
  ShardRef, Router, write_result, hash_point, owner, shard_urls, find_shard,
}
use nex_talk_file_relay.Router.Handler.{first_with, walk_order, or_primary, resolve_mailbox}

-- The shard with this URL has the mailbox.
unfoldable pub has_mailbox : ℕ → Bytes → List ShardRef → Bytes → Bool
has_mailbox now id shards u = elim (find_shard u shards) [
  | none ↦ false
  | some ref ↦ mailbox_exists now id ref.store
]

-- The URL names one of the shards.
unfoldable pub is_shard : List ShardRef → Bytes → Bool
is_shard shards u = elim (find_shard u shards) [ none ↦ false | some ref ↦ true ]

is_shard-later :
    (s : ShardRef) (ss : List ShardRef) (u : Bytes)
    → is_shard ss u ≡ true
    → is_shard (s ∷ ss) u ≡ true
unfolding is_shard find_shard
is_shard-later s ss u h = ground arith

is_shard-nth :
    (ss : List ShardRef) (i : ℕ) → i < length ss → is_shard ss (get_or (shard_urls ss) i []) ≡ true
unfolding shard_urls is_shard find_shard
is_shard-nth [] i h = absurd (omega arith)
is_shard-nth (s ∷ ss) zero h = ground (arith, bytes_eq_refl s.url)
is_shard-nth (s ∷ ss) (suc i) h = is_shard-later s ss _ (is_shard-nth ss i (omega arith))

pub length-shard_urls : (ss : List ShardRef) → length (shard_urls ss) ≡ length ss
unfolding shard_urls
length-shard_urls [] = refl
length-shard_urls (s ∷ ss) = omega (arith, length-shard_urls ss)

-- Every mailbox has an owner among the shards, if there is a shard.
pub is_shard-owner :
    (sha256 : Bytes → Bytes) (id : Bytes) (ss : List ShardRef)
    → 0 < length ss
    → is_shard ss (owner sha256 id (shard_urls ss)) ≡ true
unfolding owner shard_urls
is_shard-owner sha256 id [] h = absurd (omega arith)
is_shard-owner sha256 id (s ∷ ss) h =
    let i = hash_point (to_array 32 (sha256 id)) % length (s.url ∷ shard_urls ss) in
    is_shard-nth (s ∷ ss) i (omega (arith, length-shard_urls ss))

pub first_with-step :
    (now : ℕ) (id u : Bytes) (us : List Bytes) (shards : List ShardRef)
    → first_with now id (u ∷ us) shards
      ≡ (if has_mailbox now id shards u then some u else first_with now id us shards)
unfolding first_with has_mailbox
first_with-step now id u us shards = ground arith

-- What the walk finds has the mailbox; if it finds nothing, no shard on its way has it.
Walked : ℕ → Bytes → List ShardRef → List Bytes → Option Bytes → Type 0
Walked now id shards us none = All (λ v. has_mailbox now id shards v ≡ false) us
Walked now id shards us (some u) = has_mailbox now id shards u ≡ true

Walked-later :
    (now : ℕ) (id u : Bytes) (us : List Bytes) (shards : List ShardRef) (o : Option Bytes)
    → has_mailbox now id shards u ≡ false
    → Walked now id shards us o
    → Walked now id shards (u ∷ us) o
unfolding Walked
Walked-later now id u us shards none e h = (e, h)
Walked-later now id u us shards (some v) e h = h

Walked-empty :
    (now : ℕ) (id : Bytes) (shards : List ShardRef)
    → Walked now id shards [] (first_with now id [] shards)
unfolding Walked first_with
Walked-empty now id shards = tt

first_with-Walked :
    (now : ℕ) (id : Bytes) (us : List Bytes) (shards : List ShardRef)
    → Walked now id shards us (first_with now id us shards)
unfolding Walked
first_with-Walked now id [] shards = Walked-empty now id shards
first_with-Walked now id (u ∷ us) shards = rw (first_with-step now id u us shards) (
    if_rule (Walked now id shards (u ∷ us)) (has_mailbox now id shards u) (λ found. found)
      λ e.
        Walked-later now id u us shards (first_with now id us shards) e
          (first_with-Walked now id us shards))

-- What holds on the walk holds of every shard.
All-walk_order {ℓ} :
    (P : Bytes → Type ℓ) (primary : Bytes) (urls : List Bytes)
    → P primary
    → All P (keep (λ u. not (bytes_eq u primary)) urls)
    → All P urls
All-walk_order P primary [] p h = tt
All-walk_order P primary (u ∷ us) p h = elim (Bool-cases (bytes_eq u primary)) [
  | inl same ↦
      let later =
        subst
          (λ b. All P (
            if not b
            then u ∷ keep (λ u. not (bytes_eq u primary)) us
            else keep (λ u. not (bytes_eq u primary)) us))
          same h in
      (subst P (sym ((bytes_eq_iff u primary).0 same)) p, All-walk_order P primary us p later)
  | inr different ↦
      let here =
        subst
          (λ b. All P (
            if not b
            then u ∷ keep (λ u. not (bytes_eq u primary)) us
            else keep (λ u. not (bytes_eq u primary)) us))
          different h in
      (here.0, All-walk_order P primary us p here.1)
]

-- The shard whose URL a resolution answers: one that has the mailbox, or else the primary one, and
-- then no shard has it.
abbrev pub IsResolved : ℕ → Bytes → List ShardRef → Bytes → Bytes → Type 0
IsResolved now id shards primary u =
    (has_mailbox now id shards u ≡ true)
    ⊎ ((u ≡ primary) × All (λ v. has_mailbox now id shards v ≡ false) (shard_urls shards))

is_resolved :
    (now : ℕ) (id : Bytes) (shards : List ShardRef) (primary : Bytes) (o : Option Bytes)
    → Walked now id shards (walk_order primary (shard_urls shards)) o
    → IsResolved now id shards primary (or_primary primary o)
unfolding Walked walk_order or_primary
is_resolved now id shards primary none w =
    inr (refl, All-walk_order _ primary (shard_urls shards) w.0 w.1)
is_resolved now id shards primary (some u) w = inl w

has_mailbox-is_shard :
    (now : ℕ) (id : Bytes) (shards : List ShardRef) (u : Bytes)
    → has_mailbox now id shards u ≡ true
    → is_shard shards u ≡ true
unfolding has_mailbox is_shard
has_mailbox-is_shard now id shards u h = ground arith

IsResolved-is_shard :
    (now : ℕ) (id : Bytes) (shards : List ShardRef) (primary u : Bytes)
    → is_shard shards primary ≡ true
    → IsResolved now id shards primary u
    → is_shard shards u ≡ true
IsResolved-is_shard now id shards primary u p (inl found) =
    has_mailbox-is_shard now id shards u found
IsResolved-is_shard now id shards primary u p (inr (same, none_has)) = rw same p

module _ (sha256 : Bytes → Bytes) (hmac : Bytes → Bytes → Bytes)
    (encode_id : List Field → Result Bytes) where
  -- A configured router answers every resolution with a shard of its own: one that has the mailbox,
  -- or, if no shard has it, the owner.
  pub resolve_mailbox-IsResolved :
      (store_now : ℕ) (req : Resolve) (h : Router)
      → 0 < length h.secret
      → 0 < length h.shards
      → let id = mailbox_id_from_pub hmac h.secret req.client_pub in
        let primary = owner sha256 id (shard_urls h.shards) in
        (u : Bytes) × (resolve_mailbox sha256 hmac encode_id store_now req h
          ≡ write_result 55 (
              marshal_resolve_response encode_id
                record { mailbox_id = id; shard_url = u; era = 0; table_version = h.version }))
        × (is_shard h.shards u ≡ true)
        × IsResolved store_now id h.shards primary u
  unfolding resolve_mailbox
  resolve_mailbox-IsResolved store_now req h keyed some_shard =
      let id = mailbox_id_from_pub hmac h.secret req.client_pub in
      let urls = shard_urls h.shards in
      let primary = owner sha256 id urls in
      let o = first_with store_now id (walk_order primary urls) h.shards in
      let walked =
        is_resolved store_now id h.shards primary o
          (first_with-Walked store_now id (walk_order primary urls) h.shards) in
      (
        or_primary primary o,
        ground arith,
        IsResolved-is_shard store_now id h.shards primary _
            (is_shard-owner sha256 id h.shards some_shard) walked,
        walked,
      )
