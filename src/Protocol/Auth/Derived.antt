-- ===== src/Protocol/Auth/Derived.antt =====
-- What the router derives and signs (protocol/auth.go): mailbox IDs, and the bytes of the routing
-- table. `hmac` is HMAC-SHA256 of a key and a message.
use nex_talk_file_relay.Base.{
  ℕ, zero, suc, ◌+◌, ◌/◌, ◌%◌, ◌<◌, ◌≡◌, refl, arith, ◌&&◌, List, [], ◌∷◌, ◌++◌, Bytes, All, leb,
  length, length-append, length-take, replicate, take, get_or, if◌then◌else◌,
}
use nex_talk_file_relay.Protocol.Wire.{put_u32, put_u64, get_u32-put_u32}
use nex_talk_file_relay.Protocol.ShardList.{encode_shard_list, IsByte}
use nex_talk_file_relay.Protocol.Auth.{domain_prefix}
use nex_talk_file_relay.Protocol.Auth.Canonical.{append-cancel, put_u64-inj, length-put_u64}
use nex_talk_file_relay.Store.Types.{to_array}
use nex_talk_file_relay.Shard.Limiter.{hex, hex_digit}

-- `0123456789abcdef`
abbrev pub hextable : Bytes
hextable = 48 ∷ 49 ∷ 50 ∷ 51 ∷ 52 ∷ 53 ∷ 54 ∷ 55 ∷ 56 ∷ 57 ∷ 97 ∷ 98 ∷ 99 ∷ 100 ∷ 101 ∷ 102 ∷ []

-- The loop of `MailboxIDFromPub`.
unfoldable pub lower_hex : Bytes → Bytes
lower_hex [] = []
lower_hex (b ∷ bs) = get_or hextable (b / 16) 0 ∷ get_or hextable (b % 16) 0 ∷ lower_hex bs

-- strings.ToLower of a string in ASCII
unfoldable pub to_lower : Bytes → Bytes
to_lower [] = []
to_lower (c ∷ cs) = (if leb 65 c && leb c 90 then c + 32 else c) ∷ to_lower cs

to_lower-hex_digit : (d : ℕ) → d < 16 → to_lower (hex_digit d ∷ []) ≡ (get_or hextable d 0 ∷ [])
unfolding to_lower
to_lower-hex_digit zero h = refl
to_lower-hex_digit (suc zero) h = refl
to_lower-hex_digit (suc (suc zero)) h = refl
to_lower-hex_digit (suc (suc (suc zero))) h = refl
to_lower-hex_digit (suc (suc (suc (suc zero)))) h = refl
to_lower-hex_digit (suc (suc (suc (suc (suc zero))))) h = refl
to_lower-hex_digit (suc (suc (suc (suc (suc (suc zero)))))) h = refl
to_lower-hex_digit (suc (suc (suc (suc (suc (suc (suc zero))))))) h = refl
to_lower-hex_digit (suc (suc (suc (suc (suc (suc (suc (suc zero)))))))) h = refl
to_lower-hex_digit (suc (suc (suc (suc (suc (suc (suc (suc (suc zero))))))))) h = refl
to_lower-hex_digit (suc (suc (suc (suc (suc (suc (suc (suc (suc (suc zero)))))))))) h = refl
to_lower-hex_digit (suc (suc (suc (suc (suc (suc (suc (suc (suc (suc (suc zero))))))))))) h = refl
to_lower-hex_digit (suc (suc (suc (suc (suc (suc (suc (suc (suc (suc (suc (suc zero)))))))))))) h =
    refl
to_lower-hex_digit
      (suc (suc (suc (suc (suc (suc (suc (suc (suc (suc (suc (suc (suc zero))))))))))))) h =
    refl
to_lower-hex_digit
      (suc (suc (suc (suc (suc (suc (suc (suc (suc (suc (suc (suc (suc (suc zero)))))))))))))) h =
    refl
to_lower-hex_digit
      (suc (suc (suc (suc (suc (suc (suc (suc (suc (suc (suc (suc (suc (suc (suc zero)))))))))))))))
      h =
    refl
to_lower-hex_digit
      (suc
        (suc (suc (suc (suc (suc (suc (suc (suc (suc (suc (suc (suc (suc (suc (suc d))))))))))))))))
      h =
    absurd (omega arith)

to_lower-hex : (pub_key : Bytes) → All IsByte pub_key → to_lower (hex pub_key) ≡ lower_hex pub_key
unfolding lower_hex to_lower hex
to_lower-hex [] h = refl
to_lower-hex (b ∷ bs) h = cc (
  to_lower-hex_digit (b / 16) (omega (arith, h.0)),
  to_lower-hex_digit (b % 16) (omega arith),
  to_lower-hex bs h.1,
)

module _ (hmac : Bytes → Bytes → Bytes) where
  unfoldable pub mailbox_id : Bytes → Bytes → Bytes
  mailbox_id server_secret ed_pub_hex =
      to_array 16 (take 16 (hmac server_secret (to_lower ed_pub_hex)))

  unfoldable pub mailbox_id_from_pub : Bytes → Bytes → Bytes
  mailbox_id_from_pub server_secret pub_key =
      to_array 16 (take 16 (hmac server_secret (lower_hex pub_key)))

  -- The ID that is derived from a key is the one that is derived from its hex form.
  pub mailbox_id-hex :
      (server_secret pub_key : Bytes)
      → All IsByte pub_key
      → mailbox_id server_secret (hex pub_key) ≡ mailbox_id_from_pub server_secret pub_key
  unfolding mailbox_id mailbox_id_from_pub
  mailbox_id-hex server_secret pub_key h = rw (to_lower-hex pub_key h) refl

-- `FR1/ROUTING-TABLE`
abbrev pub domain_routing_table : Bytes
domain_routing_table =
    domain_prefix ++ (82 ∷ 79 ∷ 85 ∷ 84 ∷ 73 ∷ 78 ∷ 71 ∷ 45 ∷ 84 ∷ 65 ∷ 66 ∷ 76 ∷ 69 ∷ 0 ∷ [])

put_u32-inj : (a b : ℕ) → a < 4294967296 → b < 4294967296 → put_u32 a ≡ put_u32 b → a ≡ b
put_u32-inj a b ha hb h = grind (arith, get_u32-put_u32 a ha, get_u32-put_u32 b hb)

length-put_u32 : (a b : ℕ) → length (put_u32 a) ≡ length (put_u32 b)
unfolding put_u32
length-put_u32 a b = refl

module _ (sha256 : Bytes → Bytes) where
  -- The hash is written the two length bytes and the bytes of each URL, in order: together the bytes
  -- of `encodeShardList`.
  unfoldable pub sha256_shard_list : List Bytes → Bytes
  sha256_shard_list shards = to_array 32 (sha256 (encode_shard_list shards))

  unfoldable pub canonical_routing_table : ℕ → ℕ → ℕ → ℕ → List Bytes → Bytes → Bytes
  canonical_routing_table version generated expires algo shards router_pub =
      domain_routing_table
      ++ (put_u32 version
          ++ (put_u64 generated
              ++ (put_u64 expires ++ ((algo ∷ []) ++ (sha256_shard_list shards ++ router_pub)))))

  length-sha256_shard_list : (ss : List Bytes) → length (sha256_shard_list ss) ≡ 32
  unfolding sha256_shard_list
  length-sha256_shard_list ss =
      let digest = sha256 (encode_shard_list ss) in
      let filled = length-append digest (replicate 32 0) in
      ground (arith, length-take 32 (digest ++ replicate 32 0), filled)

  -- No two routing tables have the same bytes to sign, up to the hash of the shard list: the
  -- signature fixes version, times, algorithm and router key, which have the widths of their types.
  pub canonical_routing_table-inj :
      (v w : ℕ) (g h e f : ℕ) (a b : ℕ) (ss ts : List Bytes) (p q : Bytes)
      → v < 4294967296
      → w < 4294967296
      → g < 18446744073709551616
      → h < 18446744073709551616
      → e < 18446744073709551616
      → f < 18446744073709551616
      → canonical_routing_table v g e a ss p ≡ canonical_routing_table w h f b ts q
      → (v ≡ w)
        × (g ≡ h)
        × (e ≡ f)
        × (a ≡ b)
        × (sha256_shard_list ss ≡ sha256_shard_list ts)
        × (p ≡ q)
  unfolding canonical_routing_table
  canonical_routing_table-inj v w g h e f a b ss ts p q hv hw hg hh he hf same =
      let (start, r0) = append-cancel domain_routing_table _ domain_routing_table _ refl same in
      let (version, r1) = append-cancel (put_u32 v) _ (put_u32 w) _ (length-put_u32 v w) r0 in
      let (made, r2) =
        append-cancel (put_u64 g) _ (put_u64 h) _ (cc (length-put_u64 g, length-put_u64 h)) r1 in
      let (ends, r3) =
        append-cancel (put_u64 e) _ (put_u64 f) _ (cc (length-put_u64 e, length-put_u64 f)) r2 in
      let (algo, r4) = append-cancel (a ∷ []) _ (b ∷ []) _ refl r3 in
      let (urls, key) =
        append-cancel (sha256_shard_list ss) _ (sha256_shard_list ts) _
          (cc (length-sha256_shard_list ss, length-sha256_shard_list ts)) r4 in
      (
        put_u32-inj v w hv hw version,
        put_u64-inj g h hg hh made,
        put_u64-inj e f he hf ends,
        cc,
        urls,
        key,
      )
