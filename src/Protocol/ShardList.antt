-- ===== src/Protocol/ShardList.antt =====
-- The list of shard URLs on the wire: `encodeShardList` and `decodeShardList` of
-- protocol/control.go. A Go string is the list of its bytes.
use nex_talk_file_relay.Base.{
  ℕ, zero, suc, ◌+◌, ◌*◌, ◌/◌, ◌%◌, ◌<◌, ◌≤◌, ◌≡◌, ◌≢◌, ◌↔◌, refl, arith, ◌||◌, List, [], ◌∷◌, ◌++◌,
  Bytes, All, ltb, ◌==◌, length, take, drop, length-append, length-drop, length-take, All-drop,
  subst, take-append_exact, drop-append_exact, append-take-drop, if◌then◌else◌, Bool-cases, inl,
  inr,
}
use nex_talk_file_relay.Protocol.Errors.{Result, ok, fail, ◌>>=◌, >>=-eq-ok, Result-cases}
use nex_talk_file_relay.Protocol.Wire.{short_body}

unfoldable pub encode_shard_list : List Bytes → Bytes
encode_shard_list [] = []
encode_shard_list (s ∷ ss) = (length s / 256 % 256) ∷ (length s % 256) ∷ (s ++ encode_shard_list ss)

-- What the model answers when the rounds run out before the blob does; no error of the source has the
-- code 0.
abbrev pub out_of_rounds : Result (List Bytes)
out_of_rounds = fail 0 "out of rounds"

-- The loop of `decodeShardList` over what is left of the blob, for `fuel` rounds at most.
unfoldable pub decode_shards : ℕ → Bytes → Result (List Bytes)
decode_shards fuel [] = ok []
decode_shards zero blob = out_of_rounds
decode_shards (suc fuel) (a ∷ []) = short_body
decode_shards (suc fuel) (a ∷ b ∷ rest) =
    let n = a * 256 + b in
    let out = decode_shards fuel (drop n rest) in
    if n == 0 || ltb (length rest) n then short_body else (out >>= λ ss. ok (take n rest ∷ ss))

-- A round takes three bytes at least, so the length of the blob is fuel enough.
unfoldable pub decode_shard_list : Bytes → Result (List Bytes)
decode_shard_list blob = decode_shards (length blob) blob

-- A URL that the two length bytes can announce.
abbrev pub IsListed : Bytes → Type 0
IsListed s = (0 < length s) × (length s < 65536)

abbrev pub IsByte : ℕ → Type 0
IsByte b = b < 256

shards_agree :
    (f g : ℕ) (blob : Bytes)
    → length blob ≤ f
    → length blob ≤ g
    → decode_shards f blob ≡ decode_shards g blob
unfolding decode_shards
shards_agree f g [] hf hg = refl
shards_agree (suc f) (suc g) (a ∷ []) hf hg = refl
shards_agree (suc f) (suc g) (a ∷ b ∷ rest) hf hg =
    let n = a * 256 + b in
    let drops = length-drop n rest in
    rw (shards_agree f g (drop n rest) (omega arith) (omega arith)) refl
shards_agree zero g (a ∷ blob) hf hg = absurd (omega arith)
shards_agree (suc f) zero (a ∷ blob) hf hg = absurd (omega arith)

shards_finish :
    (fuel : ℕ) (blob : Bytes) → length blob ≤ fuel → decode_shards fuel blob ≢ out_of_rounds
unfolding decode_shards
shards_finish fuel [] h e = cc
shards_finish zero (a ∷ blob) h e = absurd (omega arith)
shards_finish (suc fuel) (a ∷ []) h e = ground (arith, e)
shards_finish (suc fuel) (a ∷ b ∷ rest) h e =
    let n = a * 256 + b in
    let later = shards_finish fuel (drop n rest) (omega (arith, length-drop n rest)) in
    elim (Result-cases (decode_shards fuel (drop n rest))) [
      | inl (stop, bad) ↦ ground (arith, e, later, bad)
      | inr (ss, good) ↦ ground (arith, e, good)
    ]

-- The loop ends of itself: with as many rounds as the blob has bytes, or more, it is never the rounds
-- that run out, and the result does not depend on how many there are.
pub decode_shards-fuel :
    (fuel : ℕ) (blob : Bytes)
    → length blob ≤ fuel
    → (decode_shards fuel blob ≢ out_of_rounds) × (decode_shards fuel blob ≡ decode_shard_list blob)
unfolding decode_shard_list
decode_shards-fuel fuel blob h =
    (shards_finish fuel blob h, shards_agree fuel (length blob) blob h (omega arith))

decode_shards-encode :
    (fuel : ℕ) (ss : List Bytes)
    → length (encode_shard_list ss) ≤ fuel
    → All IsListed ss
    → decode_shards fuel (encode_shard_list ss) ≡ ok ss
unfolding decode_shards encode_shard_list
decode_shards-encode fuel [] h l = refl
decode_shards-encode zero (s ∷ ss) h l = absurd (omega arith)
decode_shards-encode (suc fuel) (s ∷ ss) h l =
    let n = length s / 256 % 256 * 256 + length s % 256 in
    let same : n ≡ length s = omega (arith, l.0.1) in
    let rest = length-append s (encode_shard_list ss) in
    rw
      (
        same,
        drop-append_exact s (encode_shard_list ss),
        take-append_exact s (encode_shard_list ss),
        decode_shards-encode fuel ss (omega arith) l.1,
      )
      (ground (arith, rest, l.0.0))

pub decode_shard_list-encode :
    (ss : List Bytes) → All IsListed ss → decode_shard_list (encode_shard_list ss) ≡ ok ss
unfolding decode_shard_list
decode_shard_list-encode ss l =
    decode_shards-encode (length (encode_shard_list ss)) ss (omega arith) l

encode-decode_shards :
    (fuel : ℕ) (blob : Bytes) (ss : List Bytes)
    → All IsByte blob
    → decode_shards fuel blob ≡ ok ss
    → (encode_shard_list ss ≡ blob) × All IsListed ss
unfolding decode_shards encode_shard_list
encode-decode_shards fuel [] ss bs h = let e : ss ≡ [] = cc in rw e (refl, tt)
encode-decode_shards zero (a ∷ blob) ss bs h = cc
encode-decode_shards (suc fuel) (a ∷ []) ss bs h = cc
encode-decode_shards (suc fuel) (a ∷ b ∷ rest) ss bs h =
    let n = a * 256 + b in
    elim (Bool-cases (n == 0 || ltb (length rest) n)) [
      | inl bad ↦ absurd (ground arith)
      | inr good ↦
          let next : (decode_shards fuel (drop n rest) >>= λ out. ok (take n rest ∷ out)) ≡ ok ss =
            ground arith in
          let (out, decoded, e) = >>=-eq-ok (decode_shards fuel (drop n rest)) _ next in
          let parts : (take n rest ∷ out) ≡ ss = cc in
          let (same, listed) =
            encode-decode_shards fuel (drop n rest) out (All-drop IsByte n rest bs.1.1) decoded in
          let size : length (take n rest) ≡ n = ground (arith, length-take n rest) in
          let high : n / 256 % 256 ≡ a = omega (arith, bs.0, bs.1.0) in
          let low : n % 256 ≡ b = omega (arith, bs.0, bs.1.0) in
          subst (λ l. (encode_shard_list l ≡ (a ∷ b ∷ rest)) × All IsListed l) parts
            (
              rw (size, same, append-take-drop n rest, high, low) refl,
              (ground (arith, bs.0, bs.1.0), listed),
            )
    ]

-- Decoding is exactly the inverse of encoding: a blob of bytes is decoded to a list of URLs if and
-- only if it is the encoding of this list, and no URL of it is empty or has 2 ^ 16 bytes or more.
pub decode_shard_list_iff :
    (blob : Bytes) (ss : List Bytes)
    → All IsByte blob
    → (decode_shard_list blob ≡ ok ss) ↔ ((encode_shard_list ss ≡ blob) × All IsListed ss)
unfolding decode_shard_list
decode_shard_list_iff blob ss bs = (
  encode-decode_shards (length blob) blob ss bs,
  λ h. subst (λ b. decode_shards (length b) b ≡ ok ss) h.0 (decode_shard_list-encode ss h.1),
)
