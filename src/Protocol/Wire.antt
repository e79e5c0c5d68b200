-- ===== src/Protocol/Wire.antt =====
-- The fixed-width integers and flat lists of protocol/schemas.go and protocol/transfers.go.
use nex_talk_file_relay.Base.{
  ap, ℕ, ◌+◌, ◌*◌, ◌/◌, ◌%◌, ◌<◌, ◌≡◌, refl, List, [], ◌∷◌, ◌++◌, Bytes, arith, All,
}
use nex_talk_file_relay.Protocol.Errors.{Result, ok, fail, ◌>>=◌, err_invalid_request}

-- binary.BigEndian.PutUint32
unfoldable pub put_u32 : ℕ → Bytes
put_u32 v = (v / 16777216 % 256) ∷ (v / 65536 % 256) ∷ (v / 256 % 256) ∷ (v % 256) ∷ []

-- uint32(b[0])<<24 | uint32(b[1])<<16 | ..., of bytes
unfoldable pub be_u32 : ℕ → ℕ → ℕ → ℕ → ℕ
be_u32 a b c d = a * 16777216 + b * 65536 + c * 256 + d

pub be_u32-put_u32 :
    (v : ℕ)
    → v < 4294967296
    → be_u32 (v / 16777216 % 256) (v / 65536 % 256) (v / 256 % 256) (v % 256) ≡ v
unfolding be_u32
be_u32-put_u32 v h = omega arith

-- A `[2]uint32` of a start and a count.
abbrev pub Range : Type 0
Range = ℕ × ℕ

unfoldable pub encode_ranges : List Range → Bytes
unfolding put_u32
encode_ranges [] = []
encode_ranges ((s, c) ∷ rs) = put_u32 s ++ put_u32 c ++ encode_ranges rs

-- The loop of `DecodeRanges`; a rest of one to seven bytes is what its first test refuses.
unfoldable pub decode_ranges : Bytes → Result (List Range)
unfolding be_u32
decode_ranges [] = ok []
decode_ranges (a ∷ b ∷ c ∷ d ∷ e ∷ f ∷ g ∷ h ∷ rest) = do
  rs ← decode_ranges rest
  ok ((be_u32 a b c d, be_u32 e f g h) ∷ rs)
decode_ranges _ = fail err_invalid_request "ranges corrupt"

-- Both numbers of a range fit 32 bits.
abbrev pub InU32 : Range → Type 0
InU32 r = (r.0 < 4294967296) × (r.1 < 4294967296)

-- What `EncodeRanges` packs, `DecodeRanges` unpacks, for ranges of 32-bit numbers.
pub decode_ranges-encode_ranges :
    (rs : List Range) → All InU32 rs → decode_ranges (encode_ranges rs) ≡ ok rs
unfolding decode_ranges encode_ranges
decode_ranges-encode_ranges [] h = refl
decode_ranges-encode_ranges ((s, c) ∷ rs) h =
    rw (decode_ranges-encode_ranges rs h.1, be_u32-put_u32 s h.0.0, be_u32-put_u32 c h.0.1) refl

-- binary.BigEndian.PutUint64
unfoldable pub put_u64 : ℕ → Bytes
unfolding put_u32
put_u64 v = put_u32 (v / 4294967296) ++ put_u32 (v % 4294967296)

-- What `AsProtocolError` makes of `nanopack.ErrShortBody`.
abbrev pub short_body {ℓ} : {A : Type ℓ} → Result A
short_body = fail err_invalid_request "invalid request"

unfoldable pub get_u32 : Bytes → Result ℕ
unfolding be_u32
get_u32 (a ∷ b ∷ c ∷ d ∷ []) = ok (be_u32 a b c d)
get_u32 _ = short_body

unfoldable pub get_u64 : Bytes → Result ℕ
unfolding be_u32
get_u64 (a ∷ b ∷ c ∷ d ∷ e ∷ f ∷ g ∷ h ∷ []) = ok (be_u32 a b c d * 4294967296 + be_u32 e f g h)
get_u64 _ = short_body

-- `len(f.Data) != 1`, and `f.Data[0]`
unfoldable pub get_u8 : Bytes → Result ℕ
get_u8 (b ∷ []) = ok b
get_u8 _ = short_body

pub get_u32-put_u32 : (v : ℕ) → v < 4294967296 → get_u32 (put_u32 v) ≡ ok v
unfolding get_u32 put_u32
get_u32-put_u32 v h = rw (be_u32-put_u32 v h) refl

pub get_u64-put_u64 : (v : ℕ) → v < 18446744073709551616 → get_u64 (put_u64 v) ≡ ok v
unfolding get_u64 put_u64 put_u32
get_u64-put_u64 v h =
    rw
      (be_u32-put_u32 (v / 4294967296) (omega arith), be_u32-put_u32 (v % 4294967296) (omega arith))
      (ap ok (omega arith))
