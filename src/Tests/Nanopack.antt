-- ===== src/Tests/Nanopack.antt =====
-- A concrete encoding of fields that stands for nanopack's: each field is its ID, its length and its
-- data.
use nex_talk_file_relay.Base.{
  ℕ, zero, suc, ◌≤◌, ◌≡◌, refl, ap, arith, List, [], ◌∷◌, ◌++◌, Bytes, length, take, drop,
  length-append, take-append_exact, drop-append_exact,
}
use nex_talk_file_relay.Protocol.Errors.{Result, ok, fail, ◌>>=◌, err_invalid_request}
use nex_talk_file_relay.Protocol.Codec.{Field}
use nex_talk_file_relay.Protocol.Responses.Resumption.{field_bytes}

unfoldable pub flatten : List Field → Bytes
flatten [] = []
flatten ((id, d) ∷ fs) = id ∷ length d ∷ (d ++ flatten fs)

abbrev pub encode_id : List Field → Result Bytes
encode_id fs = ok (flatten fs)

unfoldable pub decode_within : ℕ → Bytes → Result (List Field)
decode_within fuel [] = ok []
decode_within zero body = fail err_invalid_request "invalid request"
decode_within (suc fuel) (id ∷ []) = fail err_invalid_request "invalid request"
decode_within (suc fuel) (id ∷ n ∷ rest) = do
  fs ← decode_within fuel (drop n rest)
  ok ((id, take n rest) ∷ fs)

abbrev pub decode_id : Bytes → Result (List Field)
decode_id body = decode_within (length body) body

decode_within-flatten :
    (fuel : ℕ) (fs : List Field)
    → length (flatten fs) ≤ fuel
    → decode_within fuel (flatten fs) ≡ ok fs
unfolding decode_within flatten
decode_within-flatten zero [] h = refl
decode_within-flatten (suc fuel) [] h = refl
decode_within-flatten zero ((id, d) ∷ fs) h = absurd (omega arith)
decode_within-flatten (suc fuel) ((id, d) ∷ fs) h =
    rw
      (
        take-append_exact d (flatten fs),
        drop-append_exact d (flatten fs),
        decode_within-flatten fuel fs (omega (arith, length-append d (flatten fs))),
      )
      refl

pub inverse : (fs : List Field) (body : Bytes) → encode_id fs ≡ ok body → decode_id body ≡ ok fs
inverse fs body h =
    let e : flatten fs ≡ body = cc in
    cc (decode_within-flatten (length (flatten fs)) fs (omega arith))

-- The encoding has room for the data of its fields.
pub carries :
    (fs : List Field) (body : Bytes) → encode_id fs ≡ ok body → field_bytes fs ≤ length body
unfolding flatten
carries [] body h = omega arith
carries ((id, d) ∷ fs) body h =
    let later = carries fs (flatten fs) refl in
    let e : flatten ((id, d) ∷ fs) ≡ body = cc in
    let size = ap length e in omega (arith, later, length-append d (flatten fs), size)
