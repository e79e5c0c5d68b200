-- ===== src/Store/Resume.antt =====
-- `buildResumeViewLocked` of server/storage/memstore.go: which chunks are there, as a bitmap or as
-- ranges of missing chunks.
pub mod Missing
use Prim.Native.Nat.{bit_or}
use nex_talk_file_relay.Base.{
  ℕ, zero, suc, ◌+◌, ◌/◌, ◌%◌, ◌^◌, Bool, true, false, List, [], ◌∷◌, ◌++◌, Bytes, leb, length,
  get_or, set, replicate, if◌then◌else◌,
}
use nex_talk_file_relay.Protocol.Limits.{max_missing_ranges}
use nex_talk_file_relay.Protocol.Messages.{resume_bitmap, resume_ranges}
use nex_talk_file_relay.Protocol.Wire.{Range, encode_ranges}
use nex_talk_file_relay.Store.Types.{TransferData, TransferView, ResumeView}
use nex_talk_file_relay.Store.Transfers.{transfer_view}

-- bm[i/8] |= 1 << (i % 8), for each chunk from `i` on that is there
unfoldable pub bitmap_loop : ℕ → ℕ → List Bool → Bytes → Bytes
bitmap_loop zero i present bm = bm
bitmap_loop (suc rounds) i present bm = bitmap_loop rounds (i + 1) present (
    if get_or present i false
    then set bm (i / 8) (bit_or (get_or bm (i / 8) 0) (2 ^ (i % 8)))
    else bm)

-- The loop over the chunks, with `ranges`, `start`, `run` and `inGap`; the full list stops it.
unfoldable pub ranges_loop : ℕ → ℕ → List Bool → List Range → ℕ → ℕ → Bool → List Range
ranges_loop zero i present ranges start run in_gap =
    if in_gap then ranges ++ (start, run) ∷ [] else ranges
ranges_loop (suc rounds) i present ranges start run in_gap = elim (get_or present i false) [
  | false ↦ elim in_gap [
    | false ↦ ranges_loop rounds (i + 1) present ranges i 1 true
    | true ↦ ranges_loop rounds (i + 1) present ranges start (run + 1) true
  ]
  | true ↦ elim in_gap [
    | true ↦ elim (leb max_missing_ranges (length ranges + 1)) [
      | true ↦ ranges ++ (start, run) ∷ []
      | false ↦ ranges_loop rounds (i + 1) present (ranges ++ (start, run) ∷ []) start run false
    ]
    | false ↦ ranges_loop rounds (i + 1) present ranges start run false
  ]
]

unfoldable pub build_resume_view : TransferData → Bytes → ResumeView × TransferView
build_resume_view t transfer_id = (
  if leb t.chunk_count 256
      then record {
        chunk_count = t.chunk_count;
        highest_contiguous = t.highest;
        encoding = resume_bitmap;
        bitmap = bitmap_loop t.chunk_count 0 t.present (replicate ((t.chunk_count + 7) / 8) 0);
        missing_ranges = [];
      }
      else record {
        chunk_count = t.chunk_count;
        highest_contiguous = t.highest;
        encoding = resume_ranges;
        bitmap = [];
        missing_ranges = encode_ranges (ranges_loop t.chunk_count 0 t.present [] 0 0 false);
      },
  transfer_view transfer_id t,
)
