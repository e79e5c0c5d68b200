-- ===== src/Store/Resume/Missing.antt =====
-- The missing ranges of `buildResumeViewLocked` (server/storage/memstore.go) as a set of chunks.
use nex_talk_file_relay.Base.{
  ℕ, zero, suc, ◌+◌, ◌≤◌, ◌<◌, ◌≡◌, refl, sym, ap, subst, ◌∙◌, Bool, true, false, List, [], ◌∷◌,
  ◌++◌, Bytes, arith, leb, length, length-append, get_or, All, All-append, if◌then◌else◌,
  Bool-cases, inl, inr,
}
use mathlib.Core.List.{append-nil, append_assoc}
use nex_talk_file_relay.Protocol.Limits.{max_missing_ranges}
use nex_talk_file_relay.Protocol.Errors.{ok}
use nex_talk_file_relay.Protocol.Wire.{Range, InU32, decode_ranges, decode_ranges-encode_ranges}
use nex_talk_file_relay.Protocol.Messages.{resume_ranges}
use nex_talk_file_relay.Store.Types.{TransferData}
use nex_talk_file_relay.Store.Resume.{ranges_loop, build_resume_view}

-- `count` numbers from `start` on.
abbrev pub count_from : ℕ → ℕ → List ℕ
count_from start zero = []
count_from start (suc count) = start ∷ count_from (suc start) count

abbrev pub expand : List Range → List ℕ
expand [] = []
expand ((start, count) ∷ rs) = count_from start count ++ expand rs

-- The chunks that are missing, of the next `n` from `i` on.
abbrev pub missing_from : ℕ → ℕ → List Bool → List ℕ
missing_from zero i present = []
missing_from (suc n) i present =
    if get_or present i false
    then missing_from n (i + 1) present
    else i ∷ missing_from n (i + 1) present

-- The ranges are the wanted chunks, in order and each once; only a full list may stop before the
-- last of them.
pub record Lists (rs : List Range) (want : List ℕ) : Type 0 where
  pub rest : List ℕ
  pub cut : (expand rs ++ rest) ≡ want
  pub few : length rs ≤ max_missing_ranges
  pub whole : length rs < max_missing_ranges → rest ≡ []
  pub fits : All InU32 rs

expand-append :
    (rs : List Range) (r : Range) → expand (rs ++ r ∷ []) ≡ expand rs ++ count_from r.0 r.1
expand-append [] r = append-nil (count_from r.0 r.1)
expand-append ((s, c) ∷ rs) r =
    ap (λ t. count_from s c ++ t) (expand-append rs r)
    ∙ sym (append_assoc (count_from s c) (expand rs) (count_from r.0 r.1))

count_from-suc :
    (start run : ℕ) (m : List ℕ)
    → (count_from start (run + 1) ++ m) ≡ (count_from start run ++ (start + run) ∷ m)
count_from-suc start zero m = ground arith
count_from-suc start (suc run) m =
    let next : suc run + 1 ≡ suc (run + 1) = omega arith in
    let same : suc start + run ≡ start + suc run = omega arith in
    rw next (
      ap (◌∷◌ start)
        (count_from-suc (suc start) run m ∙ ap (λ k. count_from (suc start) run ++ k ∷ m) same))

-- What a gap that is open at `i` has collected.
abbrev pending : Bool → ℕ → ℕ → List ℕ
pending in_gap start run = if in_gap then count_from start run else []

ranges_loop-Lists :
    (n i : ℕ) (present : List Bool) (rs : List Range) (start run : ℕ) (in_gap : Bool)
    → length rs < max_missing_ranges
    → All InU32 rs
    → i + n < 4294967296
    → (in_gap ≡ true → start + run ≡ i)
    → Lists
        (ranges_loop n i present rs start run in_gap)
        (expand rs ++ (pending in_gap start run ++ missing_from n i present))
unfolding ranges_loop
ranges_loop-Lists zero i present rs start run false l f b g = record {
  rest = [];
  cut = refl;
  few = omega (arith, l);
  whole = λ _. refl;
  fits = f;
}
ranges_loop-Lists zero i present rs start run true l f b g = record {
  rest = [];
  cut = rw (expand-append rs (start, run)) (append_assoc (expand rs) (count_from start run) []);
  few = omega (arith, l, length-append rs ((start, run) ∷ []));
  whole = λ _. refl;
  fits = All-append InU32 rs _ f (ground (arith, g refl), tt);
}
ranges_loop-Lists (suc n) i present rs start run false l f b g =
    elim (Bool-cases (get_or present i false)) [
      | inr gone ↦
          rw (gone, ranges_loop)
            (ranges_loop-Lists n (i + 1) present rs i 1 true l f (omega arith) λ _. refl)
      | inl here ↦
          rw (here, ranges_loop)
            (ranges_loop-Lists n (i + 1) present rs start run false l f (omega arith) λ h. cc)
    ]
ranges_loop-Lists (suc n) i present rs start run true l f b g =
    let m = missing_from n (i + 1) present in
    let r : Range = (start, run) in
    let closed : (expand (rs ++ r ∷ []) ++ m) ≡ (expand rs ++ (count_from start run ++ m)) =
      rw (expand-append rs r) (append_assoc (expand rs) (count_from start run) m) in
    let all : All InU32 (rs ++ r ∷ []) = All-append InU32 rs _ f (omega (arith, g refl), tt) in
    elim (Bool-cases (get_or present i false)) [
      | inr gone ↦
          let longer =
            ap (λ t. expand rs ++ t)
              (count_from-suc start run m ∙ ap (λ k. count_from start run ++ k ∷ m) (g refl)) in
          rw (gone, ranges_loop)
            (subst (Lists _) longer (
              ranges_loop-Lists n (i + 1) present rs start (run + 1) true l f (omega arith)
                λ h. omega (arith, g refl)))
      | inl here ↦ elim (Bool-cases (leb max_missing_ranges (length rs + 1))) [
        | inl stop ↦
            rw (here, ranges_loop, stop)
              record {
                rest = m;
                cut = closed;
                few = omega (arith, l, length-append rs (r ∷ []));
                whole = λ less. absurd (ground (arith, less, length-append rs (r ∷ [])));
                fits = all;
              }
        | inr more ↦
            rw (here, ranges_loop, more)
              (subst (Lists _) closed (
                ranges_loop-Lists n (i + 1) present (rs ++ r ∷ []) start run false
                  (ground (arith, length-append rs (r ∷ []))) all (omega arith) λ h. cc))
      ]
    ]

-- For a transfer of more than 256 chunks, and fewer than 2 ^ 32, the view carries ranges that decode
-- to the missing chunks, in order and each once: to all of them if there are fewer than 1024 ranges,
-- and to the first ones if the list is full.
pub build_resume_view-Lists :
    (t : TransferData) (id : Bytes)
    → 256 < t.chunk_count
    → t.chunk_count < 4294967296
    → let view = (build_resume_view t id).0 in
      (rs : List Range) × (view.encoding ≡ resume_ranges)
      × (decode_ranges view.missing_ranges ≡ ok rs)
      × Lists rs (missing_from t.chunk_count 0 t.present)
unfolding build_resume_view
build_resume_view-Lists t id many few =
    let rs = ranges_loop t.chunk_count 0 t.present [] 0 0 false in
    let lists : Lists rs (missing_from t.chunk_count 0 t.present) =
      ranges_loop-Lists t.chunk_count 0 t.present [] 0 0 false (omega arith) tt (omega arith)
        λ h. cc in
    let ranges : leb t.chunk_count 256 ≡ false = ground arith in
    (rs, rw ranges refl, rw ranges (decode_ranges-encode_ranges rs lists.fits), lists)
