-- ===== src/Store/Transfers/Presence.antt =====
-- The list of chunks that are there (transferData.present of server/storage/memstore.go): how many,
-- how many from the start, and how many bytes.
use nex_talk_file_relay.Base.{
  ℕ, zero, suc, ◌+◌, ◌-◌, ◌*◌, ◌<◌, ◌≤◌, ◌≡◌, refl, Bool, true, false, List, [], ◌∷◌, arith, ◌==◌,
  length, get_or, set, replicate, if◌then◌else◌,
}
use nex_talk_file_relay.Store.Transfers.{highest_loop}

abbrev pub count_true : List Bool → ℕ
count_true [] = 0
count_true (b ∷ marks) = (if b then 1 else 0) + count_true marks

-- The number of chunks at the start with none missing.
abbrev pub leading : List Bool → ℕ
leading [] = 0
leading (b ∷ marks) = if b then suc (leading marks) else 0

-- The bytes of the chunks that are there, of a file with `rest` bytes from the first of them on.
abbrev pub present_bytes : ℕ → ℕ → List Bool → ℕ
present_bytes size rest [] = 0
present_bytes size rest (b ∷ []) = if b then rest else 0
present_bytes size rest (b ∷ c ∷ marks) =
    (if b then size else 0) + present_bytes size (rest - size) (c ∷ marks)

-- The length of a chunk: all are full but the last.
abbrev pub chunk_length : ℕ → ℕ → ℕ → ℕ → ℕ
chunk_length total size count i = if suc i == count then total - i * size else size

pub count_true-le : (marks : List Bool) → count_true marks ≤ length marks
count_true-le [] = omega arith
count_true-le (b ∷ marks) = ground (arith, count_true-le marks)

pub count_true-replicate : (n : ℕ) → count_true (replicate n false) ≡ 0
count_true-replicate zero = refl
count_true-replicate (suc n) = ground (arith, count_true-replicate n)

pub get_or-replicate : (n i : ℕ) → get_or (replicate n false) i false ≡ false
get_or-replicate zero i = refl
get_or-replicate (suc n) zero = refl
get_or-replicate (suc n) (suc i) = get_or-replicate n i

pub leading-replicate : (n : ℕ) → leading (replicate n false) ≡ 0
leading-replicate zero = refl
leading-replicate (suc n) = refl

pub present_bytes-replicate : (n size rest : ℕ) → present_bytes size rest (replicate n false) ≡ 0
present_bytes-replicate zero size rest = refl
present_bytes-replicate (suc zero) size rest = refl
present_bytes-replicate (suc (suc n)) size rest =
    ground (arith, present_bytes-replicate (suc n) size (rest - size))

pub count_true-set :
    (marks : List Bool) (i : ℕ)
    → i < length marks
    → get_or marks i false ≡ false
    → count_true (set marks i true) ≡ count_true marks + 1
count_true-set [] i h e = elim h [ ]
count_true-set (b ∷ marks) zero h e = ground arith
count_true-set (b ∷ marks) (suc i) h e = ground (arith, count_true-set marks i (omega arith) e)

pub present_bytes-set :
    (size rest : ℕ) (marks : List Bool) (i : ℕ)
    → i < length marks
    → get_or marks i false ≡ false
    → present_bytes size rest (set marks i true)
      ≡ present_bytes size rest marks + chunk_length rest size (length marks) i
present_bytes-set size rest [] i h e = elim h [ ]
present_bytes-set size rest (b ∷ []) zero h e = ground arith
present_bytes-set size rest (b ∷ []) (suc i) h e = absurd (omega arith)
present_bytes-set size rest (b ∷ c ∷ marks) zero h e = ground arith
present_bytes-set size rest (b ∷ c ∷ marks) (suc zero) h e =
    ground (arith, present_bytes-set size (rest - size) (c ∷ marks) zero (omega arith) e)
present_bytes-set size rest (b ∷ c ∷ marks) (suc (suc i)) h e =
    ground (arith, present_bytes-set size (rest - size) (c ∷ marks) (suc i) (omega arith) e)

-- When all chunks are there, their bytes are the file's.
pub present_bytes-all :
    (size rest : ℕ) (marks : List Bool)
    → count_true marks ≡ length marks
    → rest ≤ length marks * size
    → length marks * size < rest + size
    → present_bytes size rest marks ≡ rest
present_bytes-all size rest [] all le lt = omega arith
present_bytes-all size rest (b ∷ []) all le lt = ground arith
present_bytes-all size rest (b ∷ c ∷ marks) all le lt =
    ground (arith, count_true-le (c ∷ marks), present_bytes-all size (rest - size) (c ∷ marks))

highest_loop_shift :
    (n h : ℕ) (b : Bool) (marks : List Bool)
    → highest_loop n (suc h) (b ∷ marks) ≡ suc (highest_loop n h marks)
unfolding highest_loop
highest_loop_shift zero h b marks = refl
highest_loop_shift (suc n) h b marks = ground (arith, highest_loop_shift n (h + 1) b marks)

-- The loop counts the chunks at the start with none missing.
pub highest_loop-leading : (marks : List Bool) → highest_loop (length marks) 0 marks ≡ leading marks
unfolding highest_loop
highest_loop-leading [] = refl
highest_loop-leading (b ∷ marks) =
    ground (arith, highest_loop_shift (length marks) 0 b marks, highest_loop-leading marks)
