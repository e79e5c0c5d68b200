-- ===== src/Store/Uploads/Sealing.antt =====
-- CompleteTransfer and CancelTransfer of server/storage/memstore.go.
use nex_talk_file_relay.Base.{
  ℕ, zero, suc, ◌+◌, ◌<◌, ◌≡◌, refl, sym, ap, subst, ◌∙◌, Bool, true, false, List, [], ◌∷◌, none,
  some, Bytes, bytes_eq_refl, bytes_key, number_key, arith, length, get_or, Option-cases,
  Bool-cases, inl, inr,
}
use nex_talk_file_relay.Base.Map.{lookup, lookup-insert, lookup-delete, AllValues-lookup}
use nex_talk_file_relay.Protocol.Limits.{complete_ttl_seconds}
use nex_talk_file_relay.Protocol.Errors.{
  ProtocolError, ok, err, fail, Result-cases, err_transfer_not_found,
}
use nex_talk_file_relay.Protocol.Messages.{TransferComplete}
use nex_talk_file_relay.Protocol.Validate.{validate_transfer_complete}
use nex_talk_file_relay.Store.Types.{
  complete, TransferData, MemStore, Outcome, put_transfer, to_array, millis,
}
use nex_talk_file_relay.Store.Mailboxes.{with_owner}
use nex_talk_file_relay.Store.Downloads.{get_chunk, get_chunk_by_ticket, progress}
use nex_talk_file_relay.Store.Transfers.{
  with_transfer, seal, complete_transfer, is_complete, with_recipient, cancel_transfer,
  get_transfer,
}
use nex_talk_file_relay.Store.Transfers.Presence.{count_true, count_true-le, present_bytes-all}
use nex_talk_file_relay.Store.Transfers.Invariant.{IsTransfer, is_some}
use nex_talk_file_relay.Store.Guards.{
  has_run_out, with_transfer-unknown, with_transfer-expired, with_transfer-live,
}
use nex_talk_file_relay.Store.Valid.{IsValid}

-- When as many chunks are there as there are places, every place has its chunk.
all_there :
    (bs : List Bool) (i : ℕ) → count_true bs ≡ length bs → i < length bs → get_or bs i false ≡ true
all_there [] i all h = elim h [ ]
all_there (b ∷ bs) zero all h = ground (arith, count_true-le bs)
all_there (b ∷ bs) (suc i) all h = all_there bs i (ground (arith, count_true-le bs)) (omega arith)

ok_not_err {ℓ} :
    {A : Type ℓ} {e : ProtocolError} {a : A} {s s' : MemStore}
    → ◌≡◌ {A = Outcome A} (err e, s) (ok a, s')
    → ⊥
ok_not_err h = cc (ap (λ o. o.0) h)

-- A success behind the transfer guard comes from a transfer that is stored and has not run out.
pub with_transfer-ok {ℓ} :
    {A : Type ℓ} (now : ℕ) (id : Bytes) (s : MemStore) (k : TransferData → MemStore → Outcome A)
    {a : A} {s' : MemStore}
    → with_transfer now id s k ≡ (ok a, s')
    → (t : TransferData) × (lookup id s.transfers ≡ some t) × (k t s ≡ (ok a, s'))
with_transfer-ok now id s k h = elim (Option-cases (lookup id s.transfers)) [
  | inl e ↦ absurd (ok_not_err (sym (with_transfer-unknown now id s k e) ∙ h))
  | inr (t, e) ↦ elim (Bool-cases (has_run_out now t)) [
    | inl late ↦ absurd (ok_not_err (sym (with_transfer-expired now id s k t e late) ∙ h))
    | inr early ↦ (t, e, sym (with_transfer-live now id s k t e early) ∙ h)
  ]
]

module _ (sha256 : Bytes → Bytes) where
  -- The whole file is stored: every chunk is there, and the bytes are the file's.
  pub record IsWhole (t : TransferData) : Type 0 where
    pub bytes : t.stored_bytes ≡ t.total_size
    pub chunks : (i : ℕ) → i < t.chunk_count → is_some (lookup i t.chunks) ≡ true

  pub full-IsWhole :
      (t : TransferData) → IsTransfer sha256 t → t.present_count ≡ t.chunk_count → IsWhole t
  full-IsWhole t w all =
      let all' : count_true t.present ≡ length t.present = omega (arith, w.counted, w.marks) in
      record {
        bytes =
            w.bytes
            ∙ present_bytes-all t.chunk_size t.total_size t.present all'
                (rw w.marks w.geometry.covers) (rw w.marks w.geometry.tight);
        chunks = λ i h. sym (w.marked i) ∙ all_there t.present i all' (rw w.marks h);
      }

  -- What a successful `CompleteTransfer` leaves under the transfer's ID.
  pub record IsSealed (id : Bytes) (s : MemStore) (sealed : Bool) (present count : ℕ) : Type 0 where
    pub transfer : TransferData
    pub found : lookup id s.transfers ≡ some transfer
    pub state : transfer.state ≡ complete
    pub whole : IsWhole transfer
    pub flag : sealed ≡ true
    pub all : present ≡ count

  seal-IsSealed :
      (now : ℕ) (id : Bytes) (t : TransferData) (s s' : MemStore) (b : Bool) (p n : ℕ)
      → IsTransfer sha256 t
      → lookup id s.transfers ≡ some t
      → seal now id t s ≡ (ok (b, p, n), s')
      → IsSealed id s' b p n
  unfolding seal
  seal-IsSealed now id t s s' b p n w found h = elim (Bool-cases (is_complete t.state)) [
    | inl done ↦
        let same : s ≡ s' = ground arith in
        record {
          transfer = t;
          found = subst (λ r. lookup id r.transfers ≡ some t) same found;
          state = ground arith;
          whole = full-IsWhole t w (w.full done);
          flag = ground arith;
          all = ground (arith, w.full done);
        }
    | inr open_state ↦
        let all : t.present_count ≡ t.chunk_count = ground arith in
        let t' = record t { state = complete; expires_at = now + millis complete_ttl_seconds } in
        let same : put_transfer id t' s ≡ s' = ground arith in
        record {
          transfer = t';
          found =
              subst (λ r. lookup id r.transfers ≡ some t') same
                (ground (arith, lookup-insert id id t' s.transfers, bytes_eq_refl id));
          state = refl;
          whole = record {
            bytes = (full-IsWhole t w all).bytes;
            chunks = (full-IsWhole t w all).chunks;
          };
          flag = ground arith;
          all = ground arith;
        }
  ]

  -- In a valid store, a transfer is sealed only when all its chunks are there: a completion that
  -- succeeds reports as many chunks present as the transfer has, and leaves it complete, with every
  -- chunk stored and its bytes adding up to the announced size.
  pub complete_transfer-IsSealed :
      (now : ℕ) (m : TransferComplete) (s s' : MemStore) (sealed : Bool) (present count : ℕ)
      → IsValid sha256 s
      → complete_transfer now m s ≡ (ok (sealed, present, count), s')
      → IsSealed (to_array 16 m.transfer_id) s' sealed present count
  unfolding complete_transfer
  complete_transfer-IsSealed now m s s' sealed present count v h =
      elim (Result-cases (validate_transfer_complete m)) [
        | inl (e, bad) ↦ let no : ⊥ = ground arith in absurd no
        | inr (u, good) ↦
            let id = to_array 16 m.transfer_id in
            let (t, found, h') = with_transfer-ok now id s (seal now id) (ground arith) in
            seal-IsSealed now id t s s' sealed present count
              (AllValues-lookup (IsTransfer sha256) id t s.transfers v.transfers found) found h'
      ]

  cancel_transfer-lookup :
      (now : ℕ) (id mid secret : Bytes) (s : MemStore)
      → (cancel_transfer sha256 now id mid secret s).0 ≡ ok tt
      → lookup id (cancel_transfer sha256 now id mid secret s).1.transfers ≡ none
  unfolding cancel_transfer with_recipient with_owner
  cancel_transfer-lookup now id mid secret s h =
      ground (arith, lookup-delete id id s.transfers, bytes_eq_refl id)

  -- Once a transfer is cancelled, neither a download by its owner or by ticket, nor the uploader's
  -- progress, nor the snapshot finds it, and none of them changes the store.
  pub cancel_transfer-gone :
      (now later : ℕ) (id mid secret ticket : Bytes) (index : ℕ) (s : MemStore)
      → (cancel_transfer sha256 now id mid secret s).0 ≡ ok tt
      → let s' = (cancel_transfer sha256 now id mid secret s).1 in
        (get_chunk_by_ticket sha256 later id ticket index s'
          ≡ (fail err_transfer_not_found "transfer not found", s'))
        × (get_chunk sha256 later id mid secret index s'
            ≡ (fail err_transfer_not_found "transfer not found", s'))
        × (progress later id s' ≡ (fail err_transfer_not_found "transfer not found", s'))
        × (get_transfer later id s' ≡ (fail err_transfer_not_found "transfer not found", s'))
  unfolding get_chunk_by_ticket get_chunk progress get_transfer
  cancel_transfer-gone now later id mid secret ticket index s h =
      let gone = cancel_transfer-lookup now id mid secret s h in
      (
        with_transfer-unknown later id _ _ gone,
        with_transfer-unknown later id _ _ gone,
        with_transfer-unknown later id _ _ gone,
        with_transfer-unknown later id _ _ gone,
      )
