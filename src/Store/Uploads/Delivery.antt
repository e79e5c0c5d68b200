-- ===== src/Store/Uploads/Delivery.antt =====
-- A file whose chunks have all arrived (server/storage/memstore.go): completion and download.
use nex_talk_file_relay.Base.{
  ℕ, zero, suc, ◌+◌, ◌<◌, ◌≡◌, refl, ◌∙◌, Bool, true, false, List, [], ◌∷◌, some, Bytes,
  bytes_eq_refl, bytes_key, number_key, arith, length, get_or, Bool-cases, Option-cases, inl, inr,
  if◌then◌else◌,
}
use nex_talk_file_relay.Base.Map.{lookup, lookup-insert, AllValues-lookup}
use nex_talk_file_relay.Protocol.Limits.{complete_ttl_seconds}
use nex_talk_file_relay.Protocol.Errors.{ok}
use nex_talk_file_relay.Protocol.Messages.{TransferComplete}
use nex_talk_file_relay.Protocol.Validate.{validate_transfer_complete}
use nex_talk_file_relay.Store.Types.{complete, TransferData, MemStore, to_array, millis}
use nex_talk_file_relay.Store.Transfers.{seal, complete_transfer, is_complete, is_cancelled}
use nex_talk_file_relay.Store.Transfers.Presence.{count_true}
use nex_talk_file_relay.Store.Transfers.Invariant.{IsTransfer, is_some}
use nex_talk_file_relay.Store.Downloads.{check_ticket, read_chunk, get_chunk_by_ticket, or_nil}
use nex_talk_file_relay.Store.Guards.{has_run_out, with_transfer-live}
use nex_talk_file_relay.Store.Valid.{IsValid}

count_true-full :
    (marks : List Bool)
    → ((j : ℕ) → j < length marks → get_or marks j false ≡ true)
    → count_true marks ≡ length marks
count_true-full [] h = refl
count_true-full (b ∷ marks) h =
    let first : b ≡ true = h zero (omega arith) in
    let rest = count_true-full marks λ j less. h (suc j) (omega arith) in
    ground (arith, first, rest)

-- The transfer as `CompleteTransfer` leaves it.
abbrev sealed : ℕ → TransferData → TransferData
sealed now t =
    if is_complete t.state
    then t
    else record t { state = complete; expires_at = now + millis complete_ttl_seconds }

complete_transfer-live :
    (now : ℕ) (m : TransferComplete) (s : MemStore) (t : TransferData)
    → validate_transfer_complete m ≡ ok tt
    → lookup (to_array 16 m.transfer_id) s.transfers ≡ some t
    → has_run_out now t ≡ false
    → complete_transfer now m s ≡ seal now (to_array 16 m.transfer_id) t s
unfolding complete_transfer
complete_transfer-live now m s t good found early =
    let id = to_array 16 m.transfer_id in
    ground (arith, with_transfer-live now id s (seal now id) t found early)

module _ (sha256 : Bytes → Bytes) where
  -- A transfer with all its chunks can be sealed.
  seal-full :
      (now : ℕ) (id : Bytes) (t : TransferData) (s : MemStore)
      → lookup id s.transfers ≡ some t
      → is_cancelled t.state ≡ false
      → t.present_count ≡ t.chunk_count
      → ((seal now id t s).0 ≡ ok (true, t.chunk_count, t.chunk_count))
        × (lookup id (seal now id t s).1.transfers ≡ some (sealed now t))
  unfolding seal
  seal-full now id t s found running all = elim (Bool-cases (is_complete t.state)) [
    | inl done ↦ ground arith
    | inr still ↦ ground (arith, lookup-insert id id (sealed now t) s.transfers, bytes_eq_refl id)
  ]

  read_sealed :
      (now later : ℕ) (id ticket : Bytes) (i : ℕ) (t : TransferData) (s : MemStore) (p : Bytes)
      → IsTransfer sha256 t
      → lookup id s.transfers ≡ some (sealed now t)
      → check_ticket sha256 t ticket ≡ ok tt
      → i < t.chunk_count
      → lookup i t.chunks ≡ some p
      → (get_chunk_by_ticket sha256 later id ticket i s).0 ≡ ok (p, sha256 p)
  unfolding get_chunk_by_ticket read_chunk or_nil check_ticket
  read_sealed now later id ticket i t s p w found ours inside there =
      let lasts : has_run_out later (sealed now t) ≡ false = ground arith in
      rw (with_transfer-live later id s _ (sealed now t) found lasts)
        (elim (Bool-cases (is_complete t.state)) [
          | inl done ↦ ground (arith, w.hashed i p there)
          | inr still ↦ ground (arith, w.hashed i p there)
        ])

  -- A file of which every chunk has arrived gets through: in a valid store a valid completion of a
  -- transfer that has neither run out nor been cancelled succeeds, and in the store that it leaves
  -- the holder of the ticket downloads every chunk, with its SHA-256, at any time, also after the 14
  -- days that the completion sets: unlike DESIGN.md, which has them enforced at access too, the code
  -- leaves the end of a complete transfer to the sweep.
  pub complete_transfer-delivers :
      (now later : ℕ) (m : TransferComplete) (ticket : Bytes) (i : ℕ) (s : MemStore)
      (t : TransferData)
      → IsValid sha256 s
      → validate_transfer_complete m ≡ ok tt
      → lookup (to_array 16 m.transfer_id) s.transfers ≡ some t
      → has_run_out now t ≡ false
      → is_cancelled t.state ≡ false
      → ((j : ℕ) → j < t.chunk_count → is_some (lookup j t.chunks) ≡ true)
      → check_ticket sha256 t ticket ≡ ok tt
      → i < t.chunk_count
      → let id = to_array 16 m.transfer_id in
        let (r, s') = complete_transfer now m s in
        (p : Bytes) × (r ≡ ok (true, t.chunk_count, t.chunk_count))
        × (lookup i t.chunks ≡ some p)
        × ((get_chunk_by_ticket sha256 later id ticket i s').0 ≡ ok (p, sha256 p))
  complete_transfer-delivers now later m ticket i s t v good found early running there ours inside =
      let id = to_array 16 m.transfer_id in
      let w = AllValues-lookup (IsTransfer sha256) id t s.transfers v.transfers found in
      let full : count_true t.present ≡ length t.present =
        count_true-full t.present λ j less. w.marked j ∙ there j (omega (arith, w.marks, less)) in
      let all : t.present_count ≡ t.chunk_count = omega (arith, w.counted, w.marks, full) in
      let done = complete_transfer-live now m s t good found early in
      let (result, kept) = seal-full now id t s found running all in
      elim (Option-cases (lookup i t.chunks)) [
        | inl gone ↦ absurd (ground (arith, there i inside))
        | inr (p, here) ↦ (
          p,
          rw done result,
          here,
          rw done (read_sealed now later id ticket i t _ p w kept ours inside here),
        )
      ]
