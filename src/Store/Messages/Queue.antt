-- ===== src/Store/Messages/Queue.antt =====
-- The loops of the queue operations of server/storage/memstore.go, as list functions.
use nex_talk_file_relay.Base.{
  ℕ, zero, suc, ◌+◌, ◌%◌, ◌^◌, ◌<◌, ◌≤◌, ◌≡◌, refl, Bool, true, false, not, List, [], ◌∷◌, ◌++◌,
  Bytes, arith, length, length-append, take, drop, keep, if◌then◌else◌, Bool-cases, inl, inr,
  le→ltb, lt→ltb,
}
use mathlib.Core.List.{append-nil, append_assoc}
use nex_talk_file_relay.Store.Types.{StoredMessage}
use nex_talk_file_relay.Store.Messages.{receive_loop, ack_loop, wanted}

-- From the point where the batch is full, everything is kept.
receive_loop_full :
    (limit : ℕ) (peek : Bool) (ms out kept : List StoredMessage)
    → limit ≤ length out
    → receive_loop limit peek ms out kept ≡ (out, kept ++ ms)
unfolding receive_loop
receive_loop_full limit peek [] out kept h = ground (arith, append-nil kept)
receive_loop_full limit peek (m ∷ ms) out kept h = rw (le→ltb (length out) limit h) (
    ground (
      arith,
      receive_loop_full limit peek ms out (kept ++ m ∷ []) h,
      append_assoc kept (m ∷ []) ms,
    ))

-- With room for `n` more, the batch takes `n`; a peek keeps all, a drain the rest.
pub receive_loop_lem :
    (n limit : ℕ) (peek : Bool) (ms out kept : List StoredMessage)
    → length out + n ≡ limit
    → receive_loop limit peek ms out kept
      ≡ (out ++ take n ms, kept ++ (if peek then ms else drop n ms))
unfolding receive_loop
receive_loop_lem zero limit peek ms out kept h =
    ground (arith, receive_loop_full limit peek ms out kept (omega arith), append-nil out)
receive_loop_lem (suc n) limit peek [] out kept h = ground (arith, append-nil out, append-nil kept)
receive_loop_lem (suc n) limit true (m ∷ ms) out kept h =
    rw (lt→ltb (length out) limit (omega arith)) (
      ground (
        arith,
        receive_loop_lem n limit true ms (out ++ m ∷ []) (kept ++ m ∷ [])
            (omega (arith, length-append out (m ∷ []))),
        append_assoc out (m ∷ []) (take n ms),
        append_assoc kept (m ∷ []) ms,
      ))
receive_loop_lem (suc n) limit false (m ∷ ms) out kept h =
    rw (lt→ltb (length out) limit (omega arith)) (
      ground (
        arith,
        receive_loop_lem n limit false ms (out ++ m ∷ []) kept
            (omega (arith, length-append out (m ∷ []))),
        append_assoc out (m ∷ []) (take n ms),
      ))

-- How many of the messages are wanted.
abbrev pub count_wanted : List Bytes → List StoredMessage → ℕ
count_wanted ids [] = 0
count_wanted ids (m ∷ ms) = (if wanted ids m.id then 1 else 0) + count_wanted ids ms

abbrev pub unwanted : List Bytes → List StoredMessage → List StoredMessage
unwanted ids = keep (λ m. not (wanted ids m.id))

-- The loop keeps what is not wanted and counts the rest; the `uint32` counter does not wrap.
pub ack_loop_lem :
    (ids : List Bytes) (ms kept : List StoredMessage) (acked : ℕ)
    → acked + length ms < 2 ^ 32
    → ack_loop ids ms kept acked ≡ (kept ++ unwanted ids ms, acked + count_wanted ids ms)
unfolding ack_loop
ack_loop_lem ids [] kept acked h = ground (arith, append-nil kept)
ack_loop_lem ids (m ∷ ms) kept acked h = elim (Bool-cases (wanted ids m.id)) [
  | inl e ↦ rw e (ground (arith, ack_loop_lem ids ms kept ((acked + 1) % 2 ^ 32) (omega arith)))
  | inr e ↦ rw e (
      ground (
        arith,
        ack_loop_lem ids ms (kept ++ m ∷ []) acked (omega arith),
        append_assoc kept (m ∷ []) (unwanted ids ms),
      ))
]

-- Every message is either acknowledged or kept.
pub length-unwanted :
    (ids : List Bytes) (ms : List StoredMessage)
    → length (unwanted ids ms) + count_wanted ids ms ≡ length ms
length-unwanted ids [] = omega arith
length-unwanted ids (m ∷ ms) = ground (arith, length-unwanted ids ms)

-- A second acknowledgement finds none of them.
pub count_wanted-unwanted :
    (ids : List Bytes) (ms : List StoredMessage) → count_wanted ids (unwanted ids ms) ≡ 0
count_wanted-unwanted ids [] = refl
count_wanted-unwanted ids (m ∷ ms) = ground (arith, count_wanted-unwanted ids ms)
