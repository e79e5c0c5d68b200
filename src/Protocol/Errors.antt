-- ===== src/Protocol/Errors.antt =====
-- protocol/errors.go: the stable codes, and `ProtocolError`.
use nex_talk_file_relay.Base.{ℕ, String, ◌≡◌, refl, ◌⊎◌, inl, inr}

abbrev pub err_invalid_request : ℕ
err_invalid_request = 1

abbrev pub err_auth_failed : ℕ
err_auth_failed = 3

abbrev pub err_replay_detected : ℕ
err_replay_detected = 4

abbrev pub err_expired_request : ℕ
err_expired_request = 5

abbrev pub err_mailbox_not_found : ℕ
err_mailbox_not_found = 6

abbrev pub err_mailbox_expired : ℕ
err_mailbox_expired = 7

abbrev pub err_message_too_large : ℕ
err_message_too_large = 8

abbrev pub err_quota_exceeded : ℕ
err_quota_exceeded = 9

abbrev pub err_transfer_not_found : ℕ
err_transfer_not_found = 10

abbrev pub err_transfer_expired : ℕ
err_transfer_expired = 11

abbrev pub err_chunk_invalid : ℕ
err_chunk_invalid = 12

abbrev pub err_chunk_conflict : ℕ
err_chunk_conflict = 13

abbrev pub err_chunk_out_of_range : ℕ
err_chunk_out_of_range = 14

abbrev pub err_storage_unavailable : ℕ
err_storage_unavailable = 15

abbrev pub err_rate_limited : ℕ
err_rate_limited = 16

abbrev pub err_server_unavailable : ℕ
err_server_unavailable = 17

abbrev pub err_transfer_conflict : ℕ
err_transfer_conflict = 18

abbrev pub err_hash_mismatch : ℕ
err_hash_mismatch = 19

abbrev pub err_payload_too_large : ℕ
err_payload_too_large = 20

abbrev pub err_batch_too_large : ℕ
err_batch_too_large = 21

pub record ProtocolError : Type 0 where
  pub code : ℕ
  pub detail : String
  pub retry_after : ℕ

-- `&ProtocolError{Code: c, Detail: d}`
abbrev pub protocol_error : ℕ → String → ProtocolError
protocol_error c d = record { code = c; detail = d; retry_after = 0 }

-- What a fallible function returns.
pub data Result {ℓ} (A : Type ℓ) : Type ℓ where
  err : ProtocolError → Result A
  ok : A → Result A

abbrev pub fail {ℓ} : {A : Type ℓ} → ℕ → String → Result A
fail c d = err (protocol_error c d)

-- `if err != nil { return err }` between two calls.
module _ {ℓ κ} {A : Type ℓ} {B : Type κ} where
  infixl 5 ◌>>=◌
  abbrev pub ◌>>=◌ : Result A → (A → Result B) → Result B
  err stop >>= next = err stop
  ok value >>= next = next value

  -- A success of both calls is one of each.
  pub >>=-eq-ok :
      (r : Result A) (next : A → Result B) {end : B}
      → (r >>= next) ≡ ok end
      → (value : A) × (r ≡ ok value) × (next value ≡ ok end)
  >>=-eq-ok (err stop) next e = cc
  >>=-eq-ok (ok value) next e = (value, refl, e)

infixl 5 ◌>>◌
abbrev pub ◌>>◌ {κ} : {B : Type κ} → Result (Unit {0}) → Result B → Result B
checked >> rest = checked >>= λ u. rest

pub Result-cases {ℓ} :
    {A : Type ℓ} (r : Result A) → ((e : ProtocolError) × (r ≡ err e)) ⊎ ((a : A) × (r ≡ ok a))
Result-cases (ok a) = inr (a, refl)
Result-cases (err e) = inl (e, refl)
