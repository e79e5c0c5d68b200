-- ===== src/Protocol/Auth.antt =====
-- protocol/auth.go: the bytes that are signed, and the checks of a signature and of the clock.
-- Ed25519 and SHA-256 are parameters. A domain is spelled as the bytes of its ASCII text, 0
-- included.
pub mod Skew
pub mod Canonical
pub mod Derived
use nex_talk_file_relay.Base.{
  ℕ, ◌+◌, ◌-◌, ◌%◌, ◌^◌, Bool, not, ◌&&◌, ◌||◌, List, [], ◌∷◌, ◌++◌, Bytes, ltb, leb, ◌==◌, length,
  if◌then◌else◌,
}
use nex_talk_file_relay.Protocol.Limits.{max_clock_skew_millis}
use nex_talk_file_relay.Protocol.Errors.{
  Result, ok, fail, ◌>>◌, err_auth_failed, err_expired_request,
}
use nex_talk_file_relay.Protocol.Wire.{put_u32, put_u64}
use nex_talk_file_relay.Store.Types.{to_array}

-- `FR1/`
abbrev pub domain_prefix : Bytes
domain_prefix = 70 ∷ 82 ∷ 49 ∷ 47 ∷ []

-- `FR1/MSG-SEND`
abbrev pub domain_msg_send : Bytes
domain_msg_send = domain_prefix ++ (77 ∷ 83 ∷ 71 ∷ 45 ∷ 83 ∷ 69 ∷ 78 ∷ 68 ∷ 0 ∷ [])

-- `FR1/REGISTER`
abbrev pub domain_register : Bytes
domain_register = domain_prefix ++ (82 ∷ 69 ∷ 71 ∷ 73 ∷ 83 ∷ 84 ∷ 69 ∷ 82 ∷ 0 ∷ [])

-- `FR1/XFER-CREATE`
abbrev pub domain_xfer_create : Bytes
domain_xfer_create =
    domain_prefix ++ (88 ∷ 70 ∷ 69 ∷ 82 ∷ 45 ∷ 67 ∷ 82 ∷ 69 ∷ 65 ∷ 84 ∷ 69 ∷ 0 ∷ [])

-- `FR1/XFER-COMPLETE`
abbrev pub domain_xfer_complete : Bytes
domain_xfer_complete =
    domain_prefix ++ (88 ∷ 70 ∷ 69 ∷ 82 ∷ 45 ∷ 67 ∷ 79 ∷ 77 ∷ 80 ∷ 76 ∷ 69 ∷ 84 ∷ 69 ∷ 0 ∷ [])

-- The difference of two numbers as an `int64`, by its bits.
unfoldable pub sub_int64 : ℕ → ℕ → ℕ
sub_int64 a b = (a + 2 ^ 64 - b) % 2 ^ 64

abbrev pub is_negative : ℕ → Bool
is_negative d = leb (2 ^ 63) d

-- `if dt < 0 { dt = -dt }`; the least `int64` is its own negation.
unfoldable pub abs_int64 : ℕ → ℕ
abs_int64 d = if is_negative d then (2 ^ 64 - d) % 2 ^ 64 else d

-- `timestamp_ms` is a `uint64` and `now_millis` an `int64` that is not negative.
unfoldable pub check_skew : ℕ → ℕ → Result (Unit {0})
check_skew timestamp_ms now_millis =
    let dt = abs_int64 (sub_int64 now_millis timestamp_ms) in
    if not (is_negative dt) && ltb max_clock_skew_millis dt
    then fail err_expired_request "timestamp outside skew window"
    else ok tt

unfoldable pub canonical_register : Bytes → ℕ → Bytes → Bytes
canonical_register client_pub timestamp_ms nonce =
    domain_register ++ (client_pub ++ (put_u64 timestamp_ms ++ nonce))

unfoldable pub canonical_xfer_complete : Bytes → Bytes → Bytes → ℕ → Bytes → Bytes
canonical_xfer_complete sender_pub transfer_id manifest_hash timestamp_ms nonce =
    domain_xfer_complete
    ++ (sender_pub ++ (transfer_id ++ (manifest_hash ++ (put_u64 timestamp_ms ++ nonce))))

module _ (sha256 : Bytes → Bytes) where
  unfoldable pub canonical_msg_send : Bytes → Bytes → ℕ → Bytes → Bytes → Bytes
  canonical_msg_send sender_pub mailbox_id timestamp_ms nonce envelope =
      domain_msg_send
      ++ (sender_pub ++ (mailbox_id ++ (put_u64 timestamp_ms ++ (nonce ++ sha256 envelope))))

  unfoldable pub canonical_xfer_create : Bytes → Bytes → ℕ → ℕ → ℕ → ℕ → Bytes → Bytes → Bytes
  canonical_xfer_create sender_pub mailbox_id total chunk_size chunk_count timestamp_ms nonce
        manifest =
      domain_xfer_create
      ++ (sender_pub
          ++ (mailbox_id
              ++ (put_u64 total
                  ++ (put_u32 chunk_size
                      ++ (put_u32 chunk_count
                          ++ (put_u64 timestamp_ms ++ (nonce ++ sha256 manifest)))))))

module _ (verify : Bytes → Bytes → Bytes → Bool) where
  -- What every `Verify*` does with its canonical bytes. The key is copied to an array of 32 bytes
  -- after its length is checked.
  unfoldable pub verify_signed : Bytes → Bytes → (Bytes → Bytes) → ℕ → ℕ → Result (Unit {0})
  verify_signed pub_key sig canonical timestamp_ms now_millis =
      if not (length pub_key == 32) || not (length sig == 64)
      then fail err_auth_failed "bad pub/sig length"
      else if not (verify pub_key (canonical (to_array 32 pub_key)) sig)
      then fail err_auth_failed "signature verification failed"
      else check_skew timestamp_ms now_millis

  unfoldable pub verify_register : Bytes → ℕ → Bytes → Bytes → ℕ → Result (Unit {0})
  verify_register pub_key timestamp_ms nonce sig now_millis =
      verify_signed pub_key sig (λ p. canonical_register p timestamp_ms nonce) timestamp_ms
        now_millis

  unfoldable pub verify_xfer_complete :
      Bytes → Bytes → Bytes → ℕ → Bytes → Bytes → ℕ → Result (Unit {0})
  verify_xfer_complete pub_key transfer_id manifest_hash timestamp_ms nonce sig now_millis =
      verify_signed pub_key sig
        (λ p. canonical_xfer_complete p transfer_id manifest_hash timestamp_ms nonce) timestamp_ms
        now_millis

module _ (verify : Bytes → Bytes → Bytes → Bool) (sha256 : Bytes → Bytes) where
  -- The check of the clock is written out in the source; it is that of `CheckSkew`.
  unfoldable pub verify_msg_send : Bytes → Bytes → ℕ → Bytes → Bytes → Bytes → ℕ → Result (Unit {0})
  verify_msg_send pub_key mailbox_id timestamp_ms nonce envelope sig now_millis =
      verify_signed verify pub_key sig
        (λ p. canonical_msg_send sha256 p mailbox_id timestamp_ms nonce envelope) timestamp_ms
        now_millis

  unfoldable pub verify_xfer_create :
      Bytes → Bytes → ℕ → ℕ → ℕ → ℕ → Bytes → Bytes → Bytes → ℕ → Result (Unit {0})
  verify_xfer_create pub_key mailbox_id total chunk_size chunk_count timestamp_ms nonce manifest sig
        now_millis =
      verify_signed verify pub_key sig
        (λ p.
          canonical_xfer_create sha256 p mailbox_id total chunk_size chunk_count timestamp_ms nonce
            manifest)
        timestamp_ms now_millis
