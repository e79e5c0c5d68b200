-- ===== src/Protocol/Auth/Canonical.antt =====
-- The signed bytes of protocol/auth.go.
use nex_talk_file_relay.Base.{
  ℕ, ◌<◌, ◌≡◌, ◌≢◌, refl, ap, arith, List, get_or, [], ◌∷◌, ◌++◌, Bytes, length,
}
use nex_talk_file_relay.Protocol.Wire.{put_u32, put_u64, get_u64-put_u64}
use nex_talk_file_relay.Protocol.Auth.{
  domain_msg_send, canonical_msg_send, canonical_xfer_create, canonical_xfer_complete,
  canonical_register,
}

pub append-cancel {ℓ} :
    {A : Type ℓ} (xs ys us vs : List A)
    → length xs ≡ length us
    → (xs ++ ys) ≡ (us ++ vs)
    → (xs ≡ us) × (ys ≡ vs)
append-cancel [] ys [] vs l h = (refl, h)
append-cancel [] ys (u ∷ us) vs l h = absurd (omega arith)
append-cancel (x ∷ xs) ys [] vs l h = absurd (omega arith)
append-cancel (x ∷ xs) ys (u ∷ us) vs l h =
    let e : x ≡ u = cc in
    let rest : (xs ++ ys) ≡ (us ++ vs) = cc in
    let (same, ends) = append-cancel xs ys us vs (omega arith) rest in (cc, ends)

-- The first byte after `FR1/`.
fifth : {xs ys : Bytes} → xs ≡ ys → get_or xs 4 0 ≡ get_or ys 4 0
fifth h = ap (λ xs. get_or xs 4 0) h

pub put_u64-inj :
    (a b : ℕ) → a < 18446744073709551616 → b < 18446744073709551616 → put_u64 a ≡ put_u64 b → a ≡ b
put_u64-inj a b ha hb h = grind (arith, get_u64-put_u64 a ha, get_u64-put_u64 b hb)

pub length-put_u64 : (v : ℕ) → length (put_u64 v) ≡ 8
unfolding put_u64 put_u32
length-put_u64 v = refl

module _ (sha256 : Bytes → Bytes) where
  -- Of fields of the right length, no two send requests have the same bytes to sign: the signature
  -- fixes the sender, the mailbox, the time, the nonce and the hash of the envelope.
  pub canonical_msg_send-inj :
      (p q m n : Bytes) (ts us : ℕ) (a b e f : Bytes)
      → length p ≡ length q
      → length m ≡ length n
      → length a ≡ length b
      → ts < 18446744073709551616
      → us < 18446744073709551616
      → canonical_msg_send sha256 p m ts a e ≡ canonical_msg_send sha256 q n us b f
      → (p ≡ q) × (m ≡ n) × (ts ≡ us) × (a ≡ b) × (sha256 e ≡ sha256 f)
  unfolding canonical_msg_send
  canonical_msg_send-inj p q m n ts us a b e f lp lm la ht hu h =
      let (start, r0) = append-cancel domain_msg_send _ domain_msg_send _ refl h in
      let (same_pub, r1) = append-cancel p _ q _ lp r0 in
      let (same_mailbox, r2) = append-cancel m _ n _ lm r1 in
      let (same_bits, r3) =
        append-cancel (put_u64 ts) _ (put_u64 us) _ (cc (length-put_u64 ts, length-put_u64 us))
          r2 in
      let (same_nonce, same_hash) = append-cancel a _ b _ la r3 in
      (same_pub, same_mailbox, put_u64-inj ts us ht hu same_bits, same_nonce, same_hash)

  -- The bytes of one kind of request are never those of another, whatever the fields: a signature
  -- under one domain says nothing under another one.
  pub canonical_msg_send-domains :
      (p m : Bytes) (ts : ℕ) (a e : Bytes) (q n k : Bytes) (us : ℕ) (b f : Bytes)
      (total size count : ℕ)
      → (canonical_msg_send sha256 p m ts a e ≢ canonical_register q us b)
        × (canonical_msg_send sha256 p m ts a e ≢ canonical_xfer_complete q n k us b)
        × (canonical_msg_send sha256 p m ts a e
            ≢ canonical_xfer_create sha256 q n total size count us b f)
  unfolding canonical_msg_send canonical_register canonical_xfer_complete canonical_xfer_create
  canonical_msg_send-domains p m ts a e q n k us b f total size count =
      ((λ h. omega (arith, fifth h)), (λ h. omega (arith, fifth h)), λ h. omega (arith, fifth h))
