-- ===== src/Psa/Keys.antt =====
-- What the PSA adapter promises for signatures.
use t_cose.Common.{
  err-ne-ok, ℕ, ◌≡◌, refl, ap, Bool-cases, inl, inr, ℤ, List, [], Buf, bytes, ok, fault, sym,
  unsupported_signing_alg,
}
use t_cose.Crypto.{Key}
use t_cose.Psa.{
  Psa, PsaStatus, PsaHash, psa_status_to_t_cose_error_signing, cose_alg_id_to_psa_alg_id,
  cose_hash_alg_id_to_psa, is_psa_success, is_not_signing, psa_verify, psa_sign, psa_hash_start,
  psa_hash_finish, psa_crypto,
}
use t_cose.Roundtrip.{Accepts}
use t_cose.Verify.Message.Safety.{StaysInside}
use t_cose.Psa.Status.{err-ne-fault, error_signing-inside, error_hash-inside, error_signing-ok}

-- psa_verify_hash() with the one key accepts what psa_sign_hash() makes with the other.
pub record KeyPair (p : Psa) (signing_key verification_key : ℕ) : Type 0 where
  pub verify_hash-sign_hash :
      (alg : ℕ) (hash : Buf) (space signature : List ℕ)
      → p.sign_hash signing_key alg hash (bytes space) ≡ (PsaStatus.success, signature)
      → p.verify_hash verification_key alg hash (bytes signature) ≡ PsaStatus.success

module _ (p : Psa) where
  -- If the keys form a pair for PSA, a signature that t_cose_crypto_sign() makes with the one is accepted by
  -- t_cose_crypto_verify() with the other, for the same algorithm and hash and for any key identifier.
  pub psa_verify-psa_sign :
      (signing_key verification_key : Key)
      → KeyPair p signing_key.handle verification_key.handle
      → (id : ℤ) (kid hash signature : Buf) (space : List ℕ)
      → psa_sign p id signing_key hash (bytes space) ≡ ok signature
      → psa_verify p id verification_key kid hash signature ≡ ok tt
  unfolding psa_sign psa_verify psa_status_to_t_cose_error_signing
  psa_verify-psa_sign signing_key verification_key pair id kid hash signature space h =
      let alg = cose_alg_id_to_psa_alg_id p id in
      let made = p.sign_hash signing_key.handle alg hash (bytes space) in
      elim (Bool-cases (is_not_signing p alg)) [
        | inl refused ↦ absurd (err-ne-ok unsupported_signing_alg signature (rw refused at h))
        | inr known ↦
            let both = error_signing-ok made.0 (bytes made.1) signature (rw known at h) in
            rw
              (
                known,
                sym both.1,
                pair.verify_hash-sign_hash alg hash space made.1 (ap (λ s. (s, made.1)) both.0),
              )
              refl
      ]

  -- Keys that form a pair for PSA form one for the adapter.
  pub psa_crypto-Accepts :
      (signing_key verification_key : Key)
      → KeyPair p signing_key.handle verification_key.handle
      → Accepts (psa_crypto p) signing_key verification_key
  psa_crypto-Accepts signing_key verification_key pair = record {
    verify-sign = psa_verify-psa_sign signing_key verification_key pair;
    verify_eddsa-sign_eddsa = λ kid tbs signature space h. absurd cc;
  }

  verify-inside :
      (id : ℤ) (k : Key) (kid hash signature : Buf)
      → psa_verify p id k kid hash signature ≡ fault
      → ⊥
  unfolding psa_verify
  verify-inside id k kid hash signature h =
      let alg = cose_alg_id_to_psa_alg_id p id in
      elim (Bool-cases (is_not_signing p alg)) [
        | inl refused ↦ err-ne-fault unsupported_signing_alg _ (rw refused refl) h
        | inr known ↦
            error_signing-inside (p.verify_hash k.handle alg hash signature) (rw known at h)
      ]

  finish-inside : (h : PsaHash p.Operation) (n : ℕ) → psa_hash_finish p h n ≡ fault → ⊥
  unfolding psa_hash_finish
  finish-inside h n stops = elim (Bool-cases (is_psa_success h.status)) [
    | inl good ↦
        error_hash-inside (p.hash_finish h.ctx n).0 (bytes (p.hash_finish h.ctx n).1)
          (rw good at stops)
    | inr bad ↦ error_hash-inside h.status (bytes []) (rw bad at stops)
  ]

  -- The adapter leaves no array.
  pub psa_crypto-StaysInside : StaysInside (psa_crypto p)
  unfolding psa_hash_start
  psa_crypto-StaysInside = record {
    start_inside = λ id h. error_hash-inside (p.hash_setup (cose_hash_alg_id_to_psa p id)).0 _ h;
    finish_inside = finish-inside;
    verify_inside = verify-inside;
    verify_eddsa_inside = λ k kid tbs signature h. absurd cc;
  }
