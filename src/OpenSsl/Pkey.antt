-- ===== src/OpenSsl/Pkey.antt =====
-- Signing and verifying a hash in crypto_adapters/t_cose_openssl_crypto.c.
use t_cose.Common.{
  ℕ, ◌+◌, ℤ, pos, eq_ℤ, not, ◌&&◌, List, if◌then◌else◌, Option, none, some, Buf, null, bytes,
  null_buf, UsefulBuf, Result, ok, err, fault, ◌>>=◌, ◌>>◌, fail_if, unsupported_signing_alg,
  insufficient_memory, sig_fail, sig_verify,
}
use t_cose.Algorithm.{
  is_ecdsa, is_rsassa_pss, cose_algorithm_ps256, cose_algorithm_ps384, cose_algorithm_ps512,
}
use t_cose.Crypto.{Key, max_ecdsa_sig_size}
use t_cose.OpenSsl.{
  OpenSsl, or_error, zeros, ecdsa_signature_der_to_cose, ecdsa_signature_cose_to_der, key_convert,
}
use t_cose.OpenSsl.Evp.{Evp}

-- T_COSE_MAX_ECDSA_SIG_SIZE + DER_SIG_ENCODE_OVER_HEAD
abbrev pub der_buffer_size : ℕ
der_buffer_size = max_ecdsa_sig_size + 16

-- `if(ossl_result == 0) … else if(ossl_result != 1) …`
abbrev pub verify_result : ℤ → Result (Unit {0})
verify_result ossl_result =
    if eq_ℤ ossl_result (pos 0)
    then err sig_verify
    else if not (eq_ℤ ossl_result (pos 1))
    then err sig_fail
    else ok tt

module _ (o : OpenSsl) (u : UsefulBuf) where
  -- The buffer is set to zero, which a NULL pointer does not survive, if the signature is decoded.
  unfoldable pub der_to_buffer : ℕ → Buf → Buf → Result Buf
  der_to_buffer key_evp der_signature (bytes b) =
      ecdsa_signature_der_to_cose o key_evp der_signature b
  der_to_buffer key_evp der_signature (null n) = elim (o.d2i_ecdsa_sig der_signature) [
    | none ↦ ok null_buf
    | some es ↦ fault
  ]

  -- After the signature of OpenSSL is made, in DER.
  unfoldable pub cose_of_der : ℕ → Buf → Buf → Result Buf
  cose_of_der key_evp signature_buffer der_signature = do
    signature ← der_to_buffer key_evp der_signature signature_buffer
    fail_if (u.is_null signature) sig_fail
    ok signature

module _ (v : Evp) where
  -- The switch over the three algorithms of RSASSA-PSS.
  unfoldable pub pss_md : ℤ → Result v.Md
  pss_md id =
      if eq_ℤ id cose_algorithm_ps256
      then ok v.sha256
      else if eq_ℤ id cose_algorithm_ps384
      then ok v.sha384
      else if eq_ℤ id cose_algorithm_ps512
      then ok v.sha512
      else err unsupported_signing_alg

  abbrev configure_pss : v.PkeyCtx → v.Md → Result v.PkeyCtx
  configure_pss context md = do
    padded_context ← or_error (v.set_rsa_padding v.rsa_pkcs1_pss_padding context) sig_fail
    signing_context ← or_error (v.set_signature_md md padded_context) sig_fail
    masked_context ← or_error (v.set_rsa_mgf1_md md signing_context) sig_fail
    or_error (v.set_rsa_pss_saltlen v.rsa_pss_saltlen_digest masked_context) sig_fail

  unfoldable pub configure_pkey_context : v.PkeyCtx → ℤ → Result v.PkeyCtx
  configure_pkey_context context id =
      if is_ecdsa id
      then ok context
      else if is_rsassa_pss id
      then (pss_md id >>= configure_pss context)
      else err unsupported_signing_alg

  -- A new context for a key, initialised by EVP_PKEY_sign_init() or EVP_PKEY_verify_init() and set up
  -- for the algorithm.
  unfoldable pub pkey_context : (v.PkeyCtx → Option v.PkeyCtx) → ℕ → ℤ → Result v.PkeyCtx
  pkey_context init key_evp id = do
    context ← or_error (v.pkey_ctx_new key_evp) insufficient_memory
    started ← or_error (init context) sig_fail
    configure_pkey_context started id

  module _ (o : OpenSsl) (u : UsefulBuf) where
    -- The bytes on the stack are not read: zeros stand for them.
    unfoldable pub openssl_sign : ℤ → Key → Buf → Buf → Result Buf
    openssl_sign id signing_key hash_to_sign signature_buffer = do
      fail_if (not (is_ecdsa id) && not (is_rsassa_pss id)) unsupported_signing_alg
      signing_key_evp ← key_convert o signing_key
      context ← pkey_context v.pkey_sign_init signing_key_evp id
      (if is_ecdsa id
          then (or_error (v.pkey_sign context (bytes (zeros der_buffer_size)) hash_to_sign) sig_fail
              >>= cose_of_der o u signing_key_evp signature_buffer)
          else if is_rsassa_pss id
          then or_error (v.pkey_sign context signature_buffer hash_to_sign) sig_fail
          else err unsupported_signing_alg)

    module _ (copy : ℕ → List ℕ → Buf) where
      unfoldable pub openssl_verify : ℤ → Key → Buf → Buf → Buf → Result (Unit {0})
      openssl_verify id verification_key kid hash_to_verify cose_signature = do
        fail_if (not (is_ecdsa id) && not (is_rsassa_pss id)) unsupported_signing_alg
        verification_key_evp ← key_convert o verification_key
        openssl_signature ←
            (if is_ecdsa id
              then ecdsa_signature_cose_to_der o copy u verification_key_evp cose_signature
                  der_buffer_size
              else if is_rsassa_pss id
              then ok cose_signature
              else err unsupported_signing_alg)
        context ← pkey_context v.pkey_verify_init verification_key_evp id
        verify_result (v.pkey_verify context openssl_signature hash_to_verify)
