-- ===== src/OpenSsl/Digest.antt =====
-- Hashing, EdDSA and the list of algorithms in crypto_adapters/t_cose_openssl_crypto.c, and the adapter as a
-- value of the interface.
use t_cose.Common.{
  ℕ, ◌==◌, ℤ, pos, eq_ℤ, not, Bool, List, [], ◌∷◌, if◌then◌else◌, Buf, null, bytes, UsefulBuf,
  Result, ok, err, ◌>>=◌, unsupported_hash, insufficient_memory, hash_general_fail, sig_fail,
}
use t_cose.Algorithm.{
  check_list, cose_algorithm_sha_256, cose_algorithm_sha_384, cose_algorithm_sha_512,
  cose_algorithm_es256, cose_algorithm_es384, cose_algorithm_es512, cose_algorithm_ps256,
  cose_algorithm_ps384, cose_algorithm_ps512, cose_algorithm_eddsa,
}
use t_cose.Crypto.{Crypto, Key}
use t_cose.OpenSsl.{OpenSsl, or_error, key_convert, openssl_sig_size}
use t_cose.OpenSsl.Evp.{Evp}
use t_cose.OpenSsl.Pkey.{openssl_sign, openssl_verify, verify_result}

unfoldable pub openssl_is_algorithm_supported : ℤ → Bool
openssl_is_algorithm_supported id = check_list id (
    cose_algorithm_sha_256
    ∷ cose_algorithm_sha_384
    ∷ cose_algorithm_sha_512
    ∷ cose_algorithm_es256
    ∷ cose_algorithm_es384
    ∷ cose_algorithm_es512
    ∷ cose_algorithm_ps256
    ∷ cose_algorithm_ps384
    ∷ cose_algorithm_ps512
    ∷ cose_algorithm_eddsa
    ∷ pos 0
    ∷ [])

-- `struct t_cose_crypto_hash`
pub record OpensslHash (MdCtx : Type 0) : Type 0 where
  pub evp_ctx : MdCtx
  pub update_error : ℕ
  pub cose_hash_alg_id : ℤ

module _ (v : Evp) where
  unfoldable pub hash_nid : ℤ → Result ℕ
  hash_nid id =
      if eq_ℤ id cose_algorithm_sha_256
      then ok v.nid_sha256
      else if eq_ℤ id cose_algorithm_sha_384
      then ok v.nid_sha384
      else if eq_ℤ id cose_algorithm_sha_512
      then ok v.nid_sha512
      else err unsupported_hash

  unfoldable pub openssl_hash_start : ℤ → Result (OpensslHash v.MdCtx)
  openssl_hash_start cose_hash_alg_id = do
    nid ← hash_nid cose_hash_alg_id
    message_digest ← or_error (v.get_digestbynid nid) unsupported_hash
    fresh ← or_error v.md_ctx_new insufficient_memory
    started ← or_error (v.digest_init fresh message_digest) hash_general_fail
    ok (record { evp_ctx = started; update_error = 1; cose_hash_alg_id = cose_hash_alg_id })

  abbrev pub updated : OpensslHash v.MdCtx → ℕ × v.MdCtx → OpensslHash v.MdCtx
  updated h (ossl_result, evp_ctx) = record h { evp_ctx = evp_ctx; update_error = ossl_result }

  unfoldable pub openssl_hash_update : OpensslHash v.MdCtx → Buf → OpensslHash v.MdCtx
  openssl_hash_update h (null n) = h
  openssl_hash_update h (bytes b) =
      if not (h.update_error == 0) then updated h (v.digest_update h.evp_ctx b) else h

  abbrev final_hash : ℕ × List ℕ → Result Buf
  final_hash (ossl_result, hash) =
      if not (ossl_result == 0) then ok (bytes hash) else err hash_general_fail

  unfoldable pub openssl_hash_finish : OpensslHash v.MdCtx → ℕ → Result Buf
  openssl_hash_finish h buffer_size =
      if h.update_error == 0
      then err hash_general_fail
      else final_hash (v.digest_final h.evp_ctx buffer_size)

  module _ (o : OpenSsl) where
    unfoldable pub openssl_sign_eddsa : Key → Buf → Buf → Result Buf
    openssl_sign_eddsa signing_key tbs signature_buffer = do
      signing_key_evp ← key_convert o signing_key
      fresh ← or_error v.md_ctx_new insufficient_memory
      sign_context ← or_error (v.digest_sign_init fresh signing_key_evp) sig_fail
      or_error (v.digest_sign sign_context signature_buffer tbs) sig_fail

    unfoldable pub openssl_verify_eddsa : Key → Buf → Buf → Buf → Result (Unit {0})
    openssl_verify_eddsa verification_key kid tbs signature = do
      verification_key_evp ← key_convert o verification_key
      fresh ← or_error v.md_ctx_new insufficient_memory
      verify_context ← or_error (v.digest_verify_init fresh verification_key_evp) sig_fail
      verify_result (v.digest_verify verify_context signature tbs)

    abbrev pub openssl_crypto : UsefulBuf → (ℕ → List ℕ → Buf) → Crypto
    openssl_crypto u copy = record {
      HashCtx = OpensslHash v.MdCtx;
      is_algorithm_supported = openssl_is_algorithm_supported;
      hash_start = openssl_hash_start;
      hash_update = openssl_hash_update;
      hash_finish = openssl_hash_finish;
      sig_size = openssl_sig_size o;
      sign = openssl_sign v o u;
      sign_eddsa = openssl_sign_eddsa;
      verify = openssl_verify v o u copy;
      verify_eddsa = openssl_verify_eddsa;
    }
