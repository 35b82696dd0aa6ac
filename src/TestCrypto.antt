-- ===== src/TestCrypto.antt =====
-- crypto_adapters/t_cose_test_crypto.c: the cryptographic library of the tests, which has SHA-256 and no
-- signatures. The option T_COSE_ENABLE_HASH_FAIL_TEST is off.
pub mod Hash
use t_cose.Common.{
  ℕ, ltb, ℤ, pos, eq_ℤ, not, List, [], ◌∷◌, if◌then◌else◌, Bool, Buf, null, bytes, Result, ok, err,
  fault, unsupported_hash, unsupported_signing_alg, Option, none, some,
}
use t_cose.Algorithm.{check_list, cose_algorithm_sha_256}
use t_cose.Crypto.{Crypto, Key, max_ecdsa_sig_size}
use t_cose.Sha256.{Sha256Ctx, sha256_init, sha256_update, sha256_final}

abbrev pub test_is_algorithm_supported : ℤ → Bool
test_is_algorithm_supported id = check_list id (cose_algorithm_sha_256 ∷ pos 0 ∷ [])

-- `fresh` is the context of the caller, whose data are left as they are.
unfoldable pub test_hash_start : Sha256Ctx → ℤ → Result (Option Sha256Ctx)
test_hash_start fresh cose_hash_alg_id =
    if not (eq_ℤ cose_hash_alg_id cose_algorithm_sha_256)
    then err unsupported_hash
    else ok (some (sha256_init fresh))

-- Behind a call that has not returned there is no context.
unfoldable pub test_hash_update : Option Sha256Ctx → Buf → Option Sha256Ctx
test_hash_update none data_to_hash = none
test_hash_update (some hash_ctx) (null n) = some hash_ctx
test_hash_update (some hash_ctx) (bytes b) = sha256_update hash_ctx b

-- The length of the buffer is not looked at: the 32 bytes of the hash are written. Where an update has
-- not returned there is no result either, which is a `fault`.
unfoldable pub test_hash_finish : Option Sha256Ctx → ℕ → Result Buf
test_hash_finish none buffer_size = fault
test_hash_finish (some hash_ctx) buffer_size =
    if ltb buffer_size 32 then fault else ok (bytes (sha256_final hash_ctx))

abbrev pub test_crypto : Sha256Ctx → Crypto
test_crypto fresh = record {
  HashCtx = Option Sha256Ctx;
  is_algorithm_supported = test_is_algorithm_supported;
  hash_start = test_hash_start fresh;
  hash_update = test_hash_update;
  hash_finish = test_hash_finish;
  sig_size = λ id key. ok max_ecdsa_sig_size;
  sign = λ id key hash buffer. err unsupported_signing_alg;
  sign_eddsa = λ key tbs buffer. err unsupported_signing_alg;
  verify = λ id key kid hash signature. err unsupported_signing_alg;
  verify_eddsa = λ key kid tbs signature. err unsupported_signing_alg;
}
