-- ===== src/Psa/Algorithms.antt =====
-- The identifiers of algorithms of the PSA adapter.
use t_cose.Common.{ℕ, ◌<◌, ◌==◌, ◌≡◌, true, false, not, ◌||◌, ℤ, pos, negsuc, arith}
use t_cose.Algorithm.{check_list}
use t_cose.Psa.{
  Psa, psa_is_algorithm_supported, cose_alg_id_to_psa_alg_id, cose_hash_alg_id_to_psa,
  is_not_signing,
}

-- The encoding of algorithms of psa/crypto_values.h.
pub record EncodesAlgorithms (p : Psa) : Type 0 where
  pub ecdsa : (h : ℕ) → p.alg_is_ecdsa (p.alg_ecdsa h) ≡ true
  pub rsa_pss : (h : ℕ) → p.alg_is_rsa_pss (p.alg_rsa_pss h) ≡ true
  pub none_ecdsa : p.alg_is_ecdsa 0 ≡ false
  pub none_rsa_pss : p.alg_is_rsa_pss 0 ≡ false
  pub sha_256 : 65535 < p.alg_sha_256
  pub sha_384 : 65535 < p.alg_sha_384
  pub sha_512 : 65535 < p.alg_sha_512

module _ (p : Psa) where
  -- An identifier that the list of the PSA adapter has is one of a hash that is mapped to PSA, or one
  -- of signatures, and there are no others.
  pub psa_is_algorithm_supported-maps :
      EncodesAlgorithms p
      → (id : ℤ)
      → psa_is_algorithm_supported id ≡ (
          not (cose_hash_alg_id_to_psa p id == 65535)
          || not (is_not_signing p (cose_alg_id_to_psa_alg_id p id)))
  unfolding psa_is_algorithm_supported check_list cose_hash_alg_id_to_psa cose_alg_id_to_psa_alg_id
  psa_is_algorithm_supported-maps coding (pos m) = ground (
    arith,
    coding.ecdsa p.alg_sha_256,
    coding.ecdsa p.alg_sha_384,
    coding.ecdsa p.alg_sha_512,
    coding.rsa_pss p.alg_sha_256,
    coding.rsa_pss p.alg_sha_384,
    coding.rsa_pss p.alg_sha_512,
    coding.none_ecdsa,
    coding.none_rsa_pss,
    coding.sha_256,
    coding.sha_384,
    coding.sha_512,
  )
  psa_is_algorithm_supported-maps coding (negsuc m) = ground (
    arith,
    coding.ecdsa p.alg_sha_256,
    coding.ecdsa p.alg_sha_384,
    coding.ecdsa p.alg_sha_512,
    coding.rsa_pss p.alg_sha_256,
    coding.rsa_pss p.alg_sha_384,
    coding.rsa_pss p.alg_sha_512,
    coding.none_ecdsa,
    coding.none_rsa_pss,
    coding.sha_256,
    coding.sha_384,
    coding.sha_512,
  )
