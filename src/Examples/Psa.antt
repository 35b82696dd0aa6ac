-- ===== src/Examples/Psa.antt =====
-- A PSA library with the numbers of psa/crypto_values.h, whose signature is the hash itself.
use t_cose.Common.{
  ℕ, ◌+◌, ◌/◌, ◌%◌, ltb, ◌==◌, ◌≡◌, refl, ◌∷◌, [], List, ◌++◌, length, take, null_buf, Buf, bytes,
  ok, ◌>>=◌, negsuc, ap, sym, arith, if◌then◌else◌, not, ◌||◌,
}
use t_cose.Examples.Models.{same_bytes, same_bytes_refl, toy_key}
use t_cose.Psa.{
  Psa, PsaStatus, psa_is_algorithm_supported, cose_hash_alg_id_to_psa,
  psa_status_to_t_cose_error_signing, cose_alg_id_to_psa_alg_id, is_not_signing, psa_hash_start,
  psa_hash_finish, psa_sign, psa_verify,
}
use t_cose.Qcbor.Encoder.{contents}
use t_cose.Psa.Algorithms.{EncodesAlgorithms, psa_is_algorithm_supported-maps}
use t_cose.Psa.Hash.{hash_in_parts, psa_hash_updates, hash_finish-hash_in_parts}
use t_cose.Psa.Keys.{KeyPair, psa_verify-psa_sign}

abbrev toy_psa : Psa
toy_psa = record {
  alg_sha_256 = 0x02000009;
  alg_sha_384 = 0x0200000a;
  alg_sha_512 = 0x0200000b;
  alg_ecdsa = λ h. 0x06000600 + h % 256;
  alg_rsa_pss = λ h. 0x06000300 + h % 256;
  alg_is_ecdsa = λ alg. alg / 256 == 0x060006;
  alg_is_rsa_pss = λ alg. alg / 256 == 0x060003;
  Operation = List ℕ;
  hash_setup =
      λ alg. if alg == 65535 then (PsaStatus.not_supported, []) else (PsaStatus.success, []);
  hash_update =
      λ o b. if ltb 8 (length b) then (PsaStatus.no_memory, o) else (PsaStatus.success, o ++ b);
  hash_finish = λ o n. (PsaStatus.success, take 32 o);
  sign_hash = λ key alg hash buffer. (PsaStatus.success, contents hash);
  verify_hash = λ key alg hash signature.
      if same_bytes (bytes (contents hash)) signature
      then PsaStatus.success
      else PsaStatus.invalid_signature;
  KeyAttributes = Unit;
  get_key_attributes = λ key. (PsaStatus.success, tt);
  key_type = λ attributes. 0x7112;
  key_bits = λ attributes. 256;
  sign_output_size = λ type bits alg. 64;
}

toy_psa-EncodesAlgorithms : EncodesAlgorithms toy_psa
toy_psa-EncodesAlgorithms = record {
  ecdsa = λ h. ground arith;
  rsa_pss = λ h. ground arith;
  none_ecdsa = refl;
  none_rsa_pss = refl;
  sha_256 = omega arith;
  sha_384 = omega arith;
  sha_512 = omega arith;
}

toy_psa-KeyPair : KeyPair toy_psa 7 7
toy_psa-KeyPair = record {
  verify_hash-sign_hash = λ alg hash space signature h.
      rw (sym (ap (λ r. r.1) h), same_bytes_refl (bytes (contents hash))) refl;
}

-- The second part is NULL, and the third is too long for this library.
abbrev three_parts : List Buf
three_parts = bytes (1 ∷ 2 ∷ []) ∷ null_buf ∷ bytes (1 ∷ 2 ∷ 3 ∷ 4 ∷ 5 ∷ 6 ∷ 7 ∷ 8 ∷ 9 ∷ []) ∷ []

hash_finish-hash_in_parts_example :
    (psa_hash_start toy_psa (negsuc 15) >>= λ h.
    psa_hash_finish toy_psa (psa_hash_updates toy_psa h three_parts) 32)
    ≡ hash_in_parts toy_psa (negsuc 15) three_parts 32
hash_finish-hash_in_parts_example = hash_finish-hash_in_parts toy_psa (negsuc 15) three_parts 32

psa_is_algorithm_supported-maps_example : psa_is_algorithm_supported (negsuc 34) ≡ (
    not (cose_hash_alg_id_to_psa toy_psa (negsuc 34) == 65535)
    || not (is_not_signing toy_psa (cose_alg_id_to_psa_alg_id toy_psa (negsuc 34))))
psa_is_algorithm_supported-maps_example =
    psa_is_algorithm_supported-maps toy_psa toy_psa-EncodesAlgorithms (negsuc 34)

psa_verify-psa_sign_example :
    psa_verify toy_psa (negsuc 6) toy_key null_buf (bytes (1 ∷ 2 ∷ [])) (bytes (1 ∷ 2 ∷ [])) ≡ ok tt
unfolding psa_sign cose_alg_id_to_psa_alg_id psa_status_to_t_cose_error_signing
psa_verify-psa_sign_example =
    psa_verify-psa_sign toy_psa toy_key toy_key toy_psa-KeyPair (negsuc 6) null_buf
      (bytes (1 ∷ 2 ∷ [])) (bytes (1 ∷ 2 ∷ [])) (0 ∷ 0 ∷ []) refl
