-- ===== src/Psa.antt =====
-- crypto_adapters/t_cose_psa_crypto.c: the adapter for the PSA Cryptography API, which is a parameter. No
-- T_COSE_DISABLE_ macro is defined.
pub mod Status
pub mod Hash
pub mod Algorithms
pub mod Keys
use t_cose.Common.{
  ℕ, length, ℤ, pos, eq_ℤ, not, List, [], ◌∷◌, if◌then◌else◌, Bool, true, false, ◌&&◌, Buf, null,
  bytes, Err, Result, ok, err, ◌>>=◌, unsupported_hash, unsupported_signing_alg, hash_buffer_size,
  hash_general_fail, sig_verify, insufficient_memory, tampering_detected, sig_fail,
}
use t_cose.Algorithm.{
  check_list, cose_algorithm_sha_256, cose_algorithm_sha_384, cose_algorithm_sha_512,
  cose_algorithm_es256, cose_algorithm_es384, cose_algorithm_es512, cose_algorithm_ps256,
  cose_algorithm_ps384, cose_algorithm_ps512,
}
use t_cose.Crypto.{Crypto, Key}

-- `psa_status_t`: the codes that the adapter names, and any other one.
pub data PsaStatus : Type 0 where
  success invalid_signature not_supported no_memory corruption_detected : PsaStatus
  invalid_argument buffer_too_small : PsaStatus
  other : ℤ → PsaStatus

-- The functions and macros of <psa/crypto.h> that the adapter uses. `psa_algorithm_t` and the handle of
-- a key are numbers. psa_hash_setup() is given the value of psa_hash_operation_init().
pub record Psa : Type 1 where
  pub alg_sha_256 : ℕ
  pub alg_sha_384 : ℕ
  pub alg_sha_512 : ℕ
  pub alg_ecdsa : ℕ → ℕ
  pub alg_rsa_pss : ℕ → ℕ
  pub alg_is_ecdsa : ℕ → Bool
  pub alg_is_rsa_pss : ℕ → Bool
  pub Operation : Type 0
  pub hash_setup : ℕ → PsaStatus × Operation
  pub hash_update : Operation → List ℕ → PsaStatus × Operation
  pub hash_finish : Operation → ℕ → PsaStatus × List ℕ
  pub sign_hash : ℕ → ℕ → Buf → Buf → PsaStatus × List ℕ
  pub verify_hash : ℕ → ℕ → Buf → Buf → PsaStatus
  pub KeyAttributes : Type 0
  pub get_key_attributes : ℕ → PsaStatus × KeyAttributes
  pub key_type : KeyAttributes → ℕ
  pub key_bits : KeyAttributes → ℕ
  pub sign_output_size : ℕ → ℕ → ℕ → ℕ

-- `struct t_cose_crypto_hash`
pub record PsaHash (Operation : Type 0) : Type 0 where
  pub ctx : Operation
  pub status : PsaStatus

unfoldable pub psa_is_algorithm_supported : ℤ → Bool
psa_is_algorithm_supported id = check_list id (
    cose_algorithm_sha_256
    ∷ cose_algorithm_sha_384
    ∷ cose_algorithm_sha_512
    ∷ cose_algorithm_es256
    ∷ cose_algorithm_es384
    ∷ cose_algorithm_es512
    ∷ cose_algorithm_ps256
    ∷ cose_algorithm_ps384
    ∷ cose_algorithm_ps512
    ∷ pos 0
    ∷ [])

unfoldable pub psa_status_to_t_cose_error_signing : PsaStatus → Result (Unit {0})
psa_status_to_t_cose_error_signing success = ok tt
psa_status_to_t_cose_error_signing invalid_signature = err sig_verify
psa_status_to_t_cose_error_signing not_supported = err unsupported_signing_alg
psa_status_to_t_cose_error_signing no_memory = err insufficient_memory
psa_status_to_t_cose_error_signing corruption_detected = err tampering_detected
psa_status_to_t_cose_error_signing invalid_argument = err sig_fail
psa_status_to_t_cose_error_signing buffer_too_small = err sig_fail
psa_status_to_t_cose_error_signing (other code) = err sig_fail

unfoldable pub psa_status_to_t_cose_error_hash : PsaStatus → Result (Unit {0})
psa_status_to_t_cose_error_hash success = ok tt
psa_status_to_t_cose_error_hash invalid_signature = err hash_general_fail
psa_status_to_t_cose_error_hash not_supported = err unsupported_hash
psa_status_to_t_cose_error_hash no_memory = err hash_general_fail
psa_status_to_t_cose_error_hash corruption_detected = err hash_general_fail
psa_status_to_t_cose_error_hash invalid_argument = err unsupported_hash
psa_status_to_t_cose_error_hash buffer_too_small = err hash_buffer_size
psa_status_to_t_cose_error_hash (other code) = err hash_general_fail

abbrev pub is_psa_success : PsaStatus → Bool
is_psa_success success = true
is_psa_success invalid_signature = false
is_psa_success not_supported = false
is_psa_success no_memory = false
is_psa_success corruption_detected = false
is_psa_success invalid_argument = false
is_psa_success buffer_too_small = false
is_psa_success (other code) = false

-- The signature stands at the start of the buffer of the caller.
abbrev pub placed : Buf → List ℕ → Buf
placed (null n) written = null (length written)
placed (bytes b) written = bytes written

module _ (p : Psa) where
  unfoldable pub cose_alg_id_to_psa_alg_id : ℤ → ℕ
  cose_alg_id_to_psa_alg_id id =
      if eq_ℤ id cose_algorithm_es256
      then p.alg_ecdsa p.alg_sha_256
      else if eq_ℤ id cose_algorithm_es384
      then p.alg_ecdsa p.alg_sha_384
      else if eq_ℤ id cose_algorithm_es512
      then p.alg_ecdsa p.alg_sha_512
      else if eq_ℤ id cose_algorithm_ps256
      then p.alg_rsa_pss p.alg_sha_256
      else if eq_ℤ id cose_algorithm_ps384
      then p.alg_rsa_pss p.alg_sha_384
      else if eq_ℤ id cose_algorithm_ps512
      then p.alg_rsa_pss p.alg_sha_512
      else 0

  -- UINT16_MAX for any other identifier.
  unfoldable pub cose_hash_alg_id_to_psa : ℤ → ℕ
  cose_hash_alg_id_to_psa id =
      if eq_ℤ id cose_algorithm_sha_256
      then p.alg_sha_256
      else if eq_ℤ id cose_algorithm_sha_384
      then p.alg_sha_384
      else if eq_ℤ id cose_algorithm_sha_512
      then p.alg_sha_512
      else 65535

  abbrev pub is_not_signing : ℕ → Bool
  is_not_signing alg = not (p.alg_is_ecdsa alg) && not (p.alg_is_rsa_pss alg)

  unfoldable pub psa_verify : ℤ → Key → Buf → Buf → Buf → Result (Unit {0})
  psa_verify id verification_key kid hash signature =
      let alg = cose_alg_id_to_psa_alg_id id in
      if is_not_signing alg
      then err unsupported_signing_alg
      else psa_status_to_t_cose_error_signing
          (p.verify_hash verification_key.handle alg hash signature)

  abbrev signature_of : Buf → PsaStatus × List ℕ → Result Buf
  signature_of buffer (status, signature) =
      psa_status_to_t_cose_error_signing status >>= λ done. ok (placed buffer signature)

  unfoldable pub psa_sign : ℤ → Key → Buf → Buf → Result Buf
  psa_sign id signing_key hash buffer =
      let alg = cose_alg_id_to_psa_alg_id id in
      if is_not_signing alg
      then err unsupported_signing_alg
      else signature_of buffer (p.sign_hash signing_key.handle alg hash buffer)

  abbrev key_sig_size : ℕ → PsaStatus × p.KeyAttributes → Result ℕ
  key_sig_size alg (status, attributes) = psa_status_to_t_cose_error_signing status >>= λ done.
      ok (p.sign_output_size (p.key_type attributes) (p.key_bits attributes) alg)

  unfoldable pub psa_sig_size : ℤ → Key → Result ℕ
  psa_sig_size id signing_key =
      let alg = cose_alg_id_to_psa_alg_id id in
      if is_not_signing alg
      then err unsupported_signing_alg
      else key_sig_size alg (p.get_key_attributes signing_key.handle)

  abbrev hash_state : PsaStatus × p.Operation → PsaHash p.Operation
  hash_state (status, ctx) = record { ctx = ctx; status = status }

  -- Its caller does not use the context after an error.
  unfoldable pub psa_hash_start : ℤ → Result (PsaHash p.Operation)
  psa_hash_start id =
      let started = hash_state (p.hash_setup (cose_hash_alg_id_to_psa id)) in
      psa_status_to_t_cose_error_hash started.status >>= λ done. ok started

  unfoldable pub psa_hash_update : PsaHash p.Operation → Buf → PsaHash p.Operation
  psa_hash_update h (null n) = h
  psa_hash_update h (bytes b) =
      if not (is_psa_success h.status) then h else hash_state (p.hash_update h.ctx b)

  abbrev hash_of : PsaStatus × List ℕ → Result Buf
  hash_of (status, hash) = psa_status_to_t_cose_error_hash status >>= λ done. ok (bytes hash)

  -- The bytes of the error state are those of a hash that was not made, and its status is an error.
  unfoldable pub psa_hash_finish : PsaHash p.Operation → ℕ → Result Buf
  psa_hash_finish h buffer_size =
      if not (is_psa_success h.status)
      then hash_of (h.status, [])
      else hash_of (p.hash_finish h.ctx buffer_size)

  abbrev pub psa_crypto : Crypto
  psa_crypto = record {
    HashCtx = PsaHash p.Operation;
    is_algorithm_supported = psa_is_algorithm_supported;
    hash_start = psa_hash_start;
    hash_update = psa_hash_update;
    hash_finish = psa_hash_finish;
    sig_size = psa_sig_size;
    sign = psa_sign;
    sign_eddsa = λ key tbs buffer. err unsupported_signing_alg;
    verify = psa_verify;
    verify_eddsa = λ key kid tbs signature. err unsupported_signing_alg;
  }
