-- ===== src/OpenSsl.antt =====
-- crypto_adapters/t_cose_openssl_crypto.c: the conversions between DER and COSE, the sizes of
-- keys and signatures, and the checks of a key. The OpenSSL library is a parameter.
pub mod Writes
pub mod Der
pub mod Encode
pub mod Keys
pub mod Evp
pub mod Pkey
pub mod Digest
pub mod Stream
pub mod Pairs
pub mod Accepts
use t_cose.Common.{
  ℕ, suc, ◌+◌, ◌-◌, ◌*◌, ◌/◌, ◌%◌, ltb, ◌==◌, ℤ, pos, eq_ℤ, not, List, [], ◌∷◌, ◌++◌, length, take,
  drop, replicate, if◌then◌else◌, Bool, Option, none, some, Buf, null, bytes, null_buf, Result, ok,
  err, fault, ◌>>=◌, incorrect_key_for_lib, empty_key, unsupported_signing_alg, UsefulBuf, Err,
  sig_fail, sig_verify, insufficient_memory,
}
use t_cose.Algorithm.{is_ecdsa, is_rsassa_pss, cose_algorithm_eddsa}
use t_cose.Crypto.{Key, CryptoLib, lib_openssl, lib_psa, lib_unidentified}

-- The functions of OpenSSL that this part uses. A key is its address.
pub record OpenSsl : Type 1 where
  pub pkey_bits : ℕ → ℕ
  pub pkey_size : ℕ → ℕ
  pub EcdsaSig : Type 0
  pub Bignum : Type 0
  -- NULL is `none`.
  pub d2i_ecdsa_sig : Buf → Option EcdsaSig
  pub ecdsa_sig_get0 : EcdsaSig → Bignum × Bignum
  pub bn_num_bytes : Bignum → ℕ
  pub bn_bn2bin : Bignum → List ℕ
  pub bn_bin2bn : List ℕ → Option Bignum
  pub ecdsa_sig_new : Option EcdsaSig
  -- `none` if it does not return 1.
  pub ecdsa_sig_set0 : EcdsaSig → Bignum → Bignum → Option EcdsaSig
  -- `none` if it returns a negative number.
  pub i2d_ecdsa_sig : EcdsaSig → Option (List ℕ)

abbrev pub zeros : ℕ → List ℕ
zeros n = replicate n 0

-- Bytes that are written from an offset on.
unfoldable pub write_at : List ℕ → ℕ → List ℕ → Result (List ℕ)
write_at buffer offset written =
    if ltb (length buffer) (offset + length written)
    then fault
    else ok (take offset buffer ++ written ++ drop (offset + length written) buffer)

-- A pointer `start + size - used`, which may lie in front of the buffer.
unfoldable pub write_before : List ℕ → ℕ → List ℕ → Result (List ℕ)
write_before buffer size written =
    if ltb size (length written) then fault else write_at buffer (size - length written) written

-- NULL or a failure is the error.
abbrev pub or_error : {A : Type 0} → Option A → Err → Result A
or_error none e = err e
or_error (some a) e = ok a

module _ (o : OpenSsl) where
  unfoldable pub ecdsa_key_size : ℕ → ℕ
  ecdsa_key_size key_evp =
      let key_len_bits = o.pkey_bits key_evp in
      let key_len_bytes = key_len_bits / 8 in
      if key_len_bits % 8 == 0 then key_len_bytes else suc key_len_bytes

  -- The returned signature is the first bytes of the buffer; more than the buffer has is a fault.
  abbrev first_bytes : ℕ → List ℕ → Result Buf
  first_bytes n buffer = if ltb (length buffer) n then fault else ok (bytes (take n buffer))

  abbrev pub copy_numbers : ℕ → o.Bignum × o.Bignum → List ℕ → Result Buf
  copy_numbers key_len (r_bn, s_bn) signature_buffer =
      let r_len = o.bn_num_bytes r_bn in
      let s_len = o.bn_num_bytes s_bn in
      if ltb (length signature_buffer) (r_len + s_len) then ok null_buf else do
        with_r ← write_before signature_buffer key_len (o.bn_bn2bin r_bn)
        with_s ← write_before with_r (2 * key_len) (o.bn_bn2bin s_bn)
        first_bytes (2 * key_len) with_s

  abbrev converted : ℕ → Option o.EcdsaSig → List ℕ → Result Buf
  converted key_len none signature_buffer = ok null_buf
  converted key_len (some es) signature_buffer =
      copy_numbers key_len (o.ecdsa_sig_get0 es) (zeros (length signature_buffer))

  unfoldable pub ecdsa_signature_der_to_cose : ℕ → Buf → List ℕ → Result Buf
  ecdsa_signature_der_to_cose key_evp der_signature signature_buffer =
      converted (ecdsa_key_size key_evp) (o.d2i_ecdsa_sig der_signature) signature_buffer

  -- `copy` is q_useful_buf_copy_ptr() for a buffer of so many bytes.
  module _ (copy : ℕ → List ℕ → Buf) (u : UsefulBuf) where
    abbrev copied : Buf → Result Buf
    copied der_signature = if u.null_or_empty der_signature then err sig_fail else ok der_signature

    abbrev numbers_to_der : ℕ → List ℕ → ℕ → Result Buf
    numbers_to_der key_len cose_signature buffer_size = do
      r ← or_error (o.bn_bin2bn (take key_len cose_signature)) insufficient_memory
      s ← or_error (o.bn_bin2bn (take key_len (drop key_len cose_signature))) insufficient_memory
      empty_signature ← or_error o.ecdsa_sig_new insufficient_memory
      signature ← or_error (o.ecdsa_sig_set0 empty_signature r s) sig_fail
      der ← or_error (o.i2d_ecdsa_sig signature) sig_fail
      copied (copy buffer_size der)

    -- A NULL pointer that is to have bytes is read.
    unfoldable pub ecdsa_signature_cose_to_der : ℕ → Buf → ℕ → Result Buf
    ecdsa_signature_cose_to_der key_evp (null n) buffer_size =
        if not (n == ecdsa_key_size key_evp * 2) then err sig_verify else fault
    ecdsa_signature_cose_to_der key_evp (bytes b) buffer_size =
        if not (length b == ecdsa_key_size key_evp * 2)
        then err sig_verify
        else numbers_to_der (ecdsa_key_size key_evp) b buffer_size

  abbrev is_openssl : CryptoLib → Bool
  is_openssl lib_unidentified = Bool.false
  is_openssl lib_openssl = Bool.true
  is_openssl lib_psa = Bool.false

  unfoldable pub key_convert : Key → Result ℕ
  key_convert t_cose_key =
      if not (is_openssl t_cose_key.crypto_lib)
      then err incorrect_key_for_lib
      else if t_cose_key.handle == 0
      then err empty_key
      else ok t_cose_key.handle

  unfoldable pub openssl_sig_size : ℤ → Key → Result ℕ
  openssl_sig_size id signing_key = key_convert signing_key >>= λ signing_key_evp.
      if is_ecdsa id
      then ok (ecdsa_key_size signing_key_evp * 2)
      else if is_rsassa_pss id
      then ok (o.pkey_size signing_key_evp)
      else if eq_ℤ id cose_algorithm_eddsa
      then ok (o.pkey_size signing_key_evp)
      else err unsupported_signing_alg
