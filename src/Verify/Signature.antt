-- ===== src/Verify/Signature.antt =====
-- The three ways of src/t_cose_sign1_verify.c to check a signature.
use t_cose.Common.{
  not, Bool, true, false, if◌then◌else◌, Buf, len, is_null_ptr, UsefulBuf, Err, Result, ok, err,
  fault, ◌>>=◌, ◌>>◌, fail_if, too_small, auxiliary_buffer_size, short_circuit_sig,
  need_auxiliary_buffer,
}
use t_cose.Crypto.{Crypto}
use t_cose.Parameters.{CoseParameters}
use t_cose.Qcbor.Encoder.{Encoder}
use t_cose.ShortCircuit.{short_circuit_verify}
use t_cose.Tbs.{create_tbs, create_tbs_hash, max_hash_size}
use t_cose.Verify.Context.{VerifyCtx, has_flag, opt_allow_short_circuit, opt_decode_only}

abbrev is_too_small : Err → Bool
is_too_small too_small = true
is_too_small _ = false

-- T_COSE_ERR_TOO_SMALL said of the auxiliary buffer.
abbrev pub name_buffer : Result Buf → Result Buf
name_buffer (ok b) = ok b
name_buffer (err e) = err (if is_too_small e then auxiliary_buffer_size else e)
name_buffer fault = fault

module _ (c : Crypto) (e : Encoder) (u : UsefulBuf) (me : VerifyCtx) (parameters : CoseParameters)
    (signature protected_parameters aad payload : Buf) where
  unfoldable pub verify_short_circuit : Result (Unit {0})
  verify_short_circuit = if has_flag me.option_flags opt_decode_only then ok tt else (do
    fail_if (not (has_flag me.option_flags opt_allow_short_circuit)) short_circuit_sig
    tbs_hash ←
        create_tbs_hash c e parameters.cose_algorithm_id protected_parameters aad payload
          max_hash_size
    short_circuit_verify u tbs_hash signature)

  -- After the bytes are encoded.
  unfoldable pub verify_eddsa_tbs : Result Buf → VerifyCtx × Result (Unit {0})
  verify_eddsa_tbs (err x) = (me, err x)
  verify_eddsa_tbs fault = (me, fault)
  verify_eddsa_tbs (ok tbs) = (
    record me { auxiliary_buffer_size = len tbs },
    if has_flag me.option_flags opt_decode_only
        then ok tt
        else if is_null_ptr me.auxiliary_buffer
        then err need_auxiliary_buffer
        else c.verify_eddsa me.verification_key parameters.kid tbs signature,
  )

  unfoldable pub verify_eddsa : VerifyCtx × Result (Unit {0})
  verify_eddsa =
      verify_eddsa_tbs
        (name_buffer (create_tbs e protected_parameters aad payload me.auxiliary_buffer))

  unfoldable pub verify_default : Result (Unit {0})
  verify_default = if has_flag me.option_flags opt_decode_only then ok tt else (do
    tbs_hash ←
        create_tbs_hash c e parameters.cose_algorithm_id protected_parameters aad payload
          max_hash_size
    c.verify parameters.cose_algorithm_id me.verification_key parameters.kid tbs_hash signature)
