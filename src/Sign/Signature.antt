-- ===== src/Sign/Signature.antt =====
-- The three ways of src/t_cose_sign1_sign.c to make a signature. Without a buffer for it, only its
-- size is computed.
use t_cose.Common.{
  ℕ, if◌then◌else◌, Buf, null, len, is_null_ptr, Result, ok, err, fault, ◌>>=◌,
  need_auxiliary_buffer,
}
use t_cose.Crypto.{Crypto}
use t_cose.Qcbor.Encoder.{Encoder}
use t_cose.ShortCircuit.{short_circuit_sig_size, short_circuit_sign}
use t_cose.Sign.Context.{SignCtx}
use t_cose.Tbs.{create_tbs, create_tbs_hash, max_hash_size}
use t_cose.Verify.Signature.{name_buffer}

-- `signature->ptr = NULL`, and the length.
abbrev pub sized : Result ℕ → Result Buf
sized r = r >>= λ n. ok (null n)

module _ (c : Crypto) (e : Encoder) (me : SignCtx) (aad payload buffer_for_signature : Buf) where
  unfoldable pub sign_short_circuit : Result Buf
  sign_short_circuit = do
    tbs_hash ←
        create_tbs_hash c e me.cose_algorithm_id me.protected_parameters aad payload max_hash_size
    (if is_null_ptr buffer_for_signature
        then sized (short_circuit_sig_size me.cose_algorithm_id)
        else short_circuit_sign me.cose_algorithm_id tbs_hash buffer_for_signature)

  -- After the bytes are encoded.
  unfoldable pub sign_eddsa_tbs : Result Buf → SignCtx × Result Buf
  sign_eddsa_tbs (err x) = (me, err x)
  sign_eddsa_tbs fault = (me, fault)
  sign_eddsa_tbs (ok tbs) = (
    record me { auxiliary_buffer_size = len tbs },
    if is_null_ptr buffer_for_signature
        then sized (c.sig_size me.cose_algorithm_id me.signing_key)
        else if is_null_ptr me.auxiliary_buffer
        then err need_auxiliary_buffer
        else c.sign_eddsa me.signing_key tbs buffer_for_signature,
  )

  unfoldable pub sign_eddsa : SignCtx × Result Buf
  sign_eddsa =
      sign_eddsa_tbs
        (name_buffer (create_tbs e me.protected_parameters aad payload me.auxiliary_buffer))

  unfoldable pub sign_default : Result Buf
  sign_default = do
    tbs_hash ←
        create_tbs_hash c e me.cose_algorithm_id me.protected_parameters aad payload max_hash_size
    (if is_null_ptr buffer_for_signature
        then sized (c.sig_size me.cose_algorithm_id me.signing_key)
        else c.sign me.cose_algorithm_id me.signing_key tbs_hash buffer_for_signature)
