-- ===== src/Sign/Message.antt =====
-- t_cose_sign1_encode_signature_aad_internal(), t_cose_sign1_sign_aad_internal() and their callers.
pub mod Calls
pub mod Listed
pub mod Signed
pub mod Complete
pub mod Nesting
use t_cose.Common.{
  ℕ, eq_ℤ, Bool, true, false, not, if◌then◌else◌, Buf, null_buf, len, UsefulBuf, Result, ok, err,
  fault, or_done, too_small, cbor_formatting, cbor_not_well_formed,
}
use t_cose.Algorithm.{cose_algorithm_eddsa}
use t_cose.Crypto.{Crypto}
use t_cose.Qcbor.{QcborError, is_success, is_buffer_too_small}
use t_cose.Qcbor.Encoder.{
  Encoder, EncodeCtx, encode_init, ◌▷◌, close_array, close_bstr_wrap, add_null, add_encoded,
  open_bytes, write_bytes, close_bytes,
}
use t_cose.Sign.Context.{SignCtx, opt_short_circuit_sig}
use t_cose.Sign.Parameters.{encode_parameters_internal}
use t_cose.Sign.Signature.{sign_short_circuit, sign_eddsa, sign_default}
use t_cose.Verify.Context.{has_flag}

-- QCBOREncode_GetErrorState() as an error of t_cose.
unfoldable pub encode_error : QcborError → Result (Unit {0})
encode_error cbor_err =
    if is_buffer_too_small cbor_err
    then err too_small
    else if not (is_success cbor_err)
    then err cbor_formatting
    else ok tt

module _ (c : Crypto) (e : Encoder) where
  -- The choice between the three ways to sign.
  unfoldable pub make_signature : SignCtx → Buf → Buf → Buf → SignCtx × Result Buf
  make_signature me aad signed_payload buffer_for_signature =
      if has_flag me.option_flags opt_short_circuit_sig
      then (me, sign_short_circuit c e me aad signed_payload buffer_for_signature)
      else if eq_ℤ me.cose_algorithm_id cose_algorithm_eddsa
      then sign_eddsa c e me aad signed_payload buffer_for_signature
      else (me, sign_default c e me aad signed_payload buffer_for_signature)

module _ (c : Crypto) (e : Encoder) (u : UsefulBuf) where
  -- The signature is written into the output by the cryptographic library, between the calls that
  -- open and close its byte string.
  unfoldable pub encode_signature_aad_internal :
      Buf → Buf → SignCtx × EncodeCtx → (SignCtx × EncodeCtx) × Result (Unit {0})
  encode_signature_aad_internal aad detached_payload (me, ctx) =
      let closed = ctx ▷ close_bstr_wrap false in
      let inline_payload = u.is_null detached_payload in
      let ctx1 = if inline_payload then closed else ctx in
      let signed_payload = if inline_payload then e.wrapped_bstr closed else detached_payload in
      let opened = ctx1 ▷ open_bytes in
      let (me1, made) = make_signature c e me aad signed_payload (e.opened_bytes opened) in
      or_done ((me, ctx1), encode_error (e.get_error_state ctx1))
        λ s _.
          or_done ((me1, opened), made)
            λ s1 signature. (
              (me1, opened ▷ write_bytes signature ▷ close_bytes (len signature) ▷ close_array),
              ok tt,
            )

  -- t_cose_sign1_encode_signature_aad() and t_cose_sign1_encode_signature()
  unfoldable pub encode_signature_aad :
      Buf → SignCtx × EncodeCtx → (SignCtx × EncodeCtx) × Result (Unit {0})
  encode_signature_aad aad = encode_signature_aad_internal aad null_buf

  unfoldable pub encode_signature : SignCtx × EncodeCtx → (SignCtx × EncodeCtx) × Result (Unit {0})
  encode_signature = encode_signature_aad_internal null_buf null_buf

  unfoldable pub sign_aad_internal :
      SignCtx → Bool → Buf → Buf → Buf → (SignCtx × EncodeCtx) × Result Buf
  sign_aad_internal me payload_is_detached payload aad out_buf =
      or_done (encode_parameters_internal e u payload_is_detached (me, encode_init out_buf)) λ s _.
        let ctx = if payload_is_detached then s.1 ▷ add_null else s.1 ▷ add_encoded payload in
        let detached_payload = if not payload_is_detached then null_buf else payload in
        or_done (encode_signature_aad_internal aad detached_payload (s.0, ctx)) λ s1 _.
          or_done (s1, encode_error (e.get_error_state s1.1))
            λ s2 _.
              (if not (is_success (e.finish_error s2.1))
                then (s2, err cbor_not_well_formed)
                else (s2, ok (e.finish_result s2.1)))

  -- t_cose_sign1_sign_aad() gives its arguments aad and payload as payload and aad.
  unfoldable pub sign_aad : SignCtx → Buf → Buf → Buf → (SignCtx × EncodeCtx) × Result Buf
  sign_aad me aad payload out_buf = sign_aad_internal me false aad payload out_buf

  unfoldable pub sign : SignCtx → Buf → Buf → (SignCtx × EncodeCtx) × Result Buf
  sign me payload out_buf = sign_aad_internal me false payload null_buf out_buf

  unfoldable pub sign_detached : SignCtx → Buf → Buf → Buf → (SignCtx × EncodeCtx) × Result Buf
  sign_detached me aad detached_payload out_buf =
      sign_aad_internal me true detached_payload aad out_buf
