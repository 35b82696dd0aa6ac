-- ===== src/Programs/FirstCall.antt =====
-- The calls of dynamic_buffer_example() that compute sizes, and what QCBOR gives the signer then.
use t_cose.Common.{
  ℕ, ◌≤◌, ◌≡◌, refl, sym, ap, ◌∙◌, pos, eq_ℤ, true, false, List, Buf, bytes, null, null_buf,
  UsefulBuf, ok,
}
use t_cose.Algorithm.{cose_algorithm_eddsa}
use t_cose.Crypto.{Crypto, Key}
use t_cose.Programs.{payload_text}
use t_cose.Qcbor.{is_success}
use t_cose.ShortCircuit.{short_circuit_kid}
use t_cose.Qcbor.Encoder.{Encoder, EncodesCbor, EncodeCtx, encode_init, ◌▷◌, open_bytes}
use t_cose.Roundtrip.Sizing.{needed_size}
use t_cose.Sign.Context.{SignCtx, sign_init, set_signing_key}
use t_cose.Sign.Message.{encode_error, make_signature, sign}
use t_cose.Sign.Message.Calls.{with_protected}
use t_cose.Sign.Message.Listed.{message_calls}
use t_cose.Sign.Message.Signed.{unsigned, sign_aad_internal-IsSigned}
use t_cose.Sign.Signature.{sign_eddsa, sign_eddsa_tbs}
use t_cose.Tbs.Laws.{create_tbs_sized}
use t_cose.Verify.Context.{VerifyCtx, size_max, has_flag, opt_decode_only}
use t_cose.Verify.Message.{Decoded, check_signature}
use t_cose.Verify.Signature.{verify_eddsa, verify_eddsa_tbs}

module _ (c : Crypto) (u : UsefulBuf) (e : Encoder) (cbor : EncodesCbor e) (key : Key) where
  abbrev pub first_signer : SignCtx
  first_signer = set_signing_key key null_buf (sign_init 0 cose_algorithm_eddsa)

  -- The protected parameters and the payload of the call that computes the sizes.
  abbrev pub sizing_protected : Buf
  sizing_protected =
      (with_protected e u first_signer (encode_init (null size_max))).protected_parameters

  abbrev pub sizing_payload : Buf
  sizing_payload =
      e.wrapped_bstr (unsigned c e u first_signer false payload_text null_buf (null size_max))

  -- The signer after the first call.
  abbrev pub sized_signer : SignCtx
  sized_signer = record first_signer {
    protected_parameters = sizing_protected;
    auxiliary_buffer_size = needed_size sizing_protected null_buf sizing_payload;
  }

  first_make_signature :
      (buffer : Buf)
      → needed_size sizing_protected null_buf sizing_payload ≤ size_max
      → (make_signature c e
          (with_protected e u first_signer (encode_init (null size_max)))
          null_buf
          sizing_payload
          buffer).0
        ≡ sized_signer
  unfolding make_signature sign_eddsa sign_eddsa_tbs sign_init set_signing_key has_flag
  first_make_signature buffer fits =
      rw (create_tbs_sized e cbor sizing_protected null_buf sizing_payload size_max fits) refl

  pub first_signing :
      (me1 : SignCtx) (ctx1 : EncodeCtx) (size : Buf)
      → needed_size sizing_protected null_buf sizing_payload ≤ size_max
      → sign c e u first_signer payload_text (null size_max) ≡ ((me1, ctx1), ok size)
      → me1 ≡ sized_signer
  unfolding sign
  first_signing me1 ctx1 size fits h =
      let s =
        sign_aad_internal-IsSigned c e u first_signer false payload_text null_buf (null size_max)
          me1 ctx1 size h in
      sym (ap (λ r. r.0) s.made) ∙ first_make_signature _ fits

-- QCBOR encodes the message of the signer into a buffer without an error, with the payload as it is.
pub record EncodesMessage (c : Crypto) (u : UsefulBuf) (e : Encoder) (me : SignCtx) (out : List ℕ)
    (signature : Buf) : Type 0 where
  pub no_error :
      encode_error (e.get_error_state (unsigned c e u me false payload_text null_buf (bytes out)))
      ≡ ok tt
  pub wrapped :
      e.wrapped_bstr (unsigned c e u me false payload_text null_buf (bytes out)) ≡ payload_text
  pub space : List ℕ
  pub opened :
      e.opened_bytes (unsigned c e u me false payload_text null_buf (bytes out) ▷ open_bytes)
      ≡ bytes space
  pub no_error_after :
      encode_error (
        e.get_error_state
          (record { out = bytes out; calls = message_calls me false payload_text signature }))
      ≡ ok tt
  pub finished :
      is_success (
        e.finish_error
          (record { out = bytes out; calls = message_calls me false payload_text signature }))
      ≡ true

-- Decoding only leaves the size in the context.
module _ (c : Crypto) (u : UsefulBuf) (e : Encoder) (cbor : EncodesCbor e) (me : VerifyCtx)
    (m : Decoded) where
  pub check_signature_sizing :
      eq_ℤ (u.compare m.parameters.kid short_circuit_kid) (pos 0) ≡ false
      → eq_ℤ m.parameters.cose_algorithm_id cose_algorithm_eddsa ≡ true
      → has_flag me.option_flags opt_decode_only ≡ true
      → me.auxiliary_buffer ≡ null size_max
      → needed_size m.protected_parameters null_buf m.payload ≤ size_max
      → check_signature u c e me m null_buf ≡ (
        record me { auxiliary_buffer_size = needed_size m.protected_parameters null_buf m.payload },
        ok tt,
      )
  unfolding check_signature verify_eddsa verify_eddsa_tbs
  check_signature_sizing kid eddsa only missing fits =
      rw
        (
          kid,
          eddsa,
          missing,
          create_tbs_sized e cbor m.protected_parameters null_buf m.payload size_max fits,
          only,
        )
        refl
