-- ===== src/Sign/Message/Complete.antt =====
-- What t_cose_sign1_sign_aad_internal() needs to succeed.
use t_cose.Common.{
  ◌≡◌, sym, ◌∙◌, ap, Bool, not, ◌&&◌, [], ◌∷◌, ◌++◌, append_assoc, if◌then◌else◌, Buf, is_null_ptr,
  UsefulBuf, ok,
}
use t_cose.Crypto.{Crypto}
use t_cose.Qcbor.Encoder.{Encoder, EncodeCtx, encode_init, ◌▷◌, open_bytes, bstr_wrap}
use t_cose.Sign.Context.{SignCtx}
use t_cose.Sign.Message.{
  encode_error, make_signature, encode_signature_aad_internal, sign_aad_internal,
}
use t_cose.Sign.Message.Calls.{
  protected_calls, unprotected_calls, used_kid, extend, with_protected,
  encode_parameters_internal_lem,
}
use t_cose.Sign.Message.Listed.{
  signature_calls, before_signature, with_payload, detached_part, before_signature_lem,
  signed_payload_lem, IsSignatureEncoded, unsigned_calls, message_calls,
}
use t_cose.Sign.Message.Signed.{IsSigned}

module _ (c : Crypto) (e : Encoder) (u : UsefulBuf) (aad detached_payload : Buf) (me : SignCtx)
    (ctx : EncodeCtx) where
  pub encode_signature_aad_internal_complete :
      (me' : SignCtx) (ctx' : EncodeCtx)
      → IsSignatureEncoded c e u aad detached_payload me ctx me' ctx'
      → encode_signature_aad_internal c e u aad detached_payload (me, ctx) ≡ ((me', ctx'), ok tt)
  unfolding encode_signature_aad_internal
  encode_signature_aad_internal_complete me' ctx' s =
      rw (u.is_null_lem detached_payload, s.no_error, s.made, s.encoded) (simp append_assoc)

module _ (c : Crypto) (e : Encoder) (u : UsefulBuf) (me : SignCtx) (payload_is_detached : Bool)
    (payload aad out_buf : Buf) where
  -- When the algorithm is supported, at most one content type is set, QCBOR has no error before or after
  -- the signature, and the signature of the payload, the message's or the detached one, can be made for
  -- the protected parameters that are encoded, t_cose_sign1_sign_aad_internal() succeeds after the
  -- listed calls of QCBOR, and returns QCBOR's output.
  pub sign_aad_internal_complete :
      (me' : SignCtx) (ctx' : EncodeCtx) (result : Buf)
      → IsSigned c e u me payload_is_detached payload aad out_buf me' ctx' result
      → sign_aad_internal c e u me payload_is_detached payload aad out_buf
        ≡ ((me', ctx'), ok result)
  unfolding sign_aad_internal message_calls
  sign_aad_internal_complete me' ctx' result s =
      let start = extend (encode_init out_buf) (
        protected_calls me
        ++ (unprotected_calls me (used_kid me)
            ++ (if payload_is_detached then [] else bstr_wrap ∷ []))) in
      let ctx = with_payload payload_is_detached payload start in
      let detached = detached_part payload_is_detached payload in
      let signer = with_protected e u me (encode_init out_buf) in
      let unsigned_ctx : EncodeCtx = record {
        out = out_buf;
        calls = unsigned_calls me payload_is_detached payload;
      } in
      let before : before_signature detached ctx ≡ unsigned_ctx =
        before_signature_lem me payload_is_detached payload (encode_init out_buf) in
      let same_payload =
        signed_payload_lem e payload_is_detached payload start
        ∙ ap
            (λ x.
              if payload_is_detached && not (is_null_ptr payload)
              then payload
              else e.wrapped_bstr x)
            before in
      rw
        (
          encode_parameters_internal_lem e u me (encode_init out_buf) payload_is_detached
              s.supported s.one_content_type,
          encode_signature_aad_internal_complete c e u aad detached signer ctx me' ctx' (record {
            signature = s.signature;
            no_error = ap (λ x. encode_error (e.get_error_state x)) before ∙ s.no_error;
            made =
                ap
                  (λ p.
                    make_signature c e signer aad p
                      (e.opened_bytes (before_signature detached ctx ▷ open_bytes)))
                  same_payload
                ∙ ap
                    (λ x.
                      make_signature c e signer aad
                        (if payload_is_detached && not (is_null_ptr payload)
                          then payload
                          else e.wrapped_bstr unsigned_ctx)
                        (e.opened_bytes (x ▷ open_bytes)))
                    before
                ∙ s.made;
            encoded = s.encoded ∙ ap (λ x. extend x (signature_calls s.signature)) (sym before);
          }),
          s.no_error_after,
          s.finished,
        )
        (ap (λ r. ((me', ctx'), ok r)) (sym s.returned))
