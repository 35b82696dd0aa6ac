-- ===== src/Sign/Message/Signed.antt =====
-- What t_cose_sign1_sign_aad_internal() has encoded and signed when it succeeds.
use t_cose.Common.{
  ◌≡◌, sym, ◌∙◌, ap, Bool, true, false, not, ◌&&◌, if◌then◌else◌, arith, Buf, is_null_ptr,
  UsefulBuf, Result, ok, err, or_done-ok_elim, cbor_not_well_formed,
}
use t_cose.Algorithm.{signature_algorithm_id_is_supported}
use t_cose.Crypto.{Crypto}
use t_cose.Qcbor.{QcborError, is_success}
use t_cose.Qcbor.Encoder.{Encoder, EncodeCtx, encode_init, ◌▷◌, open_bytes}
use t_cose.Sign.Context.{SignCtx}
use t_cose.Sign.Parameters.{encode_parameters_internal}
use t_cose.Sign.Message.{
  encode_error, make_signature, encode_signature_aad_internal, sign_aad_internal, sign_aad,
}
use t_cose.Sign.Message.Calls.{
  extend, has_one_content_type, with_protected, encode_parameters_internal_lem,
  encode_parameters_internal-outcome,
}
use t_cose.Sign.Message.Listed.{
  before_signature, before_signature_lem, detached_part,
  encode_signature_aad_internal-IsSignatureEncoded, message_calls, signature_calls, signed_payload,
  signed_payload_lem, unsigned_calls, with_payload,
}

module _ (c : Crypto) (e : Encoder) (u : UsefulBuf) (me : SignCtx) (payload_is_detached : Bool)
    (payload aad out_buf : Buf) where
  abbrev pub unsigned : EncodeCtx
  unsigned = record { out = out_buf; calls = unsigned_calls me payload_is_detached payload }

  -- What the signature covers: a detached payload, or the one in the message.
  abbrev pub covered : Buf
  covered =
      if payload_is_detached && not (is_null_ptr payload) then payload else e.wrapped_bstr unsigned

  pub record IsSigned (me' : SignCtx) (ctx' : EncodeCtx) (result : Buf) : Type 0 where
    pub supported : signature_algorithm_id_is_supported me.cose_algorithm_id ≡ true
    pub one_content_type : has_one_content_type me ≡ true
    pub signature : Buf
    pub no_error : encode_error (e.get_error_state unsigned) ≡ ok tt
    pub made :
        make_signature c e
          (with_protected e u me (encode_init out_buf))
          aad
          covered
          (e.opened_bytes (unsigned ▷ open_bytes))
        ≡ (me', ok signature)
    pub encoded :
        ctx'
        ≡ record { out = out_buf; calls = message_calls me payload_is_detached payload signature }
    pub no_error_after : encode_error (e.get_error_state ctx') ≡ ok tt
    pub finished : is_success (e.finish_error ctx') ≡ true
    pub returned : result ≡ e.finish_result ctx'

  finished_parts :
      (s : SignCtx × EncodeCtx) (x : QcborError) (b : Buf) (s' : SignCtx × EncodeCtx) (r : Buf)
      → ◌≡◌ {A = (SignCtx × EncodeCtx) × Result Buf}
          (if not (is_success x) then (s, err cbor_not_well_formed) else (s, ok b))
          (s', ok r)
      → (is_success x ≡ true) × (s ≡ s') × (b ≡ r)
  finished_parts s x b s' r h = ground arith

  -- The two conditions for the header parameters, from their success.
  encoded_parameters :
      (s : SignCtx × EncodeCtx) (t : Unit {0})
      → encode_parameters_internal e u payload_is_detached (me, encode_init out_buf) ≡ (s, ok t)
      → (signature_algorithm_id_is_supported me.cose_algorithm_id ≡ true)
        × (has_one_content_type me ≡ true)
  encoded_parameters s t h = ground (
    arith,
    ap (λ r. r.1) h,
    encode_parameters_internal-outcome e u me (encode_init out_buf) payload_is_detached,
  )

  -- t_cose_sign1_sign_aad_internal() succeeds only for an algorithm that is supported and at most one
  -- content type, after the calls of QCBOR that are listed, without an error of QCBOR before or
  -- after the signature. The signature is made for the protected parameters that were encoded, the
  -- aad and the payload, the message's or the detached one, and the output is QCBOR's.
  pub sign_aad_internal-IsSigned :
      (me' : SignCtx) (ctx' : EncodeCtx) (result : Buf)
      → sign_aad_internal c e u me payload_is_detached payload aad out_buf
        ≡ ((me', ctx'), ok result)
      → IsSigned me' ctx' result
  unfolding sign_aad_internal message_calls
  sign_aad_internal-IsSigned me' ctx' result h =
      or_done-ok_elim (encode_parameters_internal e u payload_is_detached (me, encode_init out_buf))
        _ h
        λ s t0 e0 h0.
          let (supported, one) = encoded_parameters s t0 e0 in
          let known =
            encode_parameters_internal_lem e u me (encode_init out_buf) payload_is_detached
              supported one in
          let ctx1 = with_payload payload_is_detached payload s.1 in
          let detached = detached_part payload_is_detached payload in
          or_done-ok_elim (encode_signature_aad_internal c e u aad detached (s.0, ctx1)) _ h0
            λ s1 t1 e1 h1.
              let sig =
                encode_signature_aad_internal-IsSignatureEncoded c e u aad detached s.0 ctx1 s1.0
                  s1.1 t1 e1 in
              or_done-ok_elim (s1, encode_error (e.get_error_state s1.1)) _ h1
                λ s2 t2 e2 h2.
                  let (good, same, out) =
                    finished_parts s2 (e.finish_error s2.1) (e.finish_result s2.1) (me', ctx')
                      result h2 in
                  let ends : s1 ≡ (me', ctx') = ap (λ r. r.0) e2 ∙ same in
                  let started = ap (λ r. r.0) (sym e0 ∙ known) in
                  let before : before_signature detached ctx1 ≡ unsigned =
                    ap
                      (λ r.
                        before_signature detached (with_payload payload_is_detached payload r.1))
                      started
                    ∙ before_signature_lem me payload_is_detached payload (encode_init out_buf) in
                  let same_payload : signed_payload e detached ctx1 ≡ covered =
                    signed_payload_lem e payload_is_detached payload s.1
                    ∙ ap
                        (λ x.
                          if payload_is_detached && not (is_null_ptr payload)
                          then payload
                          else e.wrapped_bstr x)
                        before in
                  record {
                    supported = supported;
                    one_content_type = one;
                    signature = sig.signature;
                    no_error =
                        ap (λ x. encode_error (e.get_error_state x)) (sym before) ∙ sig.no_error;
                    made =
                        ap
                          (λ r.
                            make_signature c e r.0 aad covered
                              (e.opened_bytes (unsigned ▷ open_bytes)))
                          (sym started)
                        ∙ ap
                            (λ p.
                              make_signature c e s.0 aad p (e.opened_bytes (unsigned ▷ open_bytes)))
                            (sym same_payload)
                        ∙ ap
                            (λ x.
                              make_signature c e s.0 aad (signed_payload e detached ctx1)
                                (e.opened_bytes (x ▷ open_bytes)))
                            (sym before)
                        ∙ sig.made
                        ∙ ap (λ r. (r.0, ok sig.signature)) ends;
                    encoded =
                        sym (ap (λ r. r.1) ends)
                        ∙ sig.encoded
                        ∙ ap (λ x. extend x (signature_calls sig.signature)) before;
                    no_error_after =
                        ap (λ r. encode_error (e.get_error_state r.1)) (sym ends)
                        ∙ ap (λ r. r.1) e2;
                    finished = ap (λ r. is_success (e.finish_error r.1)) (sym same) ∙ good;
                    returned = sym out ∙ ap (λ r. e.finish_result r.1) same;
                  }

-- t_cose_sign1_sign_aad() exchanges its arguments: when it succeeds, its additional data stand in the
-- message as the payload, and its payload is signed as the additional data.
pub sign_aad-IsSigned :
    (c : Crypto) (e : Encoder) (u : UsefulBuf) (me me' : SignCtx) (aad payload out_buf result : Buf)
    (ctx' : EncodeCtx)
    → sign_aad c e u me aad payload out_buf ≡ ((me', ctx'), ok result)
    → IsSigned c e u me false aad payload out_buf me' ctx' result
unfolding sign_aad
sign_aad-IsSigned c e u me me' aad payload out_buf result ctx' h =
    sign_aad_internal-IsSigned c e u me false aad payload out_buf me' ctx' result h
