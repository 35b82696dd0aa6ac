-- ===== src/Programs/Sized.antt =====
-- The signer of dynamic_buffer_example(): the sizes that its first call computes are enough for the second.
use t_cose.Common.{
  ℕ, ◌≤◌, ◌≡◌, refl, ap, ◌∙◌, true, false, List, length, arith, Buf, bytes, null, null_buf, len,
  UsefulBuf, ok,
}
use t_cose.Algorithm.{signature_algorithm_id_is_supported}
use t_cose.Crypto.{Crypto, Key}
use t_cose.Parameters.{clear_cose_parameters}
use t_cose.Programs.{payload_text}
use t_cose.Qcbor.Decoder.{Decoder}
use t_cose.Qcbor.Encoder.{Encoder, EncodesCbor, encode_init, ◌▷◌, open_bytes}
use t_cose.Roundtrip.Sizing.{needed_size, sign_size, eddsa_sizing}
use t_cose.Sign.Context.{SignCtx, sign_init, set_signing_key, sign_set_auxiliary_buffer}
use t_cose.Sign.Message.{make_signature, sign}
use t_cose.Sign.Message.Calls.{with_protected, has_one_content_type}
use t_cose.Sign.Message.Complete.{sign_aad_internal_complete}
use t_cose.Sign.Message.Listed.{message_calls}
use t_cose.Sign.Message.Signed.{unsigned}
use t_cose.Tbs.Laws.{
  IsByteString, sig_structure_bytes, sig_structure-sizes, length-sig_structure_bytes,
}
use t_cose.Verify.Context.{size_max, has_flag, verify_init}
use t_cose.Programs.FirstCall.{
  EncodesMessage, first_signer, sized_signer, sizing_payload, sizing_protected,
}

module _ (c : Crypto) (u : UsefulBuf) (e : Encoder) (cbor : EncodesCbor e) (key : Key) (d : Decoder)
    (out aux : List ℕ) where
  -- The signer with the auxiliary buffer.
  abbrev pub second_signer : SignCtx
  second_signer = sign_set_auxiliary_buffer (bytes aux) (sized_signer c u e cbor key)

  abbrev pub encoding_signer : SignCtx
  encoding_signer = with_protected e u second_signer (encode_init (bytes out))

  abbrev pub tbs : Buf
  tbs = bytes (sig_structure_bytes encoding_signer.protected_parameters null_buf payload_text)

  abbrev pub output : Buf → Buf
  output signature =
      e.finish_result (record {
        out = bytes out;
        calls = message_calls second_signer false payload_text signature;
      })

  -- What is sized without buffers has the same lengths with them.
  pub record SameSizes : Type 0 where
    pub protected_size :
        len (sizing_protected c u e cbor key) ≡ len encoding_signer.protected_parameters
    pub payload_size : len (sizing_payload c u e cbor key) ≡ len payload_text
    pub protected_bytes : IsByteString encoding_signer.protected_parameters
    pub tbs_size : len tbs ≤ size_max

  pub second_signer-supported :
      signature_algorithm_id_is_supported second_signer.cose_algorithm_id ≡ true
  unfolding signature_algorithm_id_is_supported sign_init set_signing_key sign_set_auxiliary_buffer
  second_signer-supported = refl

  second_signer-one_content_type : has_one_content_type second_signer ≡ true
  unfolding sign_init set_signing_key sign_set_auxiliary_buffer
  second_signer-one_content_type = refl

  module _ (sizes : SameSizes) where
    pub same_needed :
        needed_size (sizing_protected c u e cbor key) null_buf (sizing_payload c u e cbor key)
        ≡ needed_size encoding_signer.protected_parameters null_buf payload_text
    same_needed =
        sig_structure-sizes (sizing_protected c u e cbor key) null_buf
          (sizing_payload c u e cbor key) encoding_signer.protected_parameters payload_text
          sizes.protected_size sizes.payload_size

    pub text-IsByteString : IsByteString payload_text
    text-IsByteString = (refl, omega arith)

    null-IsByteString : IsByteString null_buf
    null-IsByteString = (refl, omega arith)

    pub tbs_needed :
        len tbs ≡ needed_size encoding_signer.protected_parameters null_buf payload_text
    tbs_needed =
        length-sig_structure_bytes e cbor encoding_signer.protected_parameters null_buf payload_text
          sizes.protected_bytes null-IsByteString text-IsByteString

    pub sizes_fit :
        needed_size (sizing_protected c u e cbor key) null_buf (sizing_payload c u e cbor key)
        ≤ size_max
    sizes_fit = omega (arith, same_needed, tbs_needed, sizes.tbs_size)

    -- The auxiliary buffer is large enough to sign.
    signature_made :
        (space : List ℕ) (signature : Buf)
        → length aux
          ≡ needed_size (sizing_protected c u e cbor key) null_buf (sizing_payload c u e cbor key)
        → c.sign_eddsa key tbs (bytes space) ≡ ok signature
        → (make_signature c e encoding_signer null_buf payload_text (bytes space)).1 ≡ ok signature
    unfolding make_signature sign_init set_signing_key sign_set_auxiliary_buffer verify_init
        has_flag
    signature_made space signature sized made =
        let sizing_signer =
          with_protected e u (first_signer c u e cbor key) (encode_init (null size_max)) in
        let size =
          sign_size c e cbor null_buf (sizing_payload c u e cbor key) sizing_signer null_buf
            size_max refl sizes_fit in
        (eddsa_sizing c e cbor encoding_signer null_buf payload_text sizes.protected_bytes
          null-IsByteString text-IsByteString u sizing_signer (verify_init 0) clear_cose_parameters
          (sizing_payload c u e cbor key) null_buf null_buf space aux size_max sizes.protected_size
          sizes.payload_size refl sizes.tbs_size refl (omega (arith, size, sized))).1
        ∙ made

    -- The second call of the signer.
    pub second_signing :
        (signature : Buf) (run : EncodesMessage c u e second_signer out signature)
        → length aux
          ≡ needed_size (sizing_protected c u e cbor key) null_buf (sizing_payload c u e cbor key)
        → c.sign_eddsa key tbs (bytes run.space) ≡ ok signature
        → (me2 : SignCtx) × (sign c e u second_signer payload_text (bytes out) ≡ (
          (
            me2,
            record {
              out = bytes out;
              calls = message_calls second_signer false payload_text signature;
            },
          ),
          ok (output signature),
        ))
    unfolding sign
    second_signing signature run sized made =
        let outcome = make_signature c e encoding_signer null_buf payload_text (bytes run.space) in
        (
          outcome.0,
          sign_aad_internal_complete c e u second_signer false payload_text null_buf (bytes out)
              outcome.0 _ _
              (record {
                supported = second_signer-supported;
                one_content_type = second_signer-one_content_type;
                signature = signature;
                no_error = run.no_error;
                made =
                    ap
                      (λ p. make_signature c e encoding_signer null_buf p (
                        e.opened_bytes (
                          unsigned c e u second_signer false payload_text null_buf (bytes out)
                          ▷ open_bytes)))
                      run.wrapped
                    ∙ ap (λ b. make_signature c e encoding_signer null_buf payload_text b)
                        run.opened
                    ∙ ap (λ r. (outcome.0, r)) (signature_made run.space signature sized made);
                encoded = refl;
                no_error_after = run.no_error_after;
                finished = run.finished;
                returned = refl;
              }),
        )
