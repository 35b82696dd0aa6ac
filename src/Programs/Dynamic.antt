-- ===== src/Programs/Dynamic.antt =====
-- dynamic_buffer_example(): the sizes that t_cose computes are enough for the buffers.
use t_cose.Common.{
  ℕ, ◌≡◌, refl, sym, ap, subst, ◌∙◌, inl, inr, ℤ, false, List, length, some, arith, Buf, bytes,
  null, null_buf, len, UsefulBuf, Result, ok,
}
use t_cose.Algorithm.{cose_algorithm_eddsa}
use t_cose.Crypto.{Crypto, Key}
use t_cose.Programs.{printed, payload_text, dynamic_buffer_example}
use t_cose.Programs.Endings.{null-short_circuit_kid}
use t_cose.Programs.FirstCall.{
  first_signer, sizing_protected, sizing_payload, sized_signer, first_signing, EncodesMessage,
  check_signature_sizing,
}
use t_cose.Programs.Sized.{
  second_signer, encoding_signer, tbs, output, SameSizes, second_signer-supported, same_needed,
  tbs_needed, sizes_fit, second_signing,
}
use t_cose.Qcbor.Decoder.{Decoder}
use t_cose.Qcbor.Encoder.{Encoder, EncodesCbor, EncodeCtx}
use t_cose.Roundtrip.{Accepts}
use t_cose.Roundtrip.Message.{
  IsSetUpFor, with_sent_tags, verify_internal-sign_aad_internal, verify_internal-ReadsMessage,
}
use t_cose.Roundtrip.Sent.{sent_parameters, ReadsMessage}
use t_cose.Roundtrip.Reads.{sent_message}
use t_cose.Roundtrip.Sizing.{needed_size}
use t_cose.Sign.Context.{SignCtx, sign_init, set_signing_key, sign_set_auxiliary_buffer}
use t_cose.Sign.Message.{sign}
use t_cose.Sign.Message.Calls.{used_kid}
use t_cose.Sign.Message.Listed.{message_calls, message_calls-injective}
use t_cose.Verify.Context.{
  VerifyCtx, size_max, has_flag, opt_decode_only, verify_init, set_verification_key,
  verify_set_auxiliary_buffer,
}
use t_cose.Verify.Message.{Verified, verify}
use t_cose.Verify.Tags.Laws.{is_refused}

module _ (c : Crypto) (u : UsefulBuf) (e : Encoder) (cbor : EncodesCbor e) (key : Key) (d : Decoder)
    (out aux : List ℕ) (sizes : SameSizes c u e cbor key d out aux) (signature : Buf) where
  abbrev me : SignCtx
  me = second_signer c u e cbor key d out aux

  abbrev protected : Buf
  protected = (encoding_signer c u e cbor key d out aux).protected_parameters

  abbrev message : Buf
  message = output c u e cbor key d out aux signature

  abbrev pub accepted : Verified
  accepted = record { returned_payload = payload_text; returned_parameters = sent_parameters me }

  -- The other end of the sizing: the message decoded.
  decoded_size :
      ReadsMessage d me message false protected payload_text signature
      → (decoded : VerifyCtx) × (verify d u c e (verify_init opt_decode_only) message
          ≡ (decoded, ok accepted))
        × (decoded.auxiliary_buffer_size ≡ needed_size protected null_buf payload_text)
  unfolding verify verify_init sign_init set_signing_key sign_set_auxiliary_buffer has_flag used_kid
      is_refused
  decoded_size reads =
      let before =
        with_sent_tags d u c e me (verify_init opt_decode_only) false null_buf message protected
          payload_text signature reads in
      let m = sent_message d u me message false protected payload_text signature reads in
      (
        record before { auxiliary_buffer_size = needed_size protected null_buf payload_text },
        verify_internal-ReadsMessage d u c e me (verify_init opt_decode_only) false null_buf message
              protected payload_text signature reads
              (second_signer-supported c u e cbor key d out aux) refl (inl refl)
            ∙ rw
                (check_signature_sizing c u e cbor before m (null-short_circuit_kid u) refl refl
                  refl (omega (arith, tbs_needed c u e cbor key d out aux sizes, sizes.tbs_size)))
                refl,
        refl,
      )

module _ (c : Crypto) (u : UsefulBuf) (e : Encoder) (cbor : EncodesCbor e) (key : Key) (d : Decoder)
    (block : ℕ → List ℕ) (sized : (n : ℕ) → length (block n) ≡ n) (size : Buf) where
  -- The buffers that malloc() gives for the sizes.
  abbrev pub out : List ℕ
  out = block (len size)

  abbrev pub aux : List ℕ
  aux =
      block (needed_size (sizing_protected c u e cbor key) null_buf (sizing_payload c u e cbor key))

  abbrev signer : SignCtx
  signer = second_signer c u e cbor key d out aux

  abbrev verifier_of : VerifyCtx → VerifyCtx
  verifier_of decoded =
      verify_set_auxiliary_buffer (bytes (block decoded.auxiliary_buffer_size))
        (set_verification_key key (verify_init 0))

  dynamic-IsSetUpFor :
      (decoded : VerifyCtx)
      → Accepts c key key
      → decoded.auxiliary_buffer_size
        ≡ needed_size (sizing_protected c u e cbor key) null_buf (sizing_payload c u e cbor key)
      → IsSetUpFor c u signer (verifier_of decoded)
  unfolding sign_init set_signing_key sign_set_auxiliary_buffer verify_init set_verification_key
      verify_set_auxiliary_buffer has_flag used_kid is_refused
  dynamic-IsSetUpFor decoded keys same = record {
    keys = keys;
    buffer = ap (λ n. bytes (block n)) same;
    allowed = inl refl;
    short_circuit = null-short_circuit_kid u;
    tags = refl;
    kid = inl refl;
  }

  verified :
      (signature : Buf) (decoded : VerifyCtx) (me2 : SignCtx)
      (run : EncodesMessage c u e signer out signature)
      → Accepts c key key
      → decoded.auxiliary_buffer_size
        ≡ needed_size (sizing_protected c u e cbor key) null_buf (sizing_payload c u e cbor key)
      → ReadsMessage d signer
          (output c u e cbor key d out aux signature)
          false
          (encoding_signer c u e cbor key d out aux).protected_parameters
          payload_text
          signature
      → sign c e u signer payload_text (bytes out) ≡ (
        (
          me2,
          record { out = bytes out; calls = message_calls signer false payload_text signature },
        ),
        ok (output c u e cbor key d out aux signature),
      )
      → (verify d u c e (verifier_of decoded) (output c u e cbor key d out aux signature)).1
        ≡ ok (record {
          returned_payload = payload_text;
          returned_parameters = sent_parameters signer;
        })
  unfolding verify sign sign_init set_signing_key sign_set_auxiliary_buffer has_flag
  verified signature decoded me2 run keys same reads signed =
      verify_internal-sign_aad_internal d u c e signer (verifier_of decoded) false payload_text
        null_buf (bytes out) run.space me2 _ _ (inr (refl, run.wrapped)) run.opened
        (λ s same_calls.
          subst
            (λ s.
              ReadsMessage d signer (output c u e cbor key d out aux signature) false
                (encoding_signer c u e cbor key d out aux).protected_parameters payload_text s)
            (message_calls-injective signer false payload_text signature s
              (ap (λ ctx. ctx.calls) same_calls))
            reads)
        (dynamic-IsSetUpFor decoded keys same) (inl refl) signed

  -- When dynamic_buffer_example() is given memory of the sizes that it asks for, it signs its payload with
  -- EdDSA, verifies the message and prints the payload: the sizes that a call without buffers and a
  -- decoding of the message leave are enough. QCBOR's encoder is as documented, it encodes the message
  -- into the buffer without an error, with the lengths that it gave without one, and its decoder reads
  -- the parts as they were encoded. The key pair is made, the first call succeeds, the bytes to be signed
  -- are not more than SIZE_MAX, and the key can sign them and accepts what it signs.
  pub dynamic_buffer_example_lem :
      (make_key_pair : ℤ → Result Key) (me1 : SignCtx) (ctx1 : EncodeCtx) (signature : Buf)
      (run : EncodesMessage c u e signer out signature)
      → make_key_pair cose_algorithm_eddsa ≡ ok key
      → Accepts c key key
      → SameSizes c u e cbor key d out aux
      → sign c e u (first_signer c u e cbor key) payload_text (null size_max)
        ≡ ((me1, ctx1), ok size)
      → c.sign_eddsa key (tbs c u e cbor key d out aux) (bytes run.space) ≡ ok signature
      → ReadsMessage d signer
          (output c u e cbor key d out aux signature)
          false
          (encoding_signer c u e cbor key d out aux).protected_parameters
          payload_text
          signature
      → dynamic_buffer_example c d u e make_key_pair (λ n. some (block n)) ≡ printed payload_text
  unfolding dynamic_buffer_example
  dynamic_buffer_example_lem make_key_pair me1 ctx1 signature run made keys sizes first signed
        reads =
      let fits = sizes_fit c u e cbor key d out aux sizes in
      let first' : sign c e u (first_signer c u e cbor key) payload_text (null size_max)
          ≡ ((sized_signer c u e cbor key, ctx1), ok size) =
        first
        ∙ ap (λ me. ((me, ctx1), ok size))
            (first_signing c u e cbor key me1 ctx1 size fits first) in
      let (me2, second) =
        second_signing c u e cbor key d out aux sizes signature run (sized _) signed in
      let (decoded, decoding, decoded_same) =
        decoded_size c u e cbor key d out aux sizes signature reads in
      let same = decoded_same ∙ sym (same_needed c u e cbor key d out aux sizes) in
      rw (made, first', second, decoding, verified signature decoded me2 run keys same reads second)
        refl
