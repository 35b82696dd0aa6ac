-- ===== src/Programs/Endings.antt =====
-- How one_step_sign_example() and two_step_sign_example() end.
use t_cose.Common.{
  ℕ, ◌≡◌, refl, ap, sym, ◌∙◌, inl, inr, ℤ, pos, eq_ℤ, eq_ℤ_iff, true, false, Bool-cases, List, [],
  ◌∷◌, ◌++◌, if◌then◌else◌, arith, Buf, bytes, null_buf, UsefulBuf, Result, ok,
}
use t_cose.Algorithm.{cose_algorithm_es256, signature_algorithm_id_is_supported}
use t_cose.Crypto.{Crypto, Key}
use t_cose.Programs.{
  printed, unprinted, payload_items, stack_buffer, constructed, one_step_sign_example,
  two_step_sign_example,
}
use t_cose.Qcbor.{is_success}
use t_cose.Qcbor.Decoder.{Decoder}
use t_cose.Qcbor.Encoder.{
  Encoder, EncodeCtx, encode_init, ◌▷◌, open_bytes, bstr_wrap, close_bstr_wrap,
}
use t_cose.Roundtrip.{Accepts}
use t_cose.Roundtrip.Message.{
  IsSetUpFor, verify_internal-sign_aad_internal, verify_internal-make_signature,
}
use t_cose.Roundtrip.Sent.{sent_parameters, ReadsMessage}
use t_cose.ShortCircuit.{short_circuit_kid}
use t_cose.Sign.Context.{SignCtx, sign_init, set_signing_key}
use t_cose.Sign.Message.{make_signature, sign, encode_signature}
use t_cose.Sign.Message.Calls.{
  extend, protected_calls, unprotected_calls, with_protected, used_kid, has_one_content_type,
  encode_parameters_internal_lem,
}
use t_cose.Sign.Message.Complete.{encode_signature_aad_internal_complete}
use t_cose.Sign.Message.Listed.{IsSignatureEncoded, message_calls}
use t_cose.Sign.Message.Signed.{unsigned}
use t_cose.Sign.Parameters.{encode_parameters}
use t_cose.Verify.Context.{VerifyCtx, verify_init, set_verification_key, has_flag}
use t_cose.Verify.Message.{verify}
use t_cose.Verify.Tags.Laws.{is_refused}

-- The signer of both programs.
abbrev pub signer_of : Key → SignCtx
signer_of key = set_signing_key key null_buf (sign_init 0 cose_algorithm_es256)

signer_of-supported :
    (key : Key) → signature_algorithm_id_is_supported (signer_of key).cose_algorithm_id ≡ true
unfolding signature_algorithm_id_is_supported sign_init set_signing_key
signer_of-supported key = refl

signer_of-one_content_type : (key : Key) → has_one_content_type (signer_of key) ≡ true
unfolding sign_init set_signing_key
signer_of-one_content_type key = refl

pub null-short_circuit_kid :
    (u : UsefulBuf) → eq_ℤ (u.compare null_buf short_circuit_kid) (pos 0) ≡ false
null-short_circuit_kid u = elim (Bool-cases (eq_ℤ (u.compare null_buf short_circuit_kid) (pos 0))) [
  | inl same ↦
      absurd (omega (arith, u.compare_len null_buf short_circuit_kid ((eq_ℤ_iff _ _).0 same)))
  | inr other ↦ other
]

programs-IsSetUpFor :
    (c : Crypto) (u : UsefulBuf) (key : Key)
    → Accepts c key key
    → IsSetUpFor c u (signer_of key) (set_verification_key key (verify_init 0))
unfolding sign_init set_signing_key verify_init set_verification_key has_flag used_kid is_refused
programs-IsSetUpFor c u key keys = record {
  keys = keys;
  buffer = refl;
  allowed = inl refl;
  short_circuit = null-short_circuit_kid u;
  tags = refl;
  kid = inl refl;
}

module _ (c : Crypto) (d : Decoder) (u : UsefulBuf) (e : Encoder) (make_key_pair : ℤ → Result Key)
    (key : Key) where
  abbrev pub payload : Buf
  payload = e.finish_result constructed

  abbrev verify_ctx : VerifyCtx
  verify_ctx = set_verification_key key (verify_init 0)

  -- What the programs sign they verify.
  sign-verify :
      (me' : SignCtx) (ctx' : EncodeCtx) (result : Buf) (space : List ℕ)
      → Accepts c key key
      → e.wrapped_bstr (unsigned c e u (signer_of key) false payload null_buf stack_buffer)
        ≡ payload
      → e.opened_bytes
          (unsigned c e u (signer_of key) false payload null_buf stack_buffer ▷ open_bytes)
        ≡ bytes space
      → ((signature : Buf)
          → ctx' ≡ record {
            out = stack_buffer;
            calls = message_calls (signer_of key) false payload signature;
          }
          → ReadsMessage d
              (signer_of key)
              result
              false
              (with_protected e u (signer_of key) (encode_init stack_buffer)).protected_parameters
              payload
              signature)
      → sign c e u (signer_of key) payload stack_buffer ≡ ((me', ctx'), ok result)
      → (verify d u c e verify_ctx result).1
        ≡ ok (record {
          returned_payload = payload;
          returned_parameters = sent_parameters (signer_of key);
        })
  unfolding sign verify sign_init set_signing_key has_flag
  sign-verify me' ctx' result space keys wrapped opened reading signed =
      verify_internal-sign_aad_internal d u c e (signer_of key) verify_ctx false payload null_buf
        stack_buffer space me' ctx' result (inr (refl, wrapped)) opened reading
        (programs-IsSetUpFor c u key keys) (inl refl) signed

  -- When the key pair is made, the payload is encoded, and t_cose_sign1_sign() succeeds,
  -- one_step_sign_example() verifies the message and prints the payload. QCBOR gives back the bytes of
  -- the payload and a buffer for the signature, and reads the parts of the message as they were
  -- encoded; the key accepts what it signs.
  pub one_step_sign_example_lem :
      (me' : SignCtx) (ctx' : EncodeCtx) (result : Buf) (space : List ℕ)
      → make_key_pair cose_algorithm_es256 ≡ ok key
      → Accepts c key key
      → is_success (e.finish_error constructed) ≡ true
      → e.wrapped_bstr (unsigned c e u (signer_of key) false payload null_buf stack_buffer)
        ≡ payload
      → e.opened_bytes
          (unsigned c e u (signer_of key) false payload null_buf stack_buffer ▷ open_bytes)
        ≡ bytes space
      → ((signature : Buf)
          → ctx' ≡ record {
            out = stack_buffer;
            calls = message_calls (signer_of key) false payload signature;
          }
          → ReadsMessage d
              (signer_of key)
              result
              false
              (with_protected e u (signer_of key) (encode_init stack_buffer)).protected_parameters
              payload
              signature)
      → sign c e u (signer_of key) payload stack_buffer ≡ ((me', ctx'), ok result)
      → one_step_sign_example c d u e make_key_pair ≡ printed payload
  unfolding one_step_sign_example
  one_step_sign_example_lem me' ctx' result space made keys built wrapped opened reading signed =
      rw (built, made, signed, sign-verify me' ctx' result space keys wrapped opened reading signed)
        refl

  abbrev pub headers : EncodeCtx
  headers = extend (encode_init stack_buffer) (
      protected_calls (signer_of key)
      ++ (unprotected_calls (signer_of key) (used_kid (signer_of key)) ++ (bstr_wrap ∷ [])))

  abbrev pub with_items : EncodeCtx
  with_items = extend headers payload_items

  -- The bytes of the items.
  abbrev pub items_payload : Buf
  items_payload = e.wrapped_bstr (with_items ▷ close_bstr_wrap false)

  -- When the key pair is made and the signature over the items of the payload is encoded without an error
  -- of QCBOR, two_step_sign_example() verifies the message and prints the payload, if
  -- QCBOREncode_Finish() succeeds. If it does not, the program returns T_COSE_SUCCESS all the same, with
  -- nothing verified. QCBOR gives a buffer for the signature, and reads the parts of a finished message
  -- as they were encoded; the key accepts what it signs.
  pub two_step_sign_example_lem :
      (me' : SignCtx) (ctx' : EncodeCtx) (space : List ℕ)
      (s : IsSignatureEncoded c e u null_buf null_buf
        (with_protected e u (signer_of key) (encode_init stack_buffer))
        with_items
        me'
        ctx')
      → make_key_pair cose_algorithm_es256 ≡ ok key
      → Accepts c key key
      → e.opened_bytes (with_items ▷ close_bstr_wrap false ▷ open_bytes) ≡ bytes space
      → (is_success (e.finish_error ctx') ≡ true
          → ReadsMessage d
              (signer_of key)
              (e.finish_result ctx')
              false
              (with_protected e u (signer_of key) (encode_init stack_buffer)).protected_parameters
              items_payload
              s.signature)
      → two_step_sign_example c d u e make_key_pair
        ≡ (if is_success (e.finish_error ctx') then printed items_payload else unprinted)
  unfolding two_step_sign_example encode_parameters encode_signature verify sign_init
      set_signing_key has_flag
  two_step_sign_example_lem me' ctx' space s made keys opened reading =
      rw
        (
          made,
          encode_parameters_internal_lem e u (signer_of key) (encode_init stack_buffer) false
              (signer_of-supported key) (signer_of-one_content_type key),
          encode_signature_aad_internal_complete c e u null_buf null_buf
              (with_protected e u (signer_of key) (encode_init stack_buffer)) with_items me' ctx' s,
        )
        (elim (Bool-cases (is_success (e.finish_error ctx'))) [
          | inl good ↦
              let verified =
                verify_internal-make_signature d u c e (signer_of key) verify_ctx false null_buf
                  (e.finish_result ctx')
                  (with_protected e u (signer_of key)
                    (encode_init stack_buffer)).protected_parameters
                  items_payload s.signature (reading good) space me' (signer_of-supported key)
                  (programs-IsSetUpFor c u key keys) (inl refl)
                  (ap
                      (λ b.
                        make_signature c e
                          (with_protected e u (signer_of key) (encode_init stack_buffer)) null_buf
                          items_payload b)
                      (sym opened)
                    ∙ s.made) in
              rw (good, verified) refl
          | inr bad ↦ rw bad refl
        ])
