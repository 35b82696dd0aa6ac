-- ===== src/Examples/Programs.antt =====
-- The example programs, at concrete inputs.
use t_cose.Common.{
  append_assoc, ◌∷◌, negsuc, arith, ◌≡◌, refl, subst, ap, ℤ, false, replicate, Buf, null, null_buf,
  Result, ok,
}
use t_cose.Algorithm.{signature_algorithm_id_is_supported, hash_alg_id_from_sig_alg_id}
use t_cose.Crypto.{Key}
use t_cose.Examples.Models.{
  plain_useful_buf, played, strings_encoder, toy_crypto, toy_key, toy_crypto-Accepts,
}
use t_cose.Examples.Roundtrip.{sent_script, sent-ReadsMessage}
use t_cose.Examples.Signatures.{protected}
use t_cose.Examples.Signed.{signature_of_wrapped, signed_ctx}
use t_cose.Programs.{printed, stack_buffer, one_step_sign_example, two_step_sign_example}
use t_cose.Programs.Endings.{
  signer_of, with_items, one_step_sign_example_lem, two_step_sign_example_lem,
}
use t_cose.Qcbor.{qcbor_success}
use t_cose.Qcbor.Encoder.{
  Encoder, EncodeCtx, encode_init, close_bstr_wrap, cbor_head, encode_array, encode_items,
  encode_item,
}
use t_cose.Roundtrip.Sent.{ReadsMessage}
use t_cose.Sign.Context.{SignCtx, sign_init, set_signing_key}
use t_cose.Sign.Message.{
  sign, sign_aad_internal, encode_signature_aad_internal, encode_error, make_signature,
}
use t_cose.Sign.Message.Calls.{extend, used_kid, protected_calls, unprotected_calls, with_protected}
use t_cose.Sign.Message.Listed.{
  IsSignatureEncoded, signature_calls, written, payload_calls, unsigned_calls, message_calls,
}
use t_cose.Sign.Parameters.{
  encode_parameters_internal, encode_protected_parameters, add_unprotected_parameters,
}
use t_cose.Sign.Signature.{sign_default}
use t_cose.Tbs.{create_tbs_hash, hash_bstr}
use t_cose.Verify.Context.{has_flag, size_max}

abbrev toy_key_pair : ℤ → Result Key
toy_key_pair id = ok toy_key

-- An encoder whose output is always the same.
abbrev fixed_encoder : Encoder
fixed_encoder = record strings_encoder {
  finish_error = λ ctx. qcbor_success;
  finish_result = λ ctx. protected;
}

abbrev sent_ctx : EncodeCtx
sent_ctx = record (signed_ctx protected) { out = stack_buffer }

same_signature :
    (signature : Buf)
    → sent_ctx ≡ record {
      out = stack_buffer;
      calls = message_calls (signer_of toy_key) false protected signature;
    }
    → signature_of_wrapped ≡ signature
unfolding message_calls unsigned_calls payload_calls protected_calls unprotected_calls used_kid
    has_flag sign_init set_signing_key
same_signature signature same = ap (λ ctx. written ctx.calls) same

one_step_sign_example_lem_example :
    one_step_sign_example toy_crypto
      (played (sent_script (negsuc 6) protected protected signature_of_wrapped))
      plain_useful_buf
      fixed_encoder
      toy_key_pair
    ≡ printed protected
unfolding sign sign_aad_internal encode_parameters_internal encode_protected_parameters
    add_unprotected_parameters encode_signature_aad_internal encode_error make_signature
    sign_default create_tbs_hash hash_bstr hash_alg_id_from_sig_alg_id
    signature_algorithm_id_is_supported has_flag cbor_head encode_array encode_items encode_item
    sign_init set_signing_key
one_step_sign_example_lem_example =
    one_step_sign_example_lem toy_crypto
      (played (sent_script (negsuc 6) protected protected signature_of_wrapped)) plain_useful_buf
      fixed_encoder toy_key_pair toy_key
      (with_protected fixed_encoder plain_useful_buf (signer_of toy_key) (encode_init stack_buffer))
      sent_ctx protected (replicate 64 0) refl toy_crypto-Accepts refl refl refl
      (λ signature same.
        subst
          (λ s.
            ReadsMessage (played (sent_script (negsuc 6) protected protected signature_of_wrapped))
              (signer_of toy_key) protected false protected protected s)
          (same_signature signature same)
          (sent-ReadsMessage (negsuc 6) protected protected protected signature_of_wrapped null_buf
            (null size_max) 0 (omega arith)))
      refl

abbrev program_signer : SignCtx
program_signer =
    with_protected fixed_encoder plain_useful_buf (signer_of toy_key) (encode_init stack_buffer)

abbrev program_items : EncodeCtx
program_items =
    with_items toy_crypto (played (sent_script (negsuc 6) protected protected signature_of_wrapped))
      plain_useful_buf fixed_encoder toy_key_pair toy_key

abbrev program_ctx : EncodeCtx
program_ctx = extend program_items (close_bstr_wrap false ∷ signature_calls signature_of_wrapped)

program_encoding :
    IsSignatureEncoded toy_crypto fixed_encoder plain_useful_buf null_buf null_buf program_signer
      program_items program_signer program_ctx
unfolding encode_error make_signature sign_default create_tbs_hash hash_bstr
    hash_alg_id_from_sig_alg_id has_flag cbor_head encode_array encode_items encode_item sign_init
    set_signing_key
program_encoding = record {
  signature = signature_of_wrapped;
  no_error = refl;
  made = refl;
  encoded = simp append_assoc;
}

two_step_sign_example_lem_example :
    two_step_sign_example toy_crypto
      (played (sent_script (negsuc 6) protected protected signature_of_wrapped))
      plain_useful_buf
      fixed_encoder
      toy_key_pair
    ≡ printed protected
unfolding sign_init set_signing_key program_encoding
two_step_sign_example_lem_example =
    two_step_sign_example_lem toy_crypto
      (played (sent_script (negsuc 6) protected protected signature_of_wrapped)) plain_useful_buf
      fixed_encoder toy_key_pair toy_key program_signer program_ctx (replicate 64 0)
      program_encoding refl toy_crypto-Accepts refl
      (λ finished.
        sent-ReadsMessage (negsuc 6) protected protected protected signature_of_wrapped null_buf
          (null size_max) 0 (omega arith))
