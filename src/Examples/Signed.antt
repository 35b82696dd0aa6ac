-- ===== src/Examples/Signed.antt =====
-- Whole messages that are signed, at concrete inputs.
use t_cose.Common.{
  ◌≡◌, refl, inl, pos, negsuc, false, not, [], ◌∷◌, replicate, take, if◌then◌else◌, Buf, null_buf,
  bytes, ok, err, unsupported_signing_alg, duplicate_parameter,
}
use t_cose.Algorithm.{signature_algorithm_id_is_supported, hash_alg_id_from_sig_alg_id}
use t_cose.Examples.Models.{plain_useful_buf, strings_encoder, toy_crypto}
use t_cose.Examples.Signatures.{protected, message, signer}
use t_cose.Qcbor.Encoder.{
  cbor_head, encode_array, encode_items, encode_item, EncodeCtx, encode_init, add_tag, open_array,
  bstr_wrap, open_map, add_int64_to_map, close_map, close_bstr_wrap, add_encoded, open_bytes,
  write_bytes, close_bytes, close_array,
}
use t_cose.Verify.Context.{has_flag}
use t_cose.Tbs.{create_tbs_hash, hash_bstr}
use t_cose.Tbs.Laws.{sig_structure_bytes}
use t_cose.Sign.Message.Complete.{sign_aad_internal_complete}
use t_cose.Sign.Message.Signed.{IsSigned, sign_aad_internal-IsSigned, sign_aad-IsSigned}
use t_cose.Sign.Message.Nesting.{IsNested, sign_aad_internal-IsNested}
use t_cose.Sign.Message.{
  sign_aad, sign_aad_internal, encode_signature_aad_internal, encode_error, make_signature,
}
use t_cose.Sign.Parameters.{
  encode_parameters_internal, encode_protected_parameters, add_unprotected_parameters,
}
use t_cose.Sign.Signature.{sign_default}
use t_cose.Sign.Message.Calls.{has_one_content_type, encode_parameters_internal-outcome}

abbrev pub output : Buf
output = bytes (replicate 100 0)

-- The toy signature over the payload that the encoder gives back.
abbrev pub signature_of_wrapped : Buf
signature_of_wrapped = bytes (take 32 (sig_structure_bytes protected null_buf protected))

abbrev pub signed_ctx : Buf → EncodeCtx
signed_ctx payload = record {
  out = output;
  calls =
      add_tag 18
      ∷ open_array
      ∷ bstr_wrap
      ∷ open_map
      ∷ add_int64_to_map (pos 1) (negsuc 6)
      ∷ close_map
      ∷ close_bstr_wrap false
      ∷ open_map
      ∷ close_map
      ∷ bstr_wrap
      ∷ add_encoded payload
      ∷ close_bstr_wrap false
      ∷ open_bytes
      ∷ write_bytes signature_of_wrapped
      ∷ close_bytes 21
      ∷ close_array
      ∷ [];
}

sign_aad_internal-IsSigned_example :
    IsSigned toy_crypto strings_encoder plain_useful_buf signer false message null_buf output signer
      (signed_ctx message)
      (bytes (0x80 ∷ []))
unfolding sign_aad_internal encode_parameters_internal encode_protected_parameters
    add_unprotected_parameters encode_signature_aad_internal encode_error make_signature
    sign_default create_tbs_hash hash_bstr hash_alg_id_from_sig_alg_id
    signature_algorithm_id_is_supported has_flag cbor_head encode_array encode_items encode_item
sign_aad_internal-IsSigned_example =
    sign_aad_internal-IsSigned toy_crypto strings_encoder plain_useful_buf signer false message
      null_buf output signer (signed_ctx message) (bytes (0x80 ∷ [])) refl

sign_aad_internal-IsNested_example : IsNested (signed_ctx message).calls
unfolding sign_aad_internal encode_parameters_internal encode_protected_parameters
    add_unprotected_parameters encode_signature_aad_internal encode_error make_signature
    sign_default create_tbs_hash hash_bstr hash_alg_id_from_sig_alg_id
    signature_algorithm_id_is_supported has_flag cbor_head encode_array encode_items encode_item
sign_aad_internal-IsNested_example =
    sign_aad_internal-IsNested toy_crypto strings_encoder plain_useful_buf signer false message
      null_buf output signer (signed_ctx message) (bytes (0x80 ∷ [])) (inl refl) refl

sign_aad-IsSigned_example :
    IsSigned toy_crypto strings_encoder plain_useful_buf signer false message null_buf output signer
      (signed_ctx message)
      (bytes (0x80 ∷ []))
unfolding sign_aad sign_aad_internal encode_parameters_internal encode_protected_parameters
    add_unprotected_parameters encode_signature_aad_internal encode_error make_signature
    sign_default create_tbs_hash hash_bstr hash_alg_id_from_sig_alg_id
    signature_algorithm_id_is_supported has_flag cbor_head encode_array encode_items encode_item
sign_aad-IsSigned_example =
    sign_aad-IsSigned toy_crypto strings_encoder plain_useful_buf signer signer message null_buf
      output (bytes (0x80 ∷ [])) (signed_ctx message) refl

encode_parameters_internal-outcome_example :
    (encode_parameters_internal strings_encoder plain_useful_buf false
      (signer, encode_init output)).1
    ≡ (if not (signature_algorithm_id_is_supported (negsuc 6))
        then err unsupported_signing_alg
        else if has_one_content_type signer
        then ok tt
        else err duplicate_parameter)
encode_parameters_internal-outcome_example =
    encode_parameters_internal-outcome strings_encoder plain_useful_buf signer (encode_init output)
      false

sign_aad_internal_complete_example :
    sign_aad_internal toy_crypto strings_encoder plain_useful_buf signer false message null_buf
      output
    ≡ ((signer, signed_ctx message), ok (bytes (0x80 ∷ [])))
unfolding sign_aad_internal encode_parameters_internal encode_protected_parameters
    add_unprotected_parameters encode_signature_aad_internal encode_error make_signature
    sign_default create_tbs_hash hash_bstr hash_alg_id_from_sig_alg_id
    signature_algorithm_id_is_supported has_flag cbor_head encode_array encode_items encode_item
sign_aad_internal_complete_example =
    sign_aad_internal_complete toy_crypto strings_encoder plain_useful_buf signer false message
      null_buf output signer (signed_ctx message) (bytes (0x80 ∷ []))
      (sign_aad_internal-IsSigned toy_crypto strings_encoder plain_useful_buf signer false message
        null_buf output signer (signed_ctx message) (bytes (0x80 ∷ [])) refl)
