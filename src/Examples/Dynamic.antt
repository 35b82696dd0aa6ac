-- ===== src/Examples/Dynamic.antt =====
-- The example program with EdDSA and allocated buffers, at a concrete input.
use t_cose.Common.{
  ℕ, ◌≡◌, refl, ℤ, negsuc, List, [], ◌∷◌, replicate, length-replicate, some, if◌then◌else◌, Buf,
  null, null_buf, bytes, is_null_ptr, Result, ok, arith,
}
use t_cose.Algorithm.{signature_algorithm_id_is_supported}
use t_cose.Crypto.{Key}
use t_cose.Examples.Models.{
  plain_useful_buf, played, strings_encoder, strings_encoder-EncodesCbor, toy_crypto, toy_key,
  toy_crypto-Accepts,
}
use t_cose.Examples.Roundtrip.{sent_script, sent-ReadsMessage}
use t_cose.Programs.{printed, payload_text, dynamic_buffer_example}
use t_cose.Programs.Dynamic.{out, aux, dynamic_buffer_example_lem}
use t_cose.Programs.FirstCall.{first_signer, EncodesMessage}
use t_cose.Programs.Sized.{second_signer, SameSizes}
use t_cose.Qcbor.Decoder.{Decoder}
use t_cose.Qcbor.Encoder.{
  Encoder, EncodeCtx, EncodesCbor, cbor_head, encode_array, encode_items, encode_item, array_size,
  items_size, item_size,
}
use t_cose.Sign.Context.{SignCtx, sign_init, set_signing_key, sign_set_auxiliary_buffer}
use t_cose.Sign.Message.{
  sign, sign_aad_internal, encode_signature_aad_internal, encode_error, make_signature,
}
use t_cose.Sign.Message.Calls.{protected_calls, unprotected_calls, used_kid}
use t_cose.Sign.Message.Listed.{message_calls, unsigned_calls, payload_calls}
use t_cose.Sign.Parameters.{
  encode_parameters_internal, encode_protected_parameters, add_unprotected_parameters,
}
use t_cose.Sign.Signature.{sign_eddsa, sign_eddsa_tbs}
use t_cose.Tbs.{create_tbs}
use t_cose.Tbs.Laws.{sig_structure_bytes}
use t_cose.Verify.Context.{has_flag, size_max}

abbrev toy_key_pair : ℤ → Result Key
toy_key_pair id = ok toy_key

-- Without a buffer this encoder gives none for the signature; the byte strings that it wraps are all
-- the same.
abbrev sizing_encoder : Encoder
sizing_encoder = record strings_encoder {
  wrapped_bstr = λ ctx. payload_text;
  opened_bytes = λ ctx. if is_null_ptr ctx.out then null 64 else bytes (replicate 64 0);
}

sizing_encoder-EncodesCbor : EncodesCbor sizing_encoder
sizing_encoder-EncodesCbor = record {
  head_bytes = strings_encoder-EncodesCbor.head_bytes;
  array_fits = strings_encoder-EncodesCbor.array_fits;
  array_too_long = strings_encoder-EncodesCbor.array_too_long;
  array_sized = strings_encoder-EncodesCbor.array_sized;
}

abbrev zeros : ℕ → List ℕ
zeros n = replicate n 0

-- The toy signature is what is signed.
abbrev signed_bytes : Buf
signed_bytes = bytes (sig_structure_bytes payload_text null_buf payload_text)

abbrev reader : Decoder
reader = played (sent_script (negsuc 7) payload_text payload_text signed_bytes)

abbrev first_outcome : (SignCtx × EncodeCtx) × Result Buf
first_outcome =
    sign toy_crypto sizing_encoder plain_useful_buf
      (first_signer toy_crypto plain_useful_buf sizing_encoder sizing_encoder-EncodesCbor toy_key)
      payload_text (null size_max)

abbrev allocated_out : List ℕ
allocated_out =
    out toy_crypto plain_useful_buf sizing_encoder sizing_encoder-EncodesCbor toy_key reader zeros
      (λ n. length-replicate n 0) (null 1)

abbrev allocated_aux : List ℕ
allocated_aux =
    aux toy_crypto plain_useful_buf sizing_encoder sizing_encoder-EncodesCbor toy_key reader zeros
      (λ n. length-replicate n 0) (null 1)

abbrev second : SignCtx
second =
    second_signer toy_crypto plain_useful_buf sizing_encoder sizing_encoder-EncodesCbor toy_key
      reader allocated_out allocated_aux

second-EncodesMessage :
    EncodesMessage toy_crypto plain_useful_buf sizing_encoder second allocated_out signed_bytes
unfolding encode_error message_calls unsigned_calls payload_calls protected_calls unprotected_calls
    used_kid has_flag sign_init set_signing_key sign_set_auxiliary_buffer cbor_head encode_array
    encode_items encode_item
second-EncodesMessage = record {
  no_error = refl;
  wrapped = refl;
  space = replicate 64 0;
  opened = refl;
  no_error_after = refl;
  finished = refl;
}

second-SameSizes :
    SameSizes toy_crypto plain_useful_buf sizing_encoder sizing_encoder-EncodesCbor toy_key reader
      allocated_out allocated_aux
unfolding cbor_head encode_array encode_items encode_item
second-SameSizes = record {
  protected_size = refl;
  payload_size = refl;
  protected_bytes = (refl, omega arith);
  tbs_size = omega arith;
}

dynamic_buffer_example_lem_example :
    dynamic_buffer_example toy_crypto reader plain_useful_buf sizing_encoder toy_key_pair
      (λ n. some (zeros n))
    ≡ printed payload_text
unfolding sign sign_aad_internal encode_parameters_internal encode_protected_parameters
    add_unprotected_parameters encode_signature_aad_internal encode_error make_signature sign_eddsa
    sign_eddsa_tbs create_tbs signature_algorithm_id_is_supported has_flag cbor_head encode_array
    encode_items encode_item array_size items_size item_size sign_init set_signing_key
    sign_set_auxiliary_buffer message_calls unsigned_calls payload_calls protected_calls
    unprotected_calls used_kid
dynamic_buffer_example_lem_example =
    dynamic_buffer_example_lem toy_crypto plain_useful_buf sizing_encoder sizing_encoder-EncodesCbor
      toy_key reader zeros (λ n. length-replicate n 0) (null 1) toy_key_pair first_outcome.0.0
      first_outcome.0.1 signed_bytes second-EncodesMessage refl toy_crypto-Accepts second-SameSizes
      refl refl
      (sent-ReadsMessage (negsuc 7) (bytes (0x80 ∷ [])) payload_text payload_text signed_bytes
        payload_text (bytes allocated_aux) 29 (omega arith))
