-- ===== src/Sign/Parameters.antt =====
-- t_cose_sign1_encode_parameters_internal() and the functions that encode the header parameters.
use t_cose.Common.{
  ℕ, ◌==◌, ℤ, pos, Bool, true, false, not, ◌&&◌, List, Option, none, some, if◌then◌else◌, Buf,
  UsefulBuf, Result, ok, err, or_done, unsupported_signing_alg, duplicate_parameter,
}
use t_cose.Algorithm.{signature_algorithm_id_is_supported}
use t_cose.Parameters.{empty_uint_content_type}
use t_cose.Qcbor.{cbor_tag_cose_sign1}
use t_cose.Qcbor.Encoder.{
  Encoder, EncodeCtx, ◌▷◌, add_tag, open_array, open_map, close_map, bstr_wrap, close_bstr_wrap,
  add_int64_to_map, add_uint64_to_map, add_bytes_to_map, add_sz_string_to_map,
}
use t_cose.ShortCircuit.{short_circuit_kid}
use t_cose.Sign.Context.{SignCtx, opt_short_circuit_sig, opt_omit_cbor_tag}
use t_cose.Verify.Context.{has_flag}

-- COSE_HEADER_PARAM_ALG, COSE_HEADER_PARAM_CONTENT_TYPE and COSE_HEADER_PARAM_KID.
abbrev pub param_alg : ℤ
param_alg = pos 1

abbrev pub param_content_type : ℤ
param_content_type = pos 3

abbrev pub param_kid : ℤ
param_kid = pos 4

unfoldable pub encode_protected_parameters : Encoder → ℤ → EncodeCtx → EncodeCtx × Buf
encode_protected_parameters e cose_algorithm_id ctx =
    let ctx' =
      ctx
      ▷ bstr_wrap
      ▷ open_map
      ▷ add_int64_to_map param_alg cose_algorithm_id
      ▷ close_map
      ▷ close_bstr_wrap false in
    (ctx', e.wrapped_bstr ctx')

-- `me->content_type_tstr != NULL`
abbrev pub has_tstr : Option (List ℕ) → Bool
has_tstr none = false
has_tstr (some s) = true

abbrev pub has_uint : ℕ → Bool
has_uint content_type = not (content_type == empty_uint_content_type)

-- The text, where there is one.
abbrev pub encode_tstr : Option (List ℕ) → EncodeCtx → EncodeCtx
encode_tstr none ctx = ctx
encode_tstr (some s) ctx = ctx ▷ add_sz_string_to_map param_content_type s

unfoldable pub add_unprotected_parameters :
    UsefulBuf → SignCtx → Buf → EncodeCtx → EncodeCtx × Result (Unit {0})
add_unprotected_parameters u me kid ctx =
    let opened = ctx ▷ open_map in
    let with_kid =
      if not (u.null_or_empty kid) then opened ▷ add_bytes_to_map param_kid kid else opened in
    let with_uint =
      if has_uint me.content_type_uint
      then with_kid ▷ add_uint64_to_map param_content_type me.content_type_uint
      else with_kid in
    if has_uint me.content_type_uint && has_tstr me.content_type_tstr
    then (with_kid, err duplicate_parameter)
    else (encode_tstr me.content_type_tstr with_uint ▷ close_map, ok tt)

module _ (e : Encoder) (u : UsefulBuf) where
  unfoldable pub encode_parameters_internal :
      Bool → SignCtx × EncodeCtx → (SignCtx × EncodeCtx) × Result (Unit {0})
  encode_parameters_internal payload_is_detached (me, ctx) =
      let tagged =
        if not (has_flag me.option_flags opt_omit_cbor_tag)
        then ctx ▷ add_tag cbor_tag_cose_sign1
        else ctx in
      let (ctx1, protected_parameters) =
        encode_protected_parameters e me.cose_algorithm_id (tagged ▷ open_array) in
      let me1 : SignCtx = record me { protected_parameters = protected_parameters } in
      let kid =
        if has_flag me.option_flags opt_short_circuit_sig && u.null_or_empty me.kid
        then short_circuit_kid
        else me.kid in
      let (ctx2, result) = add_unprotected_parameters u me1 kid ctx1 in
      if not (signature_algorithm_id_is_supported me.cose_algorithm_id)
      then ((me, ctx), err unsupported_signing_alg)
      else or_done ((me1, ctx2), result)
          λ s _.
            (if not payload_is_detached
              then ((me1, ctx2 ▷ bstr_wrap), ok tt)
              else ((me1, ctx2), ok tt))

  -- t_cose_sign1_encode_parameters()
  unfoldable pub encode_parameters : SignCtx × EncodeCtx → (SignCtx × EncodeCtx) × Result (Unit {0})
  encode_parameters = encode_parameters_internal false
