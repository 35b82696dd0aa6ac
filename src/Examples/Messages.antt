-- ===== src/Examples/Messages.antt =====
-- Whole messages that are verified, and their tags, at concrete inputs.
use t_cose.Common.{
  int32, ℕ, ◌==◌, ◌≡◌, refl, pos, negsuc, false, List, [], ◌∷◌, get_or, if◌then◌else◌, Buf,
  null_buf, bytes, ok, err, fault, IsSafe, arith, incorrectly_tagged,
}
use t_cose.Algorithm.{hash_alg_id_from_sig_alg_id}
use t_cose.Examples.Models.{
  plain_useful_buf, Script, played, played-CallsBack, strings_encoder, toy_crypto,
  toy_crypto-StaysInside,
}
use t_cose.Examples.Parameters.{absent, numbered}
use t_cose.Examples.Signatures.{protected, message, signature_bytes, verifier}
use t_cose.Parameters.{
  parse_cose_header_parameters, header_parameter_callback, take_parameters, take_alg, take_string,
  take_content_type, decode_critical_parameter, clear_cose_parameters,
}
use t_cose.Qcbor.{Item, type_byte_string, label_not_found, cbor_tag_invalid64}
use t_cose.Qcbor.Encoder.{cbor_head, encode_array, encode_items, encode_item}
use t_cose.Verify.Context.{has_flag, VerifyCtx, get_nth_tag, max_tags_to_return}
use t_cose.Verify.Message.{
  qcbor_decode_error_to_t_cose_error, decode_parts, parse_protected, take_payload, check_parameters,
  check_signature, Verified, verify_internal,
}
use t_cose.Verify.Message.Accept.{IsAccepted, verify_internal-IsAccepted}
use t_cose.Verify.Message.Complete.{verify_internal_complete}
use t_cose.Verify.Message.Safety.{verify_internal-IsSafe}
use t_cose.Verify.Tags.{start_tags, collect_tags, process_tags}
use t_cose.Verify.Tags.Loop.{padded}
use t_cose.Verify.Tags.Laws.{
  HasTags, remaining, is_refused, process_tags_lem, get_nth_tag-process_tags,
}
use t_cose.Qcbor.Decoder.{visit}
use t_cose.Labels.{
  check_critical_labels, find_common, find_label, find_end, append_label, add_label_to_list,
}
use t_cose.Verify.Signature.{verify_default}
use t_cose.Tbs.{create_tbs_hash, hash_bstr}

-- A message of two tags with ES256, a key identifier, three bytes of payload, and its signature.
abbrev pub step_items : ℕ → ℕ → Item
step_items step n =
    if step == 3
    then (if n == 0 then numbered (pos 1) (negsuc 6) else absent)
    else if n == 1
    then record absent { data_type = type_byte_string; val_string = bytes (1 ∷ 2 ∷ []) }
    else absent

abbrev step_strings : ℕ → Buf
step_strings step = if step == 1 then protected else if step == 11 then message else signature_bytes

abbrev pub signed_message : Script
signed_message = record {
  asked = step_items;
  unasked = λ step. numbered (pos 33) (pos 1) ∷ [];
  next = λ step. (label_not_found, absent);
  strings = step_strings;
  tags = 18 ∷ 61 ∷ [];
}

abbrev pub after_tags : VerifyCtx
after_tags = record verifier {
  au_tags = 61 ∷ cbor_tag_invalid64 ∷ cbor_tag_invalid64 ∷ cbor_tag_invalid64 ∷ [];
}

abbrev pub returned : Verified
returned = record {
  returned_payload = message;
  returned_parameters = record clear_cose_parameters {
    cose_algorithm_id = negsuc 6;
    kid = bytes (1 ∷ 2 ∷ []);
  };
}

abbrev pub two_tags : List ℕ
two_tags = 18 ∷ 61 ∷ []

pub two_tags-HasTags :
    (ctx : (played signed_message).Ctx) → HasTags (played signed_message) ctx two_tags
two_tags-HasTags ctx = record {
  nth = λ k. refl;
  valid = (λ h. ground arith, (λ h. ground arith, tt));
}

verify_internal-IsAccepted_example :
    IsAccepted
      (played signed_message)
      plain_useful_buf
      toy_crypto
      strings_encoder
      verifier
      null_buf
      null_buf
      null_buf
      false
      returned
unfolding verify_internal qcbor_decode_error_to_t_cose_error process_tags start_tags collect_tags
    decode_parts parse_protected parse_cose_header_parameters header_parameter_callback visit
    take_parameters take_alg take_string take_content_type decode_critical_parameter int32
    take_payload check_parameters has_flag check_critical_labels find_common find_label find_end
    append_label add_label_to_list check_signature verify_default create_tbs_hash hash_bstr
    hash_alg_id_from_sig_alg_id cbor_head encode_array encode_items encode_item
verify_internal-IsAccepted_example =
    verify_internal-IsAccepted (played signed_message) plain_useful_buf toy_crypto strings_encoder
      verifier null_buf null_buf null_buf false (played-CallsBack signed_message) after_tags
      returned refl

verify_internal_complete_example :
    (verify_internal
      (played signed_message)
      plain_useful_buf
      toy_crypto
      strings_encoder
      verifier
      null_buf
      null_buf
      null_buf
      false).1
    ≡ ok returned
unfolding verify_internal qcbor_decode_error_to_t_cose_error process_tags start_tags collect_tags
    decode_parts parse_protected parse_cose_header_parameters header_parameter_callback visit
    take_parameters take_alg take_string take_content_type decode_critical_parameter int32
    take_payload check_parameters has_flag check_critical_labels find_common find_label find_end
    append_label add_label_to_list check_signature verify_default create_tbs_hash hash_bstr
    hash_alg_id_from_sig_alg_id cbor_head encode_array encode_items encode_item remaining
verify_internal_complete_example =
    verify_internal_complete (played signed_message) plain_useful_buf toy_crypto strings_encoder
      verifier null_buf null_buf null_buf false two_tags returned refl (two_tags-HasTags _)
      (omega arith) refl
      (verify_internal-IsAccepted (played signed_message) plain_useful_buf toy_crypto
        strings_encoder verifier null_buf null_buf null_buf false (played-CallsBack signed_message)
        after_tags returned refl)

verify_internal-IsSafe_example :
    IsSafe
      (verify_internal
        (played signed_message)
        plain_useful_buf
        toy_crypto
        strings_encoder
        verifier
        null_buf
        null_buf
        null_buf
        false).1
unfolding remaining
verify_internal-IsSafe_example =
    verify_internal-IsSafe (played signed_message) plain_useful_buf toy_crypto strings_encoder
      (played-CallsBack signed_message) toy_crypto-StaysInside verifier null_buf null_buf null_buf
      false two_tags (two_tags-HasTags _) (omega arith)

process_tags_lem_example :
    process_tags (played signed_message) verifier ((played signed_message).init null_buf) ≡ (
      if is_refused verifier two_tags
      then (verifier, err incorrectly_tagged)
      else (record verifier { au_tags = padded (remaining two_tags) }, ok tt))
unfolding remaining
process_tags_lem_example =
    process_tags_lem (played signed_message) ((played signed_message).init null_buf) verifier
      two_tags (two_tags-HasTags _) (omega arith)

get_nth_tag-process_tags_example : get_nth_tag after_tags 4 ≡ (
    if 4 == max_tags_to_return
    then fault
    else ok (get_or (remaining two_tags) 4 cbor_tag_invalid64))
unfolding remaining process_tags start_tags collect_tags has_flag
get_nth_tag-process_tags_example =
    get_nth_tag-process_tags (played signed_message) ((played signed_message).init null_buf)
      verifier after_tags two_tags 4 (two_tags-HasTags _) (omega arith) refl
