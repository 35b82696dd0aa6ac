-- ===== src/Examples/Roundtrip.antt =====
-- A message that is signed, read back and verified, at a concrete input.
use t_cose.Common.{
  ℕ, ℤ, ◌<◌, len, ◌==◌, ◌≡◌, refl, ap, subst, inl, inr, pos, negsuc, false, [], ◌∷◌, replicate,
  if◌then◌else◌, Buf, null_buf, bytes, ok, arith,
}
use t_cose.Algorithm.{signature_algorithm_id_is_supported, hash_alg_id_from_sig_alg_id}
use t_cose.Examples.Models.{
  plain_useful_buf, Script, played, strings_encoder, toy_crypto, toy_crypto-Accepts,
}
use t_cose.Examples.Parameters.{absent, numbered}
use t_cose.Examples.Signatures.{protected, signer, verifier}
use t_cose.Examples.Signed.{output, signature_of_wrapped, signed_ctx}
use t_cose.Qcbor.{Item, qcbor_success, label_not_found}
use t_cose.Qcbor.Decoder.{visit}
use t_cose.Qcbor.Encoder.{cbor_head, encode_array, encode_items, encode_item}
use t_cose.Roundtrip.Message.{IsSetUpFor, verify_internal-sign_aad_internal}
use t_cose.Roundtrip.Sent.{sent_parameters, ReadsMessage}
use t_cose.Sign.Message.{
  sign_aad_internal, encode_signature_aad_internal, encode_error, make_signature,
}
use t_cose.Sign.Message.Calls.{used_kid, protected_calls, unprotected_calls}
use t_cose.Sign.Message.Listed.{written, payload_calls, unsigned_calls, message_calls}
use t_cose.Sign.Parameters.{
  encode_parameters_internal, encode_protected_parameters, add_unprotected_parameters,
}
use t_cose.Sign.Signature.{sign_default}
use t_cose.Tbs.{create_tbs_hash, hash_bstr}
use t_cose.Verify.Context.{has_flag}
use t_cose.Verify.Message.{verify_internal}
use t_cose.Verify.Tags.Laws.{is_refused}

-- A message without a key identifier, as QCBOR reads it.
abbrev sent_items : ℤ → ℕ → ℕ → Item
sent_items id step n =
    if step == 3 then (if n == 0 then numbered (pos 1) id else absent) else absent

abbrev sent_strings : Buf → Buf → Buf → ℕ → Buf
sent_strings protected_parameters payload signature step =
    if step == 12 then signature else if step == 11 then payload else protected_parameters

abbrev pub sent_script : ℤ → Buf → Buf → Buf → Script
sent_script id protected_parameters payload signature = record {
  asked = sent_items id;
  unasked = λ step. [];
  next = λ step. (label_not_found, absent);
  strings = sent_strings protected_parameters payload signature;
  tags = 18 ∷ [];
}

abbrev encoded : Buf
encoded = bytes (0x80 ∷ [])

-- For the signer with any algorithm and buffers.
pub sent-ReadsMessage :
    (id : ℤ) (cose_sign1 p payload signature : Buf) (protected_parameters auxiliary_buffer : Buf)
    (auxiliary_buffer_size : ℕ)
    → 0 < len p
    → ReadsMessage
        (played (sent_script id p payload signature))
        (record signer {
          cose_algorithm_id = id;
          protected_parameters = protected_parameters;
          auxiliary_buffer = auxiliary_buffer;
          auxiliary_buffer_size = auxiliary_buffer_size;
        })
        cose_sign1
        false
        p
        payload
        signature
unfolding visit has_flag used_kid
sent-ReadsMessage id cose_sign1 p payload signature protected_parameters auxiliary_buffer
      auxiliary_buffer_size not_empty =
    record {
      well_formed = refl;
      begun = refl;
      tags = record { nth = λ k. refl; valid = (λ h. ground arith, tt) };
      inner = (qcbor_success, 2);
      wrapped = refl;
      not_empty = not_empty;
      protected_done = (qcbor_success, 6);
      protected_items = sent_items id 3;
      protected_map = record {
        after = (qcbor_success, 4);
        found = λ S callback s. refl;
        no_error = refl;
        crit_reset = (qcbor_success, 5);
        no_crit = refl;
        exited = refl;
      };
      protected_found = record {
        alg = refl;
        alg_value = refl;
        no_kid = refl;
        no_iv = refl;
        no_partial_iv = refl;
        no_content_type = refl;
      };
      unprotected_done = (qcbor_success, 11);
      unprotected_items = sent_items id 8;
      unprotected_map = record {
        after = (qcbor_success, 9);
        found = λ S callback s. refl;
        no_error = refl;
        crit_reset = (qcbor_success, 10);
        no_crit = refl;
        exited = refl;
      };
      unprotected_found = record {
        no_alg = refl;
        kid = inl (refl, refl);
        no_iv = refl;
        no_partial_iv = refl;
        content_type = inl (refl, refl, refl);
      };
      payload_done = (qcbor_success, 12);
      payload_read = inl (refl, refl);
      signature_done = (qcbor_success, 13);
      signature_read = refl;
      finished = refl;
    }

signer-IsSetUpFor : IsSetUpFor toy_crypto plain_useful_buf signer verifier
unfolding has_flag used_kid is_refused
signer-IsSetUpFor = record {
  keys = toy_crypto-Accepts;
  buffer = refl;
  allowed = inl refl;
  short_circuit = refl;
  tags = refl;
  kid = inl refl;
}

same_signature :
    (signature : Buf)
    → signed_ctx protected
      ≡ record { out = output; calls = message_calls signer false protected signature }
    → signature_of_wrapped ≡ signature
unfolding message_calls unsigned_calls payload_calls protected_calls unprotected_calls used_kid
    has_flag
same_signature signature same = ap (λ ctx. written ctx.calls) same

verify_internal-sign_aad_internal_example :
    (verify_internal
      (played (sent_script (negsuc 6) protected protected signature_of_wrapped))
      plain_useful_buf
      toy_crypto
      strings_encoder
      verifier
      encoded
      null_buf
      null_buf
      false).1
    ≡ ok (record { returned_payload = protected; returned_parameters = sent_parameters signer })
unfolding sign_aad_internal encode_parameters_internal encode_protected_parameters
    add_unprotected_parameters encode_signature_aad_internal encode_error make_signature
    sign_default create_tbs_hash hash_bstr hash_alg_id_from_sig_alg_id
    signature_algorithm_id_is_supported has_flag cbor_head encode_array encode_items encode_item
verify_internal-sign_aad_internal_example =
    verify_internal-sign_aad_internal
      (played (sent_script (negsuc 6) protected protected signature_of_wrapped)) plain_useful_buf
      toy_crypto strings_encoder signer verifier false protected null_buf output (replicate 64 0)
      signer (signed_ctx protected) encoded (inr (refl, refl)) refl
      (λ signature same.
        subst
          (λ s.
            ReadsMessage (played (sent_script (negsuc 6) protected protected signature_of_wrapped))
              signer encoded false protected protected s)
          (same_signature signature same)
          (sent-ReadsMessage (negsuc 6) encoded protected protected signature_of_wrapped protected
            null_buf 0 (omega arith)))
      signer-IsSetUpFor (inl refl) refl
