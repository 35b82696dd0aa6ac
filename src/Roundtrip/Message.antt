-- ===== src/Roundtrip/Message.antt =====
-- A whole message that t_cose_sign1_sign.c makes is accepted by t_cose_sign1_verify.c.
use t_cose.Common.{
  ℕ, ◌≤◌, ◌≡◌, refl, ap, ◌∙◌, sym, ◌⊎◌, inl, inr, pos, eq_ℤ, Bool, true, false, not, ◌&&◌,
  Bool-cases, List, length, some, if◌then◌else◌, arith, Buf, bytes, null_buf, is_null_ptr,
  UsefulBuf, ok, or_done,
}
use t_cose.Algorithm.{signature_algorithm_id_is_supported}
use t_cose.Crypto.{Crypto}
use t_cose.Labels.{check_critical_labels, find_common, find_label, find_end, clear_label_list}
use t_cose.Qcbor.Decoder.{Decoder}
use t_cose.Qcbor.Encoder.{Encoder, EncodeCtx, encode_init, ◌▷◌, open_bytes}
use t_cose.Roundtrip.{Accepts, HashFits, Matches, check_signature-make_signature}
use t_cose.Roundtrip.Sent.{sent_kid, sent_parameters, sent_tags, given_payload, ReadsMessage}
use t_cose.Roundtrip.Reads.{sent_message, no_decode_error, decode_parts-ReadsMessage}
use t_cose.ShortCircuit.{short_circuit_kid}
use t_cose.Sign.Context.{SignCtx, opt_short_circuit_sig, opt_omit_cbor_tag}
use t_cose.Sign.Message.{make_signature, sign_aad_internal}
use t_cose.Sign.Message.Calls.{with_protected}
use t_cose.Sign.Message.Listed.{message_calls}
use t_cose.Sign.Message.Signed.{unsigned, sign_aad_internal-IsSigned}
use t_cose.Verify.Context.{
  VerifyCtx, has_flag, opt_allow_short_circuit, opt_require_kid, opt_unknown_crit_allowed,
  max_tags_to_return,
}
use t_cose.Verify.Message.{Decoded, check_parameters, check_signature, verify_internal}
use t_cose.Verify.Message.Complete.{returned_lem}
use t_cose.Verify.Tags.Laws.{remaining, is_refused, process_tags_lem}
use t_cose.Verify.Tags.Loop.{padded}

-- The verifier is set up for what the signer sends.
pub record IsSetUpFor (c : Crypto) (u : UsefulBuf) (me : SignCtx) (verifier : VerifyCtx)
    : Type 0 where
  pub keys : Accepts c me.signing_key verifier.verification_key
  pub buffer : verifier.auxiliary_buffer ≡ me.auxiliary_buffer
  pub allowed :
      (has_flag me.option_flags opt_short_circuit_sig ≡ false)
      ⊎ (has_flag verifier.option_flags opt_allow_short_circuit ≡ true)
  pub short_circuit :
      eq_ℤ (u.compare (sent_kid me) short_circuit_kid) (pos 0)
      ≡ has_flag me.option_flags opt_short_circuit_sig
  pub tags : is_refused verifier (sent_tags me) ≡ false
  pub kid :
      (has_flag verifier.option_flags opt_require_kid ≡ false) ⊎ (is_null_ptr (sent_kid me) ≡ false)

few_tags : (me : SignCtx) → length (remaining (sent_tags me)) ≤ max_tags_to_return
unfolding remaining
few_tags me = elim (Bool-cases (has_flag me.option_flags opt_omit_cbor_tag)) [
  | inl omitted ↦ rw omitted (omega arith)
  | inr tagged ↦ rw tagged (omega arith)
]

sent-check_parameters :
    (u : UsefulBuf) (me : SignCtx) (verifier : VerifyCtx) (m : Decoded)
    → (has_flag verifier.option_flags opt_require_kid ≡ false)
      ⊎ (is_null_ptr m.parameters.kid ≡ false)
    → m.critical ≡ some clear_label_list
    → m.unknown ≡ clear_label_list
    → check_parameters u verifier m ≡ ok tt
unfolding check_parameters check_critical_labels find_common find_label find_end
sent-check_parameters u me verifier m kid no_crit no_unknown =
    let there : (has_flag verifier.option_flags opt_require_kid && u.is_null m.parameters.kid)
        ≡ false =
      ground (arith, u.is_null_lem m.parameters.kid) in
    rw (there, no_crit, no_unknown)
      (elim (Bool-cases (has_flag verifier.option_flags opt_unknown_crit_allowed)) [
        | inl allowed ↦ rw allowed refl
        | inr strict ↦ rw (strict, u.is_null_lem null_buf) refl
      ])

-- The payload that is signed is the one in the message.
covered-payload :
    (detached : Bool) (payload wrapped : Buf)
    → ((detached ≡ true) × (is_null_ptr payload ≡ false))
      ⊎ ((detached ≡ false) × (wrapped ≡ payload))
    → (if detached && not (is_null_ptr payload) then payload else wrapped) ≡ payload
covered-payload detached payload wrapped given = ground (arith, given)

module _ (d : Decoder) (u : UsefulBuf) (c : Crypto) (e : Encoder) (me : SignCtx)
    (verifier : VerifyCtx) (payload_is_detached : Bool)
    (aad cose_sign1 protected_parameters payload signature : Buf)
    (reads : ReadsMessage d me cose_sign1 payload_is_detached protected_parameters payload
      signature) where
  abbrev pub with_sent_tags : VerifyCtx
  with_sent_tags = record verifier { au_tags = padded (remaining (sent_tags me)) }

  -- Up to the signature nothing stops the verifier.
  pub verify_internal-ReadsMessage :
      signature_algorithm_id_is_supported me.cose_algorithm_id ≡ true
      → is_refused verifier (sent_tags me) ≡ false
      → (has_flag verifier.option_flags opt_require_kid ≡ false)
        ⊎ (is_null_ptr (sent_kid me) ≡ false)
      → verify_internal d u c e verifier cose_sign1 aad
          (given_payload payload_is_detached payload)
          payload_is_detached
        ≡ or_done
            (check_signature u c e with_sent_tags
              (sent_message d u me cose_sign1 payload_is_detached protected_parameters payload
                signature reads)
              aad)
            (λ s t. (
              s,
              ok (record { returned_payload = payload; returned_parameters = sent_parameters me }),
            ))
  unfolding verify_internal
  verify_internal-ReadsMessage supported tags kid =
      rw
        (
          reads.begun,
          no_decode_error d u me cose_sign1 payload_is_detached protected_parameters payload
              signature reads,
          process_tags_lem d (d.enter_array (d.init cose_sign1)) verifier (sent_tags me) reads.tags
              (few_tags me),
          tags,
          decode_parts-ReadsMessage d u me cose_sign1 payload_is_detached protected_parameters
              payload signature reads supported,
          sent-check_parameters u me with_sent_tags
              (sent_message d u me cose_sign1 payload_is_detached protected_parameters payload
                signature reads)
              kid refl refl,
        )
        refl

  abbrev signing : SignCtx
  signing = record me { protected_parameters = protected_parameters }

  -- The signature that was made is accepted in the message.
  pub verify_internal-make_signature :
      (space : List ℕ) (me' : SignCtx)
      → signature_algorithm_id_is_supported me.cose_algorithm_id ≡ true
      → IsSetUpFor c u me verifier
      → (has_flag me.option_flags opt_short_circuit_sig ≡ false)
        ⊎ HashFits c e me.cose_algorithm_id protected_parameters aad payload
      → make_signature c e signing aad payload (bytes space) ≡ (me', ok signature)
      → (verify_internal d u c e verifier cose_sign1 aad
          (given_payload payload_is_detached payload)
          payload_is_detached).1
        ≡ ok (record { returned_payload = payload; returned_parameters = sent_parameters me })
  verify_internal-make_signature space me' supported set_up fits made =
      let m =
        sent_message d u me cose_sign1 payload_is_detached protected_parameters payload signature
          reads in
      let matches : Matches c u signing payload signature with_sent_tags m = record {
        algorithm = refl;
        protected = refl;
        same_payload = refl;
        same_signature = refl;
        kid = set_up.short_circuit;
        allowed = set_up.allowed;
        buffer = set_up.buffer;
        keys = set_up.keys;
      } in
      ap (λ r. r.1) (verify_internal-ReadsMessage supported set_up.tags set_up.kid)
      ∙ returned_lem (check_signature u c e with_sent_tags m aad) _ (
          check_signature-make_signature c e u signing aad payload space with_sent_tags m signature
            matches me' fits made)

module _ (d : Decoder) (u : UsefulBuf) (c : Crypto) (e : Encoder) (me : SignCtx)
    (verifier : VerifyCtx) (payload_is_detached : Bool) (payload aad out_buf : Buf)
    (space : List ℕ) where
  abbrev pub encoded_signer : SignCtx
  encoded_signer = with_protected e u me (encode_init out_buf)

  -- What t_cose_sign1_sign_aad_internal() signs, t_cose_sign1_verify_internal() accepts, and it returns
  -- the payload that was signed and the algorithm, key identifier and content type of the signer. The
  -- payload is detached and not NULL, or in the message, where QCBOR gives back its bytes; the additional
  -- data are the same. QCBOR gives the signer a buffer for the signature, and reads the parts of the
  -- message as they were encoded. The keys belong together, the auxiliary buffers are the same, and the
  -- verifier does not refuse the tags that are sent and requires no key identifier that is not sent. The
  -- key identifier is the short-circuit one exactly when the signer uses that option; then the verifier
  -- allows it, and the hash is not empty and not longer than the signature.
  pub verify_internal-sign_aad_internal :
      (me' : SignCtx) (ctx' : EncodeCtx) (result : Buf)
      → ((payload_is_detached ≡ true) × (is_null_ptr payload ≡ false))
        ⊎ ((payload_is_detached ≡ false)
            × (e.wrapped_bstr (unsigned c e u me payload_is_detached payload aad out_buf)
                ≡ payload))
      → e.opened_bytes (unsigned c e u me payload_is_detached payload aad out_buf ▷ open_bytes)
        ≡ bytes space
      → ((signature : Buf)
          → ctx' ≡ record {
            out = out_buf;
            calls = message_calls me payload_is_detached payload signature;
          }
          → ReadsMessage d me result payload_is_detached encoded_signer.protected_parameters payload
              signature)
      → IsSetUpFor c u me verifier
      → (has_flag me.option_flags opt_short_circuit_sig ≡ false)
        ⊎ HashFits c e me.cose_algorithm_id encoded_signer.protected_parameters aad payload
      → sign_aad_internal c e u me payload_is_detached payload aad out_buf
        ≡ ((me', ctx'), ok result)
      → (verify_internal d u c e verifier result aad
          (given_payload payload_is_detached payload)
          payload_is_detached).1
        ≡ ok (record { returned_payload = payload; returned_parameters = sent_parameters me })
  verify_internal-sign_aad_internal me' ctx' result given room reading set_up fits h =
      let s =
        sign_aad_internal-IsSigned c e u me payload_is_detached payload aad out_buf me' ctx' result
          h in
      let reads = reading s.signature s.encoded in
      let made : make_signature c e encoded_signer aad payload (bytes space)
          ≡ (me', ok s.signature) =
        ap (λ b. make_signature c e encoded_signer aad payload b) (sym room)
        ∙ ap
            (λ p. make_signature c e encoded_signer aad p (
              e.opened_bytes
                (unsigned c e u me payload_is_detached payload aad out_buf ▷ open_bytes)))
            (sym (
              covered-payload payload_is_detached payload
                (e.wrapped_bstr (unsigned c e u me payload_is_detached payload aad out_buf)) given))
        ∙ s.made in
      verify_internal-make_signature d u c e me verifier payload_is_detached aad result
        encoded_signer.protected_parameters payload s.signature reads space me' s.supported set_up
        fits made
