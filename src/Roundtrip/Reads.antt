-- ===== src/Roundtrip/Reads.antt =====
-- How a QCBOR decoder reads a message that t_cose_sign1_sign.c has encoded, and what
-- t_cose_sign1_verify_internal() decodes it to.
use t_cose.Common.{
  ℕ, ◌<◌, ◌==◌, ◌≡◌, ◌≢◌, refl, sym, ap, inl, inr, ℤ, pos, negsuc, ◌≤ℤ◌, int32, Bool, true, false,
  not, arith, some, none, Buf, len, UsefulBuf, ok,
}
use t_cose.Algorithm.{signature_algorithm_id_is_supported}
use t_cose.Labels.{clear_label_list}
use t_cose.Parameters.{clear_cose_parameters, empty_uint_content_type, to_uint32}
use t_cose.Parameters.Read.{parse_cose_header_parameters-ReadsMap}
use t_cose.Parameters.Single.{TakenFrom}
use t_cose.Qcbor.{Item, qcbor_success, same_type, type_none}
use t_cose.Qcbor.Decoder.{Decoder}
use t_cose.Sign.Context.{SignCtx}
use t_cose.Sign.Parameters.{has_uint}
use t_cose.Verify.Message.{
  Decoded, qcbor_decode_error_to_t_cose_error, parse_protected, take_payload, decode_parts,
}
use t_cose.Roundtrip.Sent.{
  ReadsMessage, ProtectedItems, UnprotectedItems, given_payload, sent_parameters,
}

supported-int32 :
    (id : ℤ)
    → signature_algorithm_id_is_supported id ≡ true
    → (id ≢ pos 0) × (id ≤ℤ pos 0x7fffffff) × (id ≡ int32 id)
unfolding signature_algorithm_id_is_supported int32
supported-int32 (pos n) h = absurd (cc)
supported-int32 (negsuc n) h = (λ e. cc, omega arith, ground arith)

no_uint_elim : (n : ℕ) → has_uint n ≡ false → n ≡ empty_uint_content_type
no_uint_elim n h = ground arith

to_uint32_pos : (n : ℕ) → n < 65536 → to_uint32 (pos n) ≡ n
to_uint32_pos n small = ground arith

module _ (me : SignCtx) (items : ℕ → Item) where
  protected_taken :
      signature_algorithm_id_is_supported me.cose_algorithm_id ≡ true
      → ProtectedItems me items
      → TakenFrom true items clear_cose_parameters
          (record clear_cose_parameters { cose_algorithm_id = me.cose_algorithm_id })
  protected_taken supported found =
      let (ne, le, same) = supported-int32 me.cose_algorithm_id supported in
      record {
        alg = inr (
          ap (λ t. not (same_type t type_none)) found.alg,
          refl,
          rw found.alg_value ne,
          rw found.alg_value le,
          rw found.alg_value same,
        );
        kid = inl (found.no_kid, refl);
        iv = inl (found.no_iv, refl);
        partial_iv = inl (found.no_partial_iv, refl);
        content_type = inl (found.no_content_type, refl);
      }

  unprotected_taken :
      UnprotectedItems me items
      → TakenFrom false items
          (record clear_cose_parameters { cose_algorithm_id = me.cose_algorithm_id })
          (sent_parameters me)
  unprotected_taken found = record {
    alg = inl (found.no_alg, refl);
    kid = elim found.kid [
      | inl (empty, absent) ↦ inl (absent, rw empty refl)
      | inr (there, present, value) ↦ inr (present, refl, rw there (sym value))
    ];
    iv = inl (found.no_iv, refl);
    partial_iv = inl (found.no_partial_iv, refl);
    content_type = elim found.content_type [
      | inl (no_uint, no_tstr, absent) ↦
          inl (absent, rw (no_tstr, no_uint_elim me.content_type_uint no_uint) refl)
      | inr (inl (s, no_uint, tstr, text, value)) ↦
          inr (inl (text, refl, rw (tstr, no_uint_elim me.content_type_uint no_uint, value) refl))
      | inr (inr (uint, small, no_tstr, int, value)) ↦ inr (
          inr (
            int,
            rw value (omega arith),
            rw value (omega arith),
            refl,
            rw (no_tstr, value, to_uint32_pos me.content_type_uint small) refl,
          ))
    ];
  }

module _ (d : Decoder) (u : UsefulBuf) (me : SignCtx) (cose_sign1 : Buf)
    (payload_is_detached : Bool) (protected_parameters payload signature : Buf)
    (reads : ReadsMessage d me cose_sign1 payload_is_detached protected_parameters payload
      signature) where
  -- What the message is decoded to.
  abbrev pub sent_message : Decoded
  sent_message = record {
    parameters = sent_parameters me;
    critical = some clear_label_list;
    unknown = clear_label_list;
    protected_parameters = protected_parameters;
    payload = payload;
    signature = signature;
  }

  pub no_decode_error : qcbor_decode_error_to_t_cose_error d qcbor_success ≡ ok tt
  unfolding qcbor_decode_error_to_t_cose_error
  no_decode_error = rw reads.well_formed refl

  take_payload-ReadsMessage :
      take_payload d u reads.unprotected_done payload_is_detached
        (given_payload payload_is_detached payload)
      ≡ ok (payload, reads.payload_done)
  unfolding take_payload
  take_payload-ReadsMessage = elim reads.payload_read [
    | inl (inside, read) ↦ rw (inside, read) refl
    | inr (detached, result, item, null_item, read) ↦ rw (detached, read, null_item) refl
  ]

  -- decode_parts() gives the parts that were sent.
  pub decode_parts-ReadsMessage :
      signature_algorithm_id_is_supported me.cose_algorithm_id ≡ true
      → decode_parts d u
          (d.enter_array (d.init cose_sign1))
          payload_is_detached
          (given_payload payload_is_detached payload)
        ≡ ok sent_message
  unfolding decode_parts parse_protected
  decode_parts-ReadsMessage supported =
      let there : (len protected_parameters == 0) ≡ false = ground (arith, reads.not_empty) in
      rw
        (
          reads.wrapped,
          there,
          parse_cose_header_parameters-ReadsMap d u reads.inner reads.protected_done
              reads.protected_items reads.protected_map clear_cose_parameters
              (record clear_cose_parameters { cose_algorithm_id = me.cose_algorithm_id })
              (some clear_label_list) clear_label_list
              (protected_taken me reads.protected_items supported reads.protected_found),
          parse_cose_header_parameters-ReadsMap d u (d.exit_bstr_wrapped reads.protected_done)
              reads.unprotected_done reads.unprotected_items reads.unprotected_map
              (record clear_cose_parameters { cose_algorithm_id = me.cose_algorithm_id })
              (sent_parameters me) none clear_label_list
              (unprotected_taken me reads.unprotected_items reads.unprotected_found),
          take_payload-ReadsMessage,
          reads.signature_read,
          reads.finished,
          no_decode_error,
        )
        refl
