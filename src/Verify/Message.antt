-- ===== src/Verify/Message.antt =====
-- t_cose_sign1_verify_internal() and its callers: a COSE_Sign1 message is decoded, then checked.
pub mod Decode
pub mod Safety
pub mod Signed
pub mod Accept
pub mod Complete
use t_cose.Common.{
  ℕ, ◌==◌, ℤ, pos, eq_ℤ, Bool, true, false, not, ◌&&◌, Option, some, none, if◌then◌else◌, Buf,
  null_buf, len, UsefulBuf, Result, ok, err, fault, ◌>>=◌, ◌>>◌, fail_if, or_done, too_many_tags,
  cbor_not_well_formed, sign1_format, cbor_formatting, no_kid,
}
use t_cose.Algorithm.{cose_algorithm_eddsa}
use t_cose.Crypto.{Crypto}
use t_cose.Labels.{LabelList, clear_label_list, check_critical_labels}
use t_cose.Parameters.{CoseParameters, clear_cose_parameters, Parsed, parse_cose_header_parameters}
use t_cose.Qcbor.{QcborError, same_type, type_null, is_success, is_too_many_tags}
use t_cose.Qcbor.Decoder.{Decoder}
use t_cose.Qcbor.Encoder.{Encoder}
use t_cose.ShortCircuit.{short_circuit_kid}
use t_cose.Verify.Context.{VerifyCtx, has_flag, opt_require_kid, opt_unknown_crit_allowed}
use t_cose.Verify.Signature.{verify_short_circuit, verify_eddsa, verify_default}
use t_cose.Verify.Tags.{process_tags}

-- What the decoding of the array of four leaves in the local variables.
pub record Decoded : Type 0 where
  pub parameters : CoseParameters
  pub critical : Option LabelList
  pub unknown : LabelList
  pub protected_parameters : Buf
  pub payload : Buf
  pub signature : Buf

-- What the caller is given.
pub record Verified : Type 0 where
  pub returned_payload : Buf
  pub returned_parameters : CoseParameters

abbrev pub lists_of : Option LabelList → LabelList
lists_of none = clear_label_list
lists_of (some list) = list

module _ (d : Decoder) where
  unfoldable pub qcbor_decode_error_to_t_cose_error : QcborError → Result (Unit {0})
  qcbor_decode_error_to_t_cose_error e =
      if is_too_many_tags e
      then err too_many_tags
      else if d.is_not_well_formed_error e
      then err cbor_not_well_formed
      else if not (is_success e)
      then err sign1_format
      else ok tt

  module _ (u : UsefulBuf) where
    -- The protected parameters: an empty byte string is not parsed.
    unfoldable pub parse_protected : d.Ctx → Buf → Result (Parsed d)
    parse_protected ctx protected_parameters =
        if len protected_parameters == 0
        then ok (record {
          ctx = ctx;
          parameters = clear_cose_parameters;
          critical = some clear_label_list;
          unknown = clear_label_list;
        })
        else parse_cose_header_parameters d u ctx clear_cose_parameters (some clear_label_list)
            clear_label_list

    -- The payload of the message, or the one of the caller, where the message must hold null.
    unfoldable pub take_payload : d.Ctx → Bool → Buf → Result (Buf × d.Ctx)
    take_payload ctx is_dc payload =
        let (result, item, ctx') = d.get_next ctx in
        if is_dc
        then (if same_type item.data_type type_null
            then ok (payload, ctx')
            else err cbor_formatting)
        else ok (d.get_byte_string ctx)

    -- The array of four, after the tags.
    unfoldable pub decode_parts : d.Ctx → Bool → Buf → Result Decoded
    decode_parts ctx is_dc payload = do
      let (inner, protected_parameters) = d.enter_bstr_wrapped ctx
      p ← parse_protected inner protected_parameters
      q ← parse_cose_header_parameters d u (d.exit_bstr_wrapped p.ctx) p.parameters none p.unknown
      (signed_payload, ctx1) ← take_payload q.ctx is_dc payload
      let (signature, ctx2) = d.get_byte_string ctx1
      qcbor_decode_error_to_t_cose_error (d.finish (d.exit_array ctx2))
      ok (record {
        parameters = q.parameters;
        critical = p.critical;
        unknown = q.unknown;
        protected_parameters = protected_parameters;
        payload = signed_payload;
        signature = signature;
      })

module _ (u : UsefulBuf) where
  -- The checks between decoding and the signature.
  unfoldable pub check_parameters : VerifyCtx → Decoded → Result (Unit {0})
  check_parameters me m = do
    fail_if (has_flag me.option_flags opt_require_kid && u.is_null m.parameters.kid) no_kid
    (if has_flag me.option_flags opt_unknown_crit_allowed
        then ok tt
        else check_critical_labels u (lists_of m.critical) m.unknown)

  unfoldable pub check_signature :
      Crypto → Encoder → VerifyCtx → Decoded → Buf → VerifyCtx × Result (Unit {0})
  check_signature c e me m aad =
      if eq_ℤ (u.compare m.parameters.kid short_circuit_kid) (pos 0)
      then (
        me,
        verify_short_circuit c e u me m.parameters m.signature m.protected_parameters aad m.payload,
      )
      else if eq_ℤ m.parameters.cose_algorithm_id cose_algorithm_eddsa
      then verify_eddsa c e u me m.parameters m.signature m.protected_parameters aad m.payload
      else (
        me,
        verify_default c e u me m.parameters m.signature m.protected_parameters aad m.payload,
      )

module _ (d : Decoder) (u : UsefulBuf) (c : Crypto) (e : Encoder) where
  unfoldable pub verify_internal : VerifyCtx → Buf → Buf → Buf → Bool → VerifyCtx × Result Verified
  verify_internal me cose_sign1 aad payload is_dc =
      let ctx = d.enter_array (d.init cose_sign1) in
      or_done (me, qcbor_decode_error_to_t_cose_error d (d.get_error ctx))
        λ me0 _. or_done (process_tags d me0 ctx) λ me1 _.
          or_done (me1, decode_parts d u ctx is_dc payload)
            λ me2 m.
              or_done (me2, check_parameters u me2 m)
                λ me3 _. or_done (check_signature u c e me3 m aad) λ me4 _. (
                  me4,
                  ok (record { returned_payload = m.payload; returned_parameters = m.parameters }),
                )

  -- t_cose_sign1_verify(), t_cose_sign1_verify_aad() and t_cose_sign1_verify_detached()
  unfoldable pub verify : VerifyCtx → Buf → VerifyCtx × Result Verified
  verify me cose_sign1 = verify_internal me cose_sign1 null_buf null_buf false

  unfoldable pub verify_aad : VerifyCtx → Buf → Buf → VerifyCtx × Result Verified
  verify_aad me cose_sign1 aad = verify_internal me cose_sign1 aad null_buf false

  unfoldable pub verify_detached : VerifyCtx → Buf → Buf → Buf → VerifyCtx × Result Verified
  verify_detached me cose_sign1 aad detached_payload =
      verify_internal me cose_sign1 aad detached_payload true
