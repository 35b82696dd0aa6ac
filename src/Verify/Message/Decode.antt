-- ===== src/Verify/Message/Decode.antt =====
-- The array of four that t_cose_sign1_verify_internal() decodes.
use t_cose.Common.{
  ◌==◌, ◌≡◌, refl, ◌⊎◌, ◌<◌, inl, inr, Bool, true, false, arith, Option, none, some, Buf, len,
  UsefulBuf, fault, Safe, Safe-if, Safe-bind, Safe-of_eq, Safe-imp, ℕ,
}
use t_cose.Algorithm.{cose_algorithm_reserved}
use t_cose.Labels.{LabelList, clear_label_list}
use t_cose.Labels.Views.{IsTerminated, IsLabelList, IsLabelList-IsTerminated, clear-IsLabelList}
use t_cose.Parameters.{CoseParameters, clear_cose_parameters, Parsed, parse_cose_header_parameters}
use t_cose.Parameters.Parse.{CriticalTerminated, parse_cose_header_parameters-Safe}
use t_cose.Parameters.Single.{TakenFrom}
use t_cose.Qcbor.{Item, QcborError, same_type, type_null}
use t_cose.Qcbor.Decoder.{Decoder, CallsBack}
use t_cose.Verify.Message.{
  Decoded, lists_of, qcbor_decode_error_to_t_cose_error, parse_protected, take_payload,
  decode_parts,
}

lists_of-IsTerminated :
    (u : UsefulBuf) (critical : Option LabelList)
    → CriticalTerminated u critical
    → IsTerminated u (lists_of critical)
lists_of-IsTerminated u none w = IsLabelList-IsTerminated u _ (clear-IsLabelList u)
lists_of-IsTerminated u (some list) w = w

TakenFrom-unprotected :
    (items : ℕ → Item) (p q : CoseParameters)
    → TakenFrom false items p q
    → q.cose_algorithm_id ≡ p.cose_algorithm_id
TakenFrom-unprotected items p q h = ground (arith, h.alg)

pub qcbor_decode_error-ne-fault :
    (d : Decoder) (e : QcborError) → qcbor_decode_error_to_t_cose_error d e ≡ fault → ⊥
unfolding qcbor_decode_error_to_t_cose_error
qcbor_decode_error-ne-fault d e h = ground arith

module _ (d : Decoder) (u : UsefulBuf) where
  take_payload-Safe :
      (ctx : d.Ctx) (is_dc : Bool) (payload : Buf)
      → Safe (λ r. (is_dc ≡ false) ⊎ (r.0 ≡ payload)) (take_payload d u ctx is_dc payload)
  unfolding take_payload
  take_payload-Safe ctx true payload =
      let (result, item, ctx') = d.get_next ctx in
      Safe-if _ (same_type item.data_type type_null) _ _ (λ h. inr refl) (λ h. tt)
  take_payload-Safe ctx false payload = inl refl

  record IsHeader (protected_parameters : Buf) (r : Parsed d) : Type 0 where
    pub critical_list : CriticalTerminated u r.critical
    pub unknown_list : IsLabelList u r.unknown
    pub empty :
        (0 < len protected_parameters) ⊎ (r.parameters.cose_algorithm_id ≡ cose_algorithm_reserved)

  parse_protected-Safe :
      CallsBack d
      → (ctx : d.Ctx) (protected_parameters : Buf)
      → Safe (IsHeader protected_parameters) (parse_protected d u ctx protected_parameters)
  unfolding parse_protected
  parse_protected-Safe c ctx protected_parameters =
      Safe-if _ (len protected_parameters == 0) _ _
        (λ h. record {
          critical_list = IsLabelList-IsTerminated u _ (clear-IsLabelList u);
          unknown_list = clear-IsLabelList u;
          empty = inr refl;
        })
        (λ h.
          Safe-imp _ _
            (parse_cose_header_parameters d u ctx clear_cose_parameters (some clear_label_list)
              clear_label_list)
            (parse_cose_header_parameters-Safe d u c ctx clear_cose_parameters
              (some clear_label_list) clear_label_list
              (IsLabelList-IsTerminated u _ (clear-IsLabelList u)) (clear-IsLabelList u))
            (λ r parsed. record {
              critical_list = parsed.critical_list;
              unknown_list = parsed.unknown_list;
              empty = inl (ground arith);
            }))

  -- What holds of the decoded parts: the label lists are fit to be compared, a detached payload is the
  -- caller's, and without protected parameters there is no algorithm.
  pub record IsDecoded (is_dc : Bool) (payload : Buf) (m : Decoded) : Type 0 where
    pub critical_list : IsTerminated u (lists_of m.critical)
    pub unknown_list : IsLabelList u m.unknown
    pub detached : (is_dc ≡ false) ⊎ (m.payload ≡ payload)
    pub unprotected_alg :
        (0 < len m.protected_parameters)
        ⊎ (m.parameters.cose_algorithm_id ≡ cose_algorithm_reserved)

  pub decode_parts-Safe :
      CallsBack d
      → (ctx : d.Ctx) (is_dc : Bool) (payload : Buf)
      → Safe (IsDecoded is_dc payload) (decode_parts d u ctx is_dc payload)
  unfolding decode_parts
  decode_parts-Safe c ctx is_dc payload =
      let (inner, protected_parameters) = d.enter_bstr_wrapped ctx in
      Safe-bind (IsHeader protected_parameters) _ (parse_protected d u inner protected_parameters) _
        (parse_protected-Safe c inner protected_parameters)
        λ p header.
          Safe-bind _ _
            (parse_cose_header_parameters d u (d.exit_bstr_wrapped p.ctx) p.parameters none
              p.unknown)
            _
            (parse_cose_header_parameters-Safe d u c (d.exit_bstr_wrapped p.ctx) p.parameters none
              p.unknown tt header.unknown_list)
            λ q parsed.
              Safe-bind _ _ (take_payload d u q.ctx is_dc payload) _
                (take_payload-Safe q.ctx is_dc payload)
                λ taken same.
                  Safe-bind _ _
                    (qcbor_decode_error_to_t_cose_error d
                      (d.finish (d.exit_array (d.get_byte_string taken.1).1)))
                    _ (Safe-of_eq (λ _. Unit) _ (qcbor_decode_error-ne-fault d _) (λ a e. tt))
                    λ done finished. record {
                      critical_list = lists_of-IsTerminated u p.critical header.critical_list;
                      unknown_list = parsed.unknown_list;
                      detached = same;
                      unprotected_alg = ground (
                        arith,
                        header.empty,
                        TakenFrom-unprotected _ p.parameters q.parameters parsed.taken,
                      );
                    }
