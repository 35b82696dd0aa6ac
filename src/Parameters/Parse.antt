-- ===== src/Parameters/Parse.antt =====
-- What parse_cose_header_parameters() guarantees when it succeeds, and that it leaves no array.
use t_cose.Common.{
  ℕ, ◌≡◌, inl, inr, Bool, not, arith, Option, none, some, ok, fault, UsefulBuf, Safe, Safe-if,
  Safe-fail_if, Safe-bind, IsSafe, IsSafe-bind, Safe-of_eq, Safe-ne-fault, Buf,
}
use t_cose.Qcbor.{Item, is_success, is_label_not_found, is_callback_fail}
use t_cose.Qcbor.Decoder.{Decoder, CallsBack}
use t_cose.Labels.{LabelList, is_label_list_clear}
use t_cose.Labels.Views.{IsTerminated, IsLabelList, labels_of}
use t_cose.Parameters.{
  CbContext, CoseParameters, Parsed, critical_loop, decode_critical_parameter,
  header_parameter_callback, header_queries, is_protected, parse_cose_header_parameters,
  take_parameters, take_alg, take_string, take_content_type, alg_index, kid_index, iv_index,
  partial_iv_index, param_crit,
}
use t_cose.Parameters.Single.{TakenFrom, take_parameters_iff}
use t_cose.Parameters.Crit.{critical_loop-Safe}
use t_cose.Parameters.Unknown.{add_unknown, visit-Collected}

-- Where there is a list of critical labels, its arrays are terminated.
abbrev pub CriticalTerminated : UsefulBuf → Option LabelList → Type 0
CriticalTerminated u none = Unit
CriticalTerminated u (some list) = IsTerminated u list

take_alg-ne-fault :
    (protected : Bool) (item : Item) (p : CoseParameters) → take_alg protected item p ≡ fault → ⊥
unfolding take_alg
take_alg-ne-fault protected item p h = ground arith

take_string-ne-fault :
    (u : UsefulBuf) (item : Item) (old : Buf) → take_string u item old ≡ fault → ⊥
unfolding take_string
take_string-ne-fault u item old h = ground arith

take_content_type-ne-fault :
    (u : UsefulBuf) (item : Item) (p : CoseParameters) → take_content_type u item p ≡ fault → ⊥
unfolding take_content_type
take_content_type-ne-fault u item p h = ground arith

take_parameters-IsSafe :
    (u : UsefulBuf) (protected : Bool) (items : ℕ → Item) (p : CoseParameters)
    → IsSafe (take_parameters u protected items p)
unfolding take_parameters
take_parameters-IsSafe u protected items p =
    IsSafe-bind (take_alg protected (items alg_index) p) _ (take_alg-ne-fault protected _ p) λ p1.
      IsSafe-bind (take_string u (items kid_index) p1.kid) _ (take_string-ne-fault u _ p1.kid)
        λ kid.
          IsSafe-bind (take_string u (items iv_index) p1.iv) _ (take_string-ne-fault u _ p1.iv)
            λ iv.
              IsSafe-bind (take_string u (items partial_iv_index) p1.partial_iv) _
                (take_string-ne-fault u _ p1.partial_iv)
                λ piv. Safe-of_eq _ _ (take_content_type-ne-fault u _ _) (λ a e. tt)

take_parameters-Safe :
    (u : UsefulBuf) (protected : Bool) (items : ℕ → Item) (p : CoseParameters)
    → Safe (TakenFrom protected items p) (take_parameters u protected items p)
take_parameters-Safe u protected items p =
    Safe-of_eq _ _ (Safe-ne-fault _ _ (take_parameters-IsSafe u protected items p))
      (λ q e. (take_parameters_iff u protected items p q).0 e)

module _ (d : Decoder) (u : UsefulBuf) where
  decode_critical_parameter-Safe :
      (ctx : d.Ctx) (critical : Option LabelList)
      → CriticalTerminated u critical
      → Safe (λ r. CriticalTerminated u r.0) (decode_critical_parameter d u ctx critical)
  unfolding decode_critical_parameter
  decode_critical_parameter-Safe ctx none w =
      let (result, ctx') = d.get_and_reset_error (d.enter_array_from_map param_crit ctx) in
      Safe-if _ (is_label_not_found result) _ _ (λ h. tt)
        λ h. Safe-if _ (not (is_success result)) _ _ (λ h. tt) (λ h. tt)
  decode_critical_parameter-Safe ctx (some list) w =
      let (result, ctx') = d.get_and_reset_error (d.enter_array_from_map param_crit ctx) in
      Safe-if _ (is_label_not_found result) _ _ (λ h. w)
        λ h.
          Safe-if _ (not (is_success result)) _ _ (λ h. tt)
            λ h.
              Safe-bind _ _ (critical_loop d 21 ctx' 0 0 list) _
                (critical_loop-Safe d u 21 ctx' 0 0 list (omega arith) (omega arith) (omega arith)
                  w)
                (λ r t. Safe-fail_if _ (is_label_list_clear u r.0) _ _ (λ clear. t))

  -- What a success leaves: the unknown labels of the map added in order, the critical labels fit to
  -- be compared, and the parameters of the items that were found.
  pub record IsParsed (c : CallsBack d) (ctx : d.Ctx) (parameters : CoseParameters)
      (critical : Option LabelList) (unknown : LabelList) (r : Parsed d) : Type 0 where
    pub unknown_list : IsLabelList u r.unknown
    pub unknown_added :
        add_unknown u (c.unasked (d.enter_map ctx) header_queries) (labels_of u unknown)
        ≡ ok (labels_of u r.unknown)
    pub critical_list : CriticalTerminated u r.critical
    pub taken :
        TakenFrom
          (is_protected critical)
          (d.get_items_in_map_with_callback CbContext
            (header_parameter_callback u)
            (d.enter_map ctx)
            header_queries
            (record { unknown_labels = unknown; return_value = ok tt })).0
          parameters
          r.parameters

  -- With QCBOR's callback as documented and well-formed label lists, parsing leaves no array. When
  -- it succeeds, every label that is not decoded, crit's aside, has been passed in order to the list
  -- of unknown labels, which there was room for and which records it unless it is the integer 0 or
  -- a text with a null pointer; these two leave the list as it is. The list of critical labels
  -- is terminated, and the parameters are the ones that the items allow.
  pub parse_cose_header_parameters-Safe :
      (c : CallsBack d) (ctx : d.Ctx) (parameters : CoseParameters) (critical : Option LabelList)
      (unknown : LabelList)
      → CriticalTerminated u critical
      → IsLabelList u unknown
      → Safe
          (IsParsed c ctx parameters critical unknown)
          (parse_cose_header_parameters d u ctx parameters critical unknown)
  unfolding parse_cose_header_parameters
  parse_cose_header_parameters-Safe c ctx parameters critical unknown wc wu =
      let start : CbContext = record { unknown_labels = unknown; return_value = ok tt } in
      let r =
        d.get_items_in_map_with_callback CbContext (header_parameter_callback u) (d.enter_map ctx)
          header_queries start in
      let goal = IsParsed c ctx parameters critical unknown in
      let items = c.unasked (d.enter_map ctx) header_queries in
      let result = d.get_error r.2 in
      let same =
        c.in_order CbContext (header_parameter_callback u) (d.enter_map ctx) header_queries start in
      elim (visit-Collected u items start wu) [
        | inl (good, w, added) ↦
            Safe-if goal (is_callback_fail result) _ _
              (λ h. absurd (
                ground (
                  arith,
                  c.callback_fail_is_failure CbContext (header_parameter_callback u)
                      (d.enter_map ctx) header_queries start h,
                )))
              λ h.
                Safe-if goal (not (is_success result)) _ _ (λ h. tt)
                  λ h.
                    Safe-bind (TakenFrom (is_protected critical) r.0 parameters) goal
                      (take_parameters u (is_protected critical) r.0 parameters) _
                      (take_parameters-Safe u (is_protected critical) r.0 parameters)
                      λ p taken.
                        Safe-bind (λ s. CriticalTerminated u s.0) goal
                          (decode_critical_parameter d u r.2 critical) _
                          (decode_critical_parameter-Safe r.2 critical wc)
                          λ decoded terminated.
                            let parsed : Parsed d = record {
                              ctx = d.exit_map decoded.1;
                              parameters = p;
                              critical = decoded.0;
                              unknown = r.1.unknown_labels;
                            } in
                            let done : goal parsed = record {
                              unknown_list = rw same w;
                              unknown_added = rw same added;
                              critical_list = terminated;
                              taken = taken;
                            } in
                            done
        | inr (bad, e, returned, spec) ↦
            Safe-if goal (is_callback_fail result) _ _ (λ h. rw (same, returned) tt)
              λ h.
                Safe-if goal (not (is_success result)) _ _ (λ h. tt)
                  λ h. absurd (
                    ground (
                      arith,
                      c.failure_is_error CbContext (header_parameter_callback u) (d.enter_map ctx)
                          header_queries start bad,
                    ))
      ]
