-- ===== src/Parameters/Unknown.antt =====
-- The unknown labels that parse_cose_header_parameters() collects through its callback.
use t_cose.Common.{
  ◌≡◌, refl, ◌⊎◌, inl, inr, sym, subst, Bool, true, false, ◌&&◌, if◌then◌else◌, Bool-cases, eq_ℤ,
  ok-injective, List, [], ◌∷◌, Result, ok, err, fault, ◌>>=◌, Err, UsefulBuf,
}
use t_cose.Qcbor.{Item, is_success, same_type, type_int64}
use t_cose.Qcbor.Decoder.{visit}
use t_cose.Labels.{LabelList, add_label_to_list}
use t_cose.Labels.Views.{
  Labels, IsLabelList, labels_of, add_label, map_result, add_label_to_list-views,
  add_label-ne-fault,
}
use t_cose.Parameters.{CbContext, header_parameter_callback, param_crit, report}

abbrev pub is_crit : Item → Bool
is_crit item = same_type item.label_type type_int64 && eq_ℤ item.label_int64 param_crit

module _ (u : UsefulBuf) where
  -- The specification: every label but crit's is added, in order.
  unfoldable pub add_unknown : List Item → Labels → Result Labels
  add_unknown [] labels = ok labels
  add_unknown (item ∷ items) labels =
      (if is_crit item then ok labels else add_label u item labels) >>= add_unknown items

  -- After the calls: either all succeeded and the labels are added, or one did not.
  abbrev Collected : CbContext → List Item → Type 0
  Collected c items =
      let v = visit (header_parameter_callback u) c items in
      ((is_success v.0 ≡ true)
        × IsLabelList u v.1.unknown_labels
        × (add_unknown items (labels_of u c.unknown_labels) ≡ ok (labels_of u v.1.unknown_labels)))
      ⊎ ((is_success v.0 ≡ false)
          × (e : Err) × (v.1.return_value ≡ err e)
          × (add_unknown items (labels_of u c.unknown_labels) ≡ err e))

  -- One call.
  abbrev Called : CbContext → Item → Type 0
  Called c item =
      let r = header_parameter_callback u c item in
      let spec =
        (if is_crit item
          then ok (labels_of u c.unknown_labels)
          else add_label u item (labels_of u c.unknown_labels)) in
      ((is_success r.0 ≡ true)
        × IsLabelList u r.1.unknown_labels
        × (spec ≡ ok (labels_of u r.1.unknown_labels)))
      ⊎ ((is_success r.0 ≡ false) × (e : Err) × (r.1.return_value ≡ err e) × (spec ≡ err e))

  Called_of_result :
      (c : CbContext) (r : Result LabelList) (spec : Result Labels)
      → map_result (labels_of u) r ≡ spec
      → ((after : LabelList) → r ≡ ok after → IsLabelList u after)
      → (spec ≡ fault → ⊥)
      → (((is_success (report c r).0 ≡ true)
            × IsLabelList u (report c r).1.unknown_labels
            × (spec ≡ ok (labels_of u (report c r).1.unknown_labels)))
          ⊎ ((is_success (report c r).0 ≡ false)
              × (e : Err) × ((report c r).1.return_value ≡ err e)
              × (spec ≡ err e)))
  Called_of_result c (ok list) spec h w nf = inl (refl, w list refl, sym h)
  Called_of_result c (err e) spec h w nf = inr (refl, e, refl, sym h)
  Called_of_result c fault spec h w nf = absurd (nf (sym h))

  callback-Called : (c : CbContext) (item : Item) → IsLabelList u c.unknown_labels → Called c item
  unfolding header_parameter_callback
  callback-Called c item w = elim (Bool-cases (is_crit item)) [
    | inl crit ↦ rw crit (
        Called_of_result c (ok c.unknown_labels) _ refl
          (λ a e. subst (IsLabelList u) (ok-injective _ _ e) w) (λ h. cc))
    | inr other ↦ rw other (
        Called_of_result c (add_label_to_list u item c.unknown_labels) _
          (add_label_to_list-views u item c.unknown_labels w).0
          (add_label_to_list-views u item c.unknown_labels w).1 (add_label-ne-fault u item _))
  ]

  pub visit-Collected :
      (items : List Item) (c : CbContext) → IsLabelList u c.unknown_labels → Collected c items
  unfolding visit add_unknown
  visit-Collected [] c w = inl (refl, w, refl)
  visit-Collected (item ∷ items) c w = elim (callback-Called c item w) [
    | inl (good, w', spec) ↦
        rw (good, spec) (visit-Collected items (header_parameter_callback u c item).1 w')
    | inr (bad, e, returned, spec) ↦ rw (bad, spec) (inr (bad, e, returned, refl))
  ]
