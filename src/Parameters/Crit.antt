-- ===== src/Parameters/Crit.antt =====
-- decode_critical_parameter() and parse_cose_header_parameters(): the loop ends, no array is left,
-- and the label lists that come out are fit for check_critical_labels().
use t_cose.Common.{
  Safe, Safe-if, Safe-fail_if, Safe-store, ℕ, zero, suc, ◌+◌, ◌<◌, ◌≤◌, leb, ℤ, ◌≢◌, ◌∙◌, Bool, not,
  arith, List, set, length-set, get_elem?-set_ne, Buf, UsefulBuf,
}
use t_cose.Qcbor.{is_no_more_items, is_success, same_type, type_int64, type_text_string}
use t_cose.Qcbor.Decoder.{Decoder}
use t_cose.Labels.{LabelList, is_terminator, parameter_list_max}
use t_cose.Labels.Arrays.{StopsAt}
use t_cose.Labels.Views.{IsTerminated}
use t_cose.Parameters.{critical_loop}

StopsAt-set {ℓ} :
    {A : Type ℓ} (stop : A → Bool) (xs : List A) (n k : ℕ) (v : A)
    → n ≢ k
    → StopsAt stop k xs
    → StopsAt stop k (set xs n v)
StopsAt-set stop xs n k v ne (z, e, s) = (z, get_elem?-set_ne xs v ne ∙ e, s)

module _ (u : UsefulBuf) where
  set_int-IsTerminated :
      (list : LabelList) (n : ℕ) (v : ℤ)
      → n < parameter_list_max
      → IsTerminated u list
      → IsTerminated u (record list { int_labels = set list.int_labels n v })
  set_int-IsTerminated list n v h w = record {
    ints_sized = length-set list.int_labels n v ∙ w.ints_sized;
    ints_last =
        StopsAt-set is_terminator list.int_labels n parameter_list_max v (omega arith) w.ints_last;
    tstrs_sized = w.tstrs_sized;
    tstrs_last = w.tstrs_last;
  }

  set_tstr-IsTerminated :
      (list : LabelList) (n : ℕ) (v : Buf)
      → n < parameter_list_max
      → IsTerminated u list
      → IsTerminated u (record list { tstr_labels = set list.tstr_labels n v })
  set_tstr-IsTerminated list n v h w = record {
    ints_sized = w.ints_sized;
    ints_last = w.ints_last;
    tstrs_sized = length-set list.tstr_labels n v ∙ w.tstrs_sized;
    tstrs_last =
        StopsAt-set u.is_null list.tstr_labels n parameter_list_max v (omega arith) w.tstrs_last;
  }

module _ (d : Decoder) (u : UsefulBuf) where
  -- With fuel above the room that is left in both arrays, the loop ends before its fuel does.
  pub critical_loop-Safe :
      (fuel : ℕ) (ctx : d.Ctx) (num_int num_tstr : ℕ) (list : LabelList)
      → 20 < fuel + num_int + num_tstr
      → num_int ≤ parameter_list_max
      → num_tstr ≤ parameter_list_max
      → IsTerminated u list
      → Safe (λ r. IsTerminated u r.0) (critical_loop d fuel ctx num_int num_tstr list)
  unfolding critical_loop
  critical_loop-Safe zero ctx i t list f hi ht w = absurd (omega arith)
  critical_loop-Safe (suc fuel) ctx i t list f hi ht w =
      let P = λ (r : LabelList × d.Ctx). IsTerminated u r.0 in
      let (result, item, ctx') = d.get_next ctx in
      Safe-if P (is_no_more_items result) _ _ (λ h. w)
        λ h.
          Safe-if P (not (is_success result)) _ _ (λ h. tt)
            λ h.
              Safe-if P (same_type item.data_type type_int64) _ _
                (λ h. Safe-fail_if P (leb parameter_list_max i) _ _ λ below.
                  Safe-store P list.int_labels i item.val_int64 _ (ground arith) (
                    critical_loop-Safe fuel ctx' (i + 1) t _ (omega arith) (ground arith) ht
                      (set_int-IsTerminated u list i item.val_int64 (ground arith) w)))
                (λ h.
                  Safe-if P (same_type item.data_type type_text_string) _ _
                    (λ h. Safe-fail_if P (leb parameter_list_max t) _ _ λ below.
                      Safe-store P list.tstr_labels t item.val_string _ (ground arith) (
                        critical_loop-Safe fuel ctx' i (t + 1) _ (omega arith) hi (ground arith)
                          (set_tstr-IsTerminated u list t item.val_string (ground arith) w)))
                    (λ h. tt))
