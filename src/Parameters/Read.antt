-- ===== src/Parameters/Read.antt =====
-- parse_cose_header_parameters() on a map that QCBOR reads without an error, without unknown labels and
-- without the critical parameter.
use t_cose.Common.{ℕ, ◌≡◌, refl, Option, UsefulBuf, ok}
use t_cose.Labels.{LabelList}
use t_cose.Qcbor.{Item, QcborError, qcbor_success, label_not_found}
use t_cose.Qcbor.Decoder.{Decoder}
use t_cose.Parameters.{
  CbContext, CoseParameters, decode_critical_parameter, header_parameter_callback, header_queries,
  is_protected, param_crit, parse_cose_header_parameters,
}
use t_cose.Parameters.Single.{TakenFrom, take_parameters_iff}

-- QCBOR reads a map, from one context to another, that holds the items and nothing else.
pub record ReadsMap (d : Decoder) (ctx done : d.Ctx) (items : ℕ → Item) : Type 1 where
  pub after : d.Ctx
  pub found :
      (S : Type 0) (callback : S → Item → QcborError × S) (s : S)
      → d.get_items_in_map_with_callback S callback (d.enter_map ctx) header_queries s
        ≡ (items, s, after)
  pub no_error : d.get_error after ≡ qcbor_success
  pub crit_reset : d.Ctx
  pub no_crit :
      d.get_and_reset_error (d.enter_array_from_map param_crit after)
      ≡ (label_not_found, crit_reset)
  pub exited : d.exit_map crit_reset ≡ done

module _ (d : Decoder) (u : UsefulBuf) (ctx done : d.Ctx) (items : ℕ → Item)
    (map : ReadsMap d ctx done items) where
  pub parse_cose_header_parameters-ReadsMap :
      (p q : CoseParameters) (critical : Option LabelList) (unknown : LabelList)
      → TakenFrom (is_protected critical) items p q
      → parse_cose_header_parameters d u ctx p critical unknown
        ≡ ok (record { ctx = done; parameters = q; critical = critical; unknown = unknown })
  unfolding parse_cose_header_parameters decode_critical_parameter
  parse_cose_header_parameters-ReadsMap p q critical unknown taken =
      rw
        (
          map.found CbContext (header_parameter_callback u)
              (record { unknown_labels = unknown; return_value = ok tt }),
          map.no_error,
          (take_parameters_iff u (is_protected critical) items p q).1 taken,
          map.no_crit,
          map.exited,
        )
        refl
