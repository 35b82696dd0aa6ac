-- ===== src/Examples/Parameters.antt =====
-- Labels, header parameters and algorithms at concrete inputs.
use t_cose.Common.{
  ℕ, zero, suc, ◌+◌, ◌*◌, ◌^◌, ◌≡◌, refl, ◌↔◌, ◌⊎◌, ℤ, pos, negsuc, true, [], ◌∷◌, replicate, set,
  some, Buf, null_buf, bytes, ok, err, Safe, arith, unknown_critical_parameter,
}
use t_cose.Examples.Models.{plain_useful_buf, Script, played, played-CallsBack}
use t_cose.Labels.{LabelList, clear_label_list, add_label_to_list, check_critical_labels}
use t_cose.Labels.Critical.{InList, check_critical_labels_iff}
use t_cose.Labels.Views.{
  IsLabelList, IsLabelList-IsTerminated, clear-IsLabelList, labels_of, map_result, add_label,
  add_label_to_list-add_label,
}
use t_cose.Parameters.{
  clear_cose_parameters, take_parameters, take_alg, parse_cose_header_parameters,
}
use t_cose.Parameters.Parse.{IsParsed, parse_cose_header_parameters-Safe}
use t_cose.Parameters.Single.{TakenFrom, take_parameters_iff, take_alg_wraps}
use t_cose.Qcbor.{Item, type_none, type_int64, type_byte_string, type_text_string, label_not_found}

abbrev pub absent : Item
absent = record {
  label_type = type_none;
  label_int64 = pos 0;
  label_string = null_buf;
  data_type = type_none;
  val_int64 = pos 0;
  val_string = null_buf;
}

abbrev pub numbered : ℤ → ℤ → Item
numbered label value = record absent {
  label_type = type_int64;
  label_int64 = label;
  data_type = type_int64;
  val_int64 = value;
}

abbrev pub named : Buf → Item
named label = record absent {
  label_type = type_text_string;
  label_string = label;
  data_type = type_byte_string;
}

-- The label 33 in an otherwise empty list.
abbrev some_labels : LabelList
some_labels = record clear_label_list { int_labels = set (replicate 11 (pos 0)) 0 (pos 33) }

some_labels-IsLabelList : IsLabelList plain_useful_buf some_labels
some_labels-IsLabelList = record {
  int_array = record { sized = refl; last = (pos 0, refl, refl); padded = ground arith };
  tstr_array = (clear-IsLabelList plain_useful_buf).tstr_array;
}

add_label_to_list-add_label_example :
    (map_result
        (labels_of plain_useful_buf)
        (add_label_to_list plain_useful_buf (numbered (pos 34) (pos 1)) some_labels)
      ≡ add_label plain_useful_buf
          (numbered (pos 34) (pos 1))
          (labels_of plain_useful_buf some_labels))
    × Safe
        (IsLabelList plain_useful_buf)
        (add_label_to_list plain_useful_buf (numbered (pos 34) (pos 1)) some_labels)
add_label_to_list-add_label_example =
    add_label_to_list-add_label plain_useful_buf (numbered (pos 34) (pos 1)) some_labels
      some_labels-IsLabelList

check_critical_labels_iff_example :
    ((check_critical_labels plain_useful_buf some_labels clear_label_list ≡ ok tt) ↔ (
      ((a : ℤ)
        → InList a (labels_of plain_useful_buf some_labels).ints
        → InList a (labels_of plain_useful_buf clear_label_list).ints
        → ⊥)
      × ((a b : Buf)
          → InList a (labels_of plain_useful_buf some_labels).tstrs
          → InList b (labels_of plain_useful_buf clear_label_list).tstrs
          → plain_useful_buf.compare a b ≡ pos 0
          → ⊥)))
    × ((check_critical_labels plain_useful_buf some_labels clear_label_list ≡ ok tt)
        ⊎ (check_critical_labels plain_useful_buf some_labels clear_label_list
            ≡ err unknown_critical_parameter))
check_critical_labels_iff_example =
    check_critical_labels_iff plain_useful_buf some_labels clear_label_list
      (IsLabelList-IsTerminated plain_useful_buf some_labels some_labels-IsLabelList)
      (IsLabelList-IsTerminated plain_useful_buf clear_label_list
        (clear-IsLabelList plain_useful_buf))

-- ES256, and a key identifier.
abbrev header_items : ℕ → Item
header_items zero = numbered (pos 1) (negsuc 6)
header_items (suc zero) = record absent {
  data_type = type_byte_string;
  val_string = bytes (1 ∷ 2 ∷ []);
}
header_items _ = absent

take_parameters_iff_example :
    (take_parameters plain_useful_buf true header_items clear_cose_parameters
      ≡ ok
          (record clear_cose_parameters { cose_algorithm_id = negsuc 6; kid = bytes (1 ∷ 2 ∷ []) }))
    ↔ TakenFrom true header_items clear_cose_parameters
        (record clear_cose_parameters { cose_algorithm_id = negsuc 6; kid = bytes (1 ∷ 2 ∷ []) })
take_parameters_iff_example =
    take_parameters_iff plain_useful_buf true header_items clear_cose_parameters
      (record clear_cose_parameters { cose_algorithm_id = negsuc 6; kid = bytes (1 ∷ 2 ∷ []) })

take_alg_wraps_example :
    take_alg true (numbered (pos 1) (negsuc (6 + 1 * 2 ^ 32))) clear_cose_parameters
    ≡ ok (record clear_cose_parameters { cose_algorithm_id = negsuc 6 })
take_alg_wraps_example =
    take_alg_wraps 6 1 (numbered (pos 1) (negsuc (6 + 1 * 2 ^ 32))) clear_cose_parameters
      (omega arith) refl refl

-- A map with ES256 and the unknown labels 33 and "a".
abbrev header_script : Script
header_script = record {
  asked = λ step. header_items;
  unasked = λ step. numbered (pos 33) (pos 1) ∷ named (bytes (97 ∷ [])) ∷ [];
  next = λ step. (label_not_found, absent);
  strings = λ step. null_buf;
  tags = [];
}

parse_cose_header_parameters-Safe_example :
    Safe
      (IsParsed
        (played header_script)
        plain_useful_buf
        (played-CallsBack header_script)
        ((played header_script).init null_buf)
        clear_cose_parameters
        (some some_labels)
        clear_label_list)
      (parse_cose_header_parameters
        (played header_script)
        plain_useful_buf
        ((played header_script).init null_buf)
        clear_cose_parameters
        (some some_labels)
        clear_label_list)
parse_cose_header_parameters-Safe_example =
    parse_cose_header_parameters-Safe (played header_script) plain_useful_buf
      (played-CallsBack header_script) ((played header_script).init null_buf) clear_cose_parameters
      (some some_labels) clear_label_list
      (IsLabelList-IsTerminated plain_useful_buf some_labels some_labels-IsLabelList)
      (clear-IsLabelList plain_useful_buf)
