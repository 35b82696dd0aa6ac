-- ===== src/Labels.antt =====
-- `struct t_cose_label_list` of src/t_cose_parameters.h, and the functions of
-- src/t_cose_parameters.c that fill it and compare two of them.
pub mod Arrays
pub mod Views
pub mod Critical
use t_cose.Common.{
  ℕ, suc, ◌==◌, ℤ, pos, eq_ℤ, Bool, true, false, ◌&&◌, List, [], ◌∷◌, if◌then◌else◌, get_or, set,
  replicate, Result, ok, err, fault, ◌>>=◌, ◌>>◌, fail_if, too_many_parameters, parameter_cbor,
  unknown_critical_parameter, Buf, null_buf, UsefulBuf,
}
use t_cose.Qcbor.{Item, same_type, type_int64, type_text_string}

-- T_COSE_PARAMETER_LIST_MAX
abbrev pub parameter_list_max : ℕ
parameter_list_max = 10

-- Two arrays of parameter_list_max + 1 entries.
pub record LabelList : Type 0 where
  pub int_labels : List ℤ
  pub tstr_labels : List Buf

-- memset to 0
abbrev pub clear_label_list : LabelList
clear_label_list = record { int_labels = replicate 11 (pos 0); tstr_labels = replicate 11 null_buf }

-- An integer label that is LABEL_LIST_TERMINATOR ends the array.
abbrev pub is_terminator : ℤ → Bool
is_terminator x = eq_ℤ x (pos 0)

module _ {ℓ} {A : Type ℓ} (stop : A → Bool) where
  -- `for(n = 0; !stop(array[n]); n++);`
  unfoldable pub find_end : List A → Result ℕ
  find_end [] = fault
  find_end (x ∷ xs) = let rest = find_end xs in if stop x then ok 0 else rest >>= λ n. ok (suc n)

  -- Either half of add_label_to_list().
  unfoldable pub append_label : A → List A → Result (List A)
  append_label label array = do
    n ← find_end array
    fail_if (n == parameter_list_max) too_many_parameters
    ok (set array n label)

  module _ (same : A → A → Bool) where
    -- The inner loop of check_critical_labels(): whether an entry is `label`.
    unfoldable pub find_label : A → List A → Result Bool
    find_label label [] = fault
    find_label label (c ∷ critical) =
        let rest = find_label label critical in
        if stop c then ok false else if same c label then ok true else rest

    -- The outer loop: whether an entry of `unknown` is in `critical`.
    unfoldable pub find_common : List A → List A → Result Bool
    find_common critical [] = fault
    find_common critical (u ∷ unknown) =
        let rest = find_common critical unknown in
        if stop u
        then ok false
        else find_label u critical >>= λ found. if found then ok true else rest

module _ (u : UsefulBuf) where
  unfoldable pub add_label_to_list : Item → LabelList → Result LabelList
  add_label_to_list item list =
      if same_type item.label_type type_int64
      then (do
        a ← append_label is_terminator item.label_int64 list.int_labels
        ok (record list { int_labels = a }))
      else if same_type item.label_type type_text_string
      then (do
        a ← append_label u.is_null item.label_string list.tstr_labels
        ok (record list { tstr_labels = a }))
      else err parameter_cbor

  unfoldable pub is_label_list_clear : LabelList → Bool
  is_label_list_clear list =
      eq_ℤ (get_or list.int_labels 0 (pos 0)) (pos 0)
      && u.null_or_empty (get_or list.tstr_labels 0 null_buf)

  -- `!q_useful_buf_compare(a, b)`
  abbrev pub same_buf : Buf → Buf → Bool
  same_buf a b = eq_ℤ (u.compare a b) (pos 0)

  unfoldable pub check_critical_labels : LabelList → LabelList → Result (Unit {0})
  check_critical_labels critical unknown = do
    found ← find_common is_terminator eq_ℤ critical.int_labels unknown.int_labels
    fail_if found unknown_critical_parameter
    found_tstr ← find_common u.is_null same_buf critical.tstr_labels unknown.tstr_labels
    fail_if found_tstr unknown_critical_parameter
