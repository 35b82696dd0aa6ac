-- ===== src/Labels/Views.antt =====
-- What add_label_to_list() does to the labels that stand before the terminators.
use t_cose.Common.{
  suc, ◌==◌, ◌≡◌, refl, ap, subst, ok-injective, ◌≢◌, ◌<◌, ℤ, Bool, List, [], ◌∷◌, ◌++◌,
  if◌then◌else◌, arith, length, Bool-cases, inl, inr, Result, ok, err, fault, ◌>>=◌, >>=-ok_elim,
  too_many_parameters, parameter_cbor, Buf, null_buf, UsefulBuf, pos, Safe, Safe-of_eq, sym, ◌∙◌,
}
use t_cose.Qcbor.{Item, same_type, type_int64, type_text_string}
use t_cose.Labels.{
  LabelList, clear_label_list, is_terminator, append_label, add_label_to_list, parameter_list_max,
}
use t_cose.Labels.Arrays.{
  StopsAt, until, until-set, IsLabelArray, append_label_lem, set-IsLabelArray, length-until-le,
}

-- What a label list stands for: the labels before the terminators.
pub record Labels : Type 0 where
  pub ints : List ℤ
  pub tstrs : List Buf

-- A label behind the others, if there is room for it. A terminator is not recorded.
unfoldable pub append_to {ℓ} : {A : Type ℓ} → (A → Bool) → A → List A → Result (List A)
append_to stop label labels =
    if length labels == parameter_list_max
    then err too_many_parameters
    else ok (labels ++ (if stop label then [] else label ∷ []))

abbrev pub map_result {ℓ κ} : {A : Type ℓ} {B : Type κ} → (A → B) → Result A → Result B
map_result f (ok a) = ok (f a)
map_result f (err e) = err e
map_result f fault = fault

room_for {ℓ} :
    {A : Type ℓ} (stop : A → Bool) (xs : List A)
    → IsLabelArray stop xs
    → length (until stop xs) ≢ parameter_list_max
    → length (until stop xs) < length xs
room_for stop xs w ne = omega (arith, w.sized, length-until-le stop xs w)

-- The array after append_label() stands for the list after append_to(), and stays well formed.
append_label-append_to {ℓ} :
    {A : Type ℓ} (stop : A → Bool) (v : A) (xs : List A)
    → IsLabelArray stop xs
    → map_result (until stop) (append_label stop v xs) ≡ append_to stop v (until stop xs)
unfolding append_to
append_label-append_to stop v xs w =
    rw (append_label_lem stop v xs w)
      (elim (Bool-cases (length (until stop xs) == parameter_list_max)) [
        | inl full ↦ rw full
        | inr room ↦
            rw room (ap ok (until-set stop xs v w.padded (room_for stop xs w (ground arith))).0)
      ])

append_label-IsLabelArray {ℓ} :
    {A : Type ℓ} (stop : A → Bool) (v : A) (xs ys : List A)
    → IsLabelArray stop xs
    → append_label stop v xs ≡ ok ys
    → IsLabelArray stop ys
append_label-IsLabelArray stop v xs ys w h =
    elim (Bool-cases (length (until stop xs) == parameter_list_max)) [
      | inl full ↦ absurd (ground (arith, append_label_lem stop v xs w))
      | inr room ↦
          subst (IsLabelArray stop)
            (ok-injective _ _ (cc (rw room at (append_label_lem stop v xs w))))
            (set-IsLabelArray stop v xs w (ground arith))
    ]

module _ (u : UsefulBuf) where
  pub record IsLabelList (list : LabelList) : Type 0 where
    pub int_array : IsLabelArray is_terminator list.int_labels
    pub tstr_array : IsLabelArray u.is_null list.tstr_labels

  -- Both arrays have parameter_list_max + 1 entries, the last of them a terminator. Entries between
  -- may be terminators too.
  pub record IsTerminated (list : LabelList) : Type 0 where
    pub ints_sized : length list.int_labels ≡ suc parameter_list_max
    pub ints_last : StopsAt is_terminator parameter_list_max list.int_labels
    pub tstrs_sized : length list.tstr_labels ≡ suc parameter_list_max
    pub tstrs_last : StopsAt u.is_null parameter_list_max list.tstr_labels

  pub IsLabelList-IsTerminated : (list : LabelList) → IsLabelList list → IsTerminated list
  IsLabelList-IsTerminated list w = record {
    ints_sized = w.int_array.sized;
    ints_last = w.int_array.last;
    tstrs_sized = w.tstr_array.sized;
    tstrs_last = w.tstr_array.last;
  }

  abbrev pub labels_of : LabelList → Labels
  labels_of list = record {
    ints = until is_terminator list.int_labels;
    tstrs = until u.is_null list.tstr_labels;
  }

  -- The effect on the recorded labels: by the type of the label, a label more in one of the two lists
  -- unless it is a terminator.
  unfoldable pub add_label : Item → Labels → Result Labels
  add_label item labels =
      if same_type item.label_type type_int64
      then map_result (λ xs. record labels { ints = xs })
          (append_to is_terminator item.label_int64 labels.ints)
      else if same_type item.label_type type_text_string
      then map_result (λ xs. record labels { tstrs = xs })
          (append_to u.is_null item.label_string labels.tstrs)
      else err parameter_cbor

  pub clear-IsLabelList : IsLabelList clear_label_list
  clear-IsLabelList = record {
    int_array = record { sized = refl; last = (pos 0, refl, refl); padded = ground arith };
    tstr_array = record {
      sized = refl;
      last = (null_buf, refl, u.is_null_lem null_buf);
      padded = rw u.is_null_lem (
          inr (
            refl,
            (refl, (refl, (refl, (refl, (refl, (refl, (refl, (refl, (refl, (refl, tt)))))))))),
          ));
    };
  }

  ints-map_result :
      (list : LabelList) (r s : Result (List ℤ))
      → map_result (until is_terminator) r ≡ s
      → map_result labels_of (r >>= λ a. ok (record list { int_labels = a }))
        ≡ map_result (λ xs. record { ints = xs; tstrs = until u.is_null list.tstr_labels }) s
  ints-map_result list (ok a) s h = ap (map_result _) h
  ints-map_result list (err e) s h = ap (map_result _) h
  ints-map_result list fault s h = ap (map_result _) h

  tstrs-map_result :
      (list : LabelList) (r s : Result (List Buf))
      → map_result (until u.is_null) r ≡ s
      → map_result labels_of (r >>= λ a. ok (record list { tstr_labels = a }))
        ≡ map_result (λ xs. record { ints = until is_terminator list.int_labels; tstrs = xs }) s
  tstrs-map_result list (ok a) s h = ap (map_result _) h
  tstrs-map_result list (err e) s h = ap (map_result _) h
  tstrs-map_result list fault s h = ap (map_result _) h

  ints-IsLabelList :
      (list after : LabelList) (label : ℤ)
      → IsLabelList list
      → (append_label is_terminator label list.int_labels >>= λ a.
          ok (record list { int_labels = a }))
        ≡ ok after
      → IsLabelList after
  ints-IsLabelList list after label w h =
      >>=-ok_elim (append_label is_terminator label list.int_labels) _ h λ a appended made.
        subst IsLabelList (ok-injective _ _ made) (record {
          int_array =
              append_label-IsLabelArray is_terminator label list.int_labels a w.int_array appended;
          tstr_array = w.tstr_array;
        })

  tstrs-IsLabelList :
      (list after : LabelList) (label : Buf)
      → IsLabelList list
      → (append_label u.is_null label list.tstr_labels >>= λ a.
          ok (record list { tstr_labels = a }))
        ≡ ok after
      → IsLabelList after
  tstrs-IsLabelList list after label w h =
      >>=-ok_elim (append_label u.is_null label list.tstr_labels) _ h λ a appended made.
        subst IsLabelList (ok-injective _ _ made) (record {
          int_array = w.int_array;
          tstr_array =
              append_label-IsLabelArray u.is_null label list.tstr_labels a w.tstr_array appended;
        })

  pub add_label_to_list-views :
      (item : Item) (list : LabelList)
      → IsLabelList list
      → (map_result labels_of (add_label_to_list u item list) ≡ add_label item (labels_of list))
        × ((after : LabelList) → add_label_to_list u item list ≡ ok after → IsLabelList after)
  unfolding add_label_to_list add_label
  add_label_to_list-views item list w = elim (Bool-cases (same_type item.label_type type_int64)) [
    | inl int ↦ rw int (
      ints-map_result list _ _
          (append_label-append_to is_terminator item.label_int64 list.int_labels w.int_array),
      λ after h. ints-IsLabelList list after item.label_int64 w h,
    )
    | inr other ↦ elim (Bool-cases (same_type item.label_type type_text_string)) [
      | inl text ↦
          rw (other, text)
            (
              tstrs-map_result list _ _ (
                  append_label-append_to u.is_null item.label_string list.tstr_labels w.tstr_array),
              λ after h. tstrs-IsLabelList list after item.label_string w h,
            )
      | inr neither ↦ rw (other, neither) (refl, λ after h. cc)
    ]
  ]

  pub add_label-ne-fault : (item : Item) (labels : Labels) → add_label item labels ≡ fault → ⊥
  unfolding add_label append_to
  add_label-ne-fault item labels h = ground arith

  map_result-ne-fault :
      (r : Result LabelList) → (map_result labels_of r ≡ fault → ⊥) → r ≡ fault → ⊥
  map_result-ne-fault (ok a) h e = cc
  map_result-ne-fault (err x) h e = cc
  map_result-ne-fault fault h e = h refl

  -- With well-formed arrays, add_label_to_list() refuses a label when there are ten of its kind already
  -- or when it is of neither kind. Otherwise it succeeds: it records the label behind the others of
  -- its kind, except for the integer 0 and a text with a null pointer, with which it succeeds and
  -- leaves the recorded labels as they are. It leaves no array and keeps both arrays well formed.
  pub add_label_to_list-add_label :
      (item : Item) (list : LabelList)
      → IsLabelList list
      → (map_result labels_of (add_label_to_list u item list) ≡ add_label item (labels_of list))
        × Safe IsLabelList (add_label_to_list u item list)
  add_label_to_list-add_label item list w =
      let (same, kept) = add_label_to_list-views item list w in
      (
        same,
        Safe-of_eq IsLabelList (add_label_to_list u item list)
            (map_result-ne-fault _ (λ e. add_label-ne-fault item (labels_of list) (sym same ∙ e)))
            kept,
      )
