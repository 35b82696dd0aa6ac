-- ===== src/Labels/Critical.antt =====
-- check_critical_labels() finds exactly the labels that are both critical and unknown.
use t_cose.Common.{
  ℕ, zero, suc, ◌≡◌, refl, ◌↔◌, ◌⊎◌, inl, inr, ℤ, pos, eq_ℤ, eq_ℤ_iff, Bool, true, false, ◌||◌,
  List, [], ◌∷◌, if◌then◌else◌, arith, Bool-cases, Result, ok, err, unknown_critical_parameter, Buf,
  UsefulBuf,
}
use t_cose.Labels.{
  LabelList, is_terminator, find_label, find_common, check_critical_labels, parameter_list_max,
  same_buf,
}
use t_cose.Labels.Arrays.{until, StopsAt}
use t_cose.Labels.Views.{IsTerminated, labels_of}

abbrev pub InList : {A : Type 0} → A → List A → Type 0
InList a [] = ⊥
InList a (x ∷ xs) = (a ≡ x) ⊎ InList a xs

module _ {A : Type 0} (stop : A → Bool) (same : A → A → Bool) where
  contains : A → List A → Bool
  contains label [] = false
  contains label (c ∷ critical) = same c label || contains label critical

  shares : List A → List A → Bool
  shares critical [] = false
  shares critical (u ∷ unknown) = contains u critical || shares critical unknown

  find_label-contains :
      (label : A) (xs : List A) (k : ℕ)
      → StopsAt stop k xs
      → find_label stop same label xs ≡ ok (contains label (until stop xs))
  unfolding find_label contains until
  find_label-contains label [] k (z, e, s) = ground arith
  find_label-contains label (x ∷ xs) zero (z, e, s) = ground arith
  find_label-contains label (x ∷ xs) (suc k) (z, e, s) =
      ground (arith, find_label-contains label xs k (z, e, s))

  find_common-shares :
      (xs ys : List A) (j k : ℕ)
      → StopsAt stop j xs
      → StopsAt stop k ys
      → find_common stop same xs ys ≡ ok (shares (until stop xs) (until stop ys))
  unfolding find_common shares until
  find_common-shares xs [] j k f (z, e, s) = ground arith
  find_common-shares xs (y ∷ ys) j zero f (z, e, s) = ground arith
  find_common-shares xs (y ∷ ys) j (suc k) f (z, e, s) =
      rw (find_label-contains y xs j f) (ground (arith, find_common-shares xs ys j k f (z, e, s)))

  contains-false :
      (label : A) (xs : List A)
      → (contains label xs ≡ false) ↔ ((a : A) → InList a xs → same a label ≡ false)
  unfolding contains
  contains-false label [] = (λ h a m. absurd m, λ h. refl)
  contains-false label (x ∷ xs) = (
    λ h a m. elim m [
      | inl e ↦ ground arith
      | inr later ↦ (contains-false label xs).0 (ground arith) a later
    ],
    λ h. ground (arith, h x (inl refl), (contains-false label xs).1 (λ a m. h a (inr m))),
  )

  shares-false :
      (xs ys : List A)
      → (shares xs ys ≡ false) ↔ ((a b : A) → InList a xs → InList b ys → same a b ≡ false)
  unfolding shares
  shares-false xs [] = (λ h a b m n. absurd n, λ h. refl)
  shares-false xs (y ∷ ys) = (
    λ h a b m n. elim n [
      | inl e ↦ rw e ((contains-false y xs).0 (ground arith) a m)
      | inr later ↦ (shares-false xs ys).0 (ground arith) a b m later
    ],
    λ h. ground (
      arith,
      (contains-false y xs).1 (λ a m. h a y m (inl refl)),
      (shares-false xs ys).1 (λ a b m n. h a b m (inr n)),
    ),
  )

-- Either test fails the check.
abbrev verdict : Bool → Bool → Result (Unit {0})
verdict a b = if a || b then err unknown_critical_parameter else ok tt

verdict-ok : (a b : Bool) → verdict a b ≡ ok tt → (a ≡ false) × (b ≡ false)
verdict-ok a b h = ground arith

verdict-cases :
    (a b : Bool) → (verdict a b ≡ ok tt) ⊎ (verdict a b ≡ err unknown_critical_parameter)
verdict-cases true b = inr refl
verdict-cases false true = inr refl
verdict-cases false false = inl refl

eq_ℤ-false : (a b : ℤ) → eq_ℤ a b ≡ false → a ≡ b → ⊥
eq_ℤ-false a b h e = ground (arith, eq_ℤ_iff a b)

false-eq_ℤ : (a b : ℤ) → (a ≡ b → ⊥) → eq_ℤ a b ≡ false
false-eq_ℤ a b h = elim (Bool-cases (eq_ℤ a b)) [
  | inl same ↦ absurd (h ((eq_ℤ_iff a b).0 same))
  | inr differ ↦ differ
]

module _ (u : UsefulBuf) where
  ints_shared : LabelList → LabelList → Bool
  ints_shared critical unknown =
      shares is_terminator eq_ℤ (labels_of u critical).ints (labels_of u unknown).ints

  tstrs_shared : LabelList → LabelList → Bool
  tstrs_shared critical unknown =
      shares u.is_null (same_buf u) (labels_of u critical).tstrs (labels_of u unknown).tstrs

  check_critical_labels-verdict :
      (critical unknown : LabelList)
      → IsTerminated u critical
      → IsTerminated u unknown
      → check_critical_labels u critical unknown
        ≡ verdict (ints_shared critical unknown) (tstrs_shared critical unknown)
  unfolding check_critical_labels ints_shared tstrs_shared
  check_critical_labels-verdict critical unknown wc wu =
      simp
        (
          find_common-shares is_terminator eq_ℤ _ _ parameter_list_max parameter_list_max
              wc.ints_last wu.ints_last,
          find_common-shares u.is_null (same_buf u) _ _ parameter_list_max parameter_list_max
              wc.tstrs_last wu.tstrs_last,
        )
        (ground arith)

  -- For label lists that end with terminators the check never leaves an array. It succeeds exactly when no
  -- integer label and no text label is both critical and unknown, where the labels of an array are
  -- those before its first terminator, and when it does not succeed its error is
  -- T_COSE_ERR_UNKNOWN_CRITICAL_PARAMETER.
  pub check_critical_labels_iff :
      (critical unknown : LabelList)
      → IsTerminated u critical
      → IsTerminated u unknown
      → ((check_critical_labels u critical unknown ≡ ok tt) ↔ (
          ((a : ℤ) → InList a (labels_of u critical).ints → InList a (labels_of u unknown).ints → ⊥)
          × ((a b : Buf)
              → InList a (labels_of u critical).tstrs
              → InList b (labels_of u unknown).tstrs
              → u.compare a b ≡ pos 0
              → ⊥)))
        × ((check_critical_labels u critical unknown ≡ ok tt)
            ⊎ (check_critical_labels u critical unknown ≡ err unknown_critical_parameter))
  unfolding ints_shared tstrs_shared
  check_critical_labels_iff critical unknown wc wu =
      rw (check_critical_labels-verdict critical unknown wc wu) (
        (
          λ h. (
            λ a m n.
                eq_ℤ-false a a
                  ((shares-false is_terminator eq_ℤ _ _).0 (verdict-ok _ _ h).0 a a m n) refl,
            λ a b m n.
                eq_ℤ-false (u.compare a b) (pos 0)
                  ((shares-false u.is_null (same_buf u) _ _).0 (verdict-ok _ _ h).1 a b m n),
          ),
          λ h.
              rw
                (
                  (shares-false is_terminator eq_ℤ _ _).1
                      (λ a b m n. false-eq_ℤ a b (λ e. h.0 a m (rw e n))),
                  (shares-false u.is_null (same_buf u) _ _).1
                      (λ a b m n. false-eq_ℤ (u.compare a b) (pos 0) (h.1 a b m n)),
                )
                refl,
        ),
        verdict-cases (ints_shared critical unknown) (tstrs_shared critical unknown),
      )
