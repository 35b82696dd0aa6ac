-- ===== src/Labels/Arrays.antt =====
-- Arrays with a terminator: the part before the first terminator, and the loops over it.
use t_cose.Common.{
  ℕ, zero, suc, ◌≤◌, ◌<◌, ◌==◌, ◌≡◌, refl, ap, ◌∙◌, ◌≢◌, ◌⊎◌, inl, inr, Bool, true, false, List, [],
  ◌∷◌, ◌++◌, some, if◌then◌else◌, arith, length, get_elem?, set, Bool-cases, ok, err,
  too_many_parameters, length-set, get_elem?-set_ne,
}
use t_cose.Labels.{find_end, append_label, parameter_list_max}

module _ {ℓ} {A : Type ℓ} (stop : A → Bool) where
  -- The entries before the first terminator.
  unfoldable pub until : List A → List A
  until [] = []
  until (x ∷ xs) = let rest = until xs in if stop x then [] else x ∷ rest

  -- Entry k is a terminator.
  abbrev pub StopsAt : ℕ → List A → Type ℓ
  StopsAt k xs = (z : A) × (get_elem? xs k ≡ some z) × (stop z ≡ true)

  abbrev pub AllStop : List A → Type 0
  AllStop [] = Unit
  AllStop (x ∷ xs) = (stop x ≡ true) × AllStop xs

  -- From the first terminator on there are only terminators.
  abbrev pub IsPadded : List A → Type 0
  IsPadded [] = Unit
  IsPadded (x ∷ xs) = ((stop x ≡ false) × IsPadded xs) ⊎ ((stop x ≡ true) × AllStop xs)

  pub find_end-until :
      (xs : List A) (k : ℕ)
      → StopsAt k xs
      → (find_end stop xs ≡ ok (length (until xs))) × (length (until xs) ≤ k)
  unfolding find_end until
  find_end-until [] k (z, e, s) = ground arith
  find_end-until (x ∷ xs) zero (z, e, s) = ground arith
  find_end-until (x ∷ xs) (suc k) (z, e, s) = ground (arith, find_end-until xs k (z, e, s))

  AllStop-until : (xs : List A) → AllStop xs → until xs ≡ []
  unfolding until
  AllStop-until [] h = refl
  AllStop-until (x ∷ xs) h = ground arith

  AllStop-IsPadded : (xs : List A) → AllStop xs → IsPadded xs
  AllStop-IsPadded [] h = h
  AllStop-IsPadded (x ∷ xs) h = inr h

  -- A label goes behind the labels, and a terminator changes nothing that counts.
  pub until-set :
      (xs : List A) (v : A)
      → IsPadded xs
      → length (until xs) < length xs
      → (until (set xs (length (until xs)) v) ≡ until xs ++ (if stop v then [] else v ∷ []))
        × IsPadded (set xs (length (until xs)) v)
  unfolding until
  until-set [] v p h = absurd (omega arith)
  until-set (x ∷ xs) v (inr (s, all)) h = elim (Bool-cases (stop v)) [
    | inl t ↦ rw (s, t) (refl, inr (refl, all))
    | inr t ↦
        rw (s, t)
          (ap (λ (r : List A). v ∷ r) (AllStop-until xs all), inl (refl, AllStop-IsPadded xs all))
  ]
  until-set (x ∷ xs) v (inl (s, p)) h =
      let ih = until-set xs v p (ground arith) in
      rw (s, s) (ap (λ (r : List A). x ∷ r) ih.0, inl (refl, ih.1))

  -- An array of parameter_list_max + 1 entries, the last of them a terminator.
  pub record IsLabelArray (xs : List A) : Type ℓ where
    pub sized : length xs ≡ suc parameter_list_max
    pub last : StopsAt parameter_list_max xs
    pub padded : IsPadded xs

  pub length-until-le : (xs : List A) → IsLabelArray xs → length (until xs) ≤ parameter_list_max
  length-until-le xs w = (find_end-until xs parameter_list_max w.last).1

  pub append_label_lem :
      (v : A) (xs : List A)
      → IsLabelArray xs
      → append_label stop v xs ≡ (
          if length (until xs) == parameter_list_max
          then err too_many_parameters
          else ok (set xs (length (until xs)) v))
  unfolding append_label
  append_label_lem v xs w = rw ((find_end-until xs parameter_list_max w.last).0) (ground arith)

  pub set-IsLabelArray :
      (v : A) (xs : List A)
      → IsLabelArray xs
      → length (until xs) ≢ parameter_list_max
      → IsLabelArray (set xs (length (until xs)) v)
  set-IsLabelArray v xs w ne = record {
    sized = length-set xs _ v ∙ w.sized;
    last = (w.last.0, get_elem?-set_ne xs v ne ∙ w.last.1, w.last.2);
    padded = (until-set xs v w.padded (omega (arith, w.sized, length-until-le xs w))).1;
  }
