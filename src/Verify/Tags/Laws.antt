-- ===== src/Verify/Tags/Laws.antt =====
-- Which tags process_tags() gives back.
use t_cose.Common.{
  ℕ, zero, suc, ◌+◌, ◌-◌, ◌≤◌, ◌<◌, ◌==◌, ltb, ltb→lt, ◌≡◌, refl, subst, inl, inr, Bool, Bool-cases,
  List, [], ◌∷◌, ◌++◌, replicate, length, get_or, get_elem?, some, none, if◌then◌else◌, arith, ok,
  err, fault, incorrectly_tagged,
}
use t_cose.Qcbor.{cbor_tag_cose_sign1, cbor_tag_invalid64}
use t_cose.Qcbor.Decoder.{Decoder}
use t_cose.Verify.Context.{
  VerifyCtx, get_nth_tag, has_flag, opt_tag_required, opt_tag_prohibited, max_tags_to_return,
}
use t_cose.Verify.Tags.Loop.{AreValid, padded, length-padded, collect_tags_end, collect_tags-padded}
use t_cose.Verify.Tags.{no_tags, collect_tags, start_tags, process_tags}

-- The tags of the item that was decoded last.
pub record HasTags (d : Decoder) (ctx : d.Ctx) (ts : List ℕ) : Type 0 where
  pub nth : (k : ℕ) → d.get_nth_tag_of_last ctx k ≡ get_or ts k cbor_tag_invalid64
  pub valid : AreValid ts

-- All but a COSE_Sign1 tag in the first place.
unfoldable pub remaining : List ℕ → List ℕ
remaining [] = []
remaining (t ∷ ts) = if t == cbor_tag_cose_sign1 then ts else t ∷ ts

-- Whether the options refuse the first tag.
unfoldable pub is_refused : VerifyCtx → List ℕ → Bool
is_refused me ts =
    let first = get_or ts 0 cbor_tag_invalid64 == cbor_tag_cose_sign1 in
    if first
    then has_flag me.option_flags opt_tag_prohibited
    else has_flag me.option_flags opt_tag_required

-- The array and the result of the loop, from the tags.
module _ (d : Decoder) (ctx : d.Ctx) where
  collected-padded :
      (ts : List ℕ)
      → HasTags d ctx ts
      → length (remaining ts) ≤ max_tags_to_return
      → collect_tags d 6 ctx 1
          (start_tags (get_or ts 0 cbor_tag_invalid64)).1
          (start_tags (get_or ts 0 cbor_tag_invalid64)).0
        ≡ (padded (remaining ts), ok tt)
  unfolding start_tags remaining padded
  collected-padded [] w l = collect_tags_end d ctx 5 1 1 no_tags (w.nth 1)
  collected-padded (t ∷ ts) w l = elim (Bool-cases (t == cbor_tag_cose_sign1)) [
    | inl cose ↦ rw cose (
        collect_tags-padded d ctx ts 6 1 []
          (λ k.
            subst (λ n. d.get_nth_tag_of_last ctx n ≡ get_or ts k cbor_tag_invalid64) (omega arith)
              (w.nth (suc k)))
          w.valid.1 (ground arith) (ground arith))
    | inr other ↦ rw other (
        collect_tags-padded d ctx ts 6 1 (t ∷ [])
          (λ k.
            subst (λ n. d.get_nth_tag_of_last ctx n ≡ get_or ts k cbor_tag_invalid64) (omega arith)
              (w.nth (suc k)))
          w.valid.1 (ground arith) (ground arith))
  ]

  -- With at most four tags to return, process_tags() refuses the first tag as the options say, and
  -- otherwise returns every tag except a COSE_Sign1 tag in the first place, and invalid tags
  -- behind them.
  pub process_tags_lem :
      (me : VerifyCtx) (ts : List ℕ)
      → HasTags d ctx ts
      → length (remaining ts) ≤ max_tags_to_return
      → process_tags d me ctx ≡ (
          if is_refused me ts
          then (me, err incorrectly_tagged)
          else (record me { au_tags = padded (remaining ts) }, ok tt))
  unfolding process_tags is_refused
  process_tags_lem me ts w l = rw (w.nth 0, collected-padded ts w l) (ground arith)

get_elem?-append_replicate :
    (xs : List ℕ) (m n v : ℕ)
    → n < length xs + m
    → get_elem? (xs ++ replicate m v) n ≡ some (get_or xs n v)
get_elem?-append_replicate [] zero n v h = absurd (omega arith)
get_elem?-append_replicate [] (suc m) zero v h = refl
get_elem?-append_replicate [] (suc m) (suc n) v h =
    get_elem?-append_replicate [] m n v (omega arith)
get_elem?-append_replicate (x ∷ xs) m zero v h = refl
get_elem?-append_replicate (x ∷ xs) m (suc n) v h =
    get_elem?-append_replicate xs m n v (omega arith)

get_or-long : (xs : List ℕ) (n v : ℕ) → length xs ≤ n → get_or xs n v ≡ v
get_or-long [] n v h = refl
get_or-long (x ∷ xs) zero v h = absurd (omega arith)
get_or-long (x ∷ xs) (suc n) v h = get_or-long xs n v (omega arith)

get_elem?_outside : (xs : List ℕ) (n : ℕ) → length xs ≤ n → get_elem? xs n ≡ none
get_elem?_outside [] n h = refl
get_elem?_outside (x ∷ xs) zero h = absurd (omega arith)
get_elem?_outside (x ∷ xs) (suc n) h = get_elem?_outside xs n (omega arith)

get_nth_tag-padded :
    (me : VerifyCtx) (xs : List ℕ) (n : ℕ)
    → me.au_tags ≡ padded xs
    → length xs ≤ max_tags_to_return
    → get_nth_tag me n
      ≡ (if n == max_tags_to_return then fault else ok (get_or xs n cbor_tag_invalid64))
unfolding get_nth_tag padded
get_nth_tag-padded me xs n e l = elim (Bool-cases (ltb max_tags_to_return n)) [
  | inl behind ↦
      rw (behind, get_or-long xs n cbor_tag_invalid64 (omega (arith, ltb→lt _ _ behind)))
        (ground arith)
  | inr near ↦ elim (Bool-cases (n == max_tags_to_return)) [
    | inl end ↦
        rw (near, end, e, get_elem?_outside (padded xs) n (ground (arith, length-padded xs l))) refl
    | inr inside ↦
        rw
          (
            near,
            inside,
            e,
            get_elem?-append_replicate xs (max_tags_to_return - length xs) n cbor_tag_invalid64
                (ground arith),
          )
          refl
  ]
]

module _ (d : Decoder) (ctx : d.Ctx) where
  -- After a call of process_tags() that succeeds, with at most four tags to return,
  -- t_cose_sign1_get_nth_tag() gives the n-th of them, and the invalid tag behind the last, for
  -- every n except 4. For 4 it reads behind the array.
  pub get_nth_tag-process_tags :
      (me me' : VerifyCtx) (ts : List ℕ) (n : ℕ)
      → HasTags d ctx ts
      → length (remaining ts) ≤ max_tags_to_return
      → process_tags d me ctx ≡ (me', ok tt)
      → get_nth_tag me' n ≡ (
          if n == max_tags_to_return
          then fault
          else ok (get_or (remaining ts) n cbor_tag_invalid64))
  get_nth_tag-process_tags me me' ts n w l h =
      get_nth_tag-padded me' (remaining ts) n (ground (arith, process_tags_lem d ctx me ts w l)) l
