-- ===== src/Verify/Tags/Loop.antt =====
-- The loop of process_tags(): it fills the array.
use t_cose.Common.{
  ℕ, zero, suc, ◌+◌, ◌-◌, ◌≤◌, ◌<◌, ◌≡◌, ◌≢◌, refl, ap, subst, ◌∙◌, List, [], ◌∷◌, ◌++◌,
  append_assoc, append-nil, replicate, set, length, length-append, length-replicate, get_or, arith,
  ok,
}
use t_cose.Qcbor.{cbor_tag_invalid64}
use t_cose.Qcbor.Decoder.{Decoder}
use t_cose.Verify.Context.{max_tags_to_return}
use t_cose.Verify.Tags.{collect_tags}

abbrev pub AreValid : List ℕ → Type 0
AreValid [] = Unit
AreValid (t ∷ ts) = (t ≢ cbor_tag_invalid64) × AreValid ts

-- The tags from the i-th on, innermost first; behind them QCBOR answers with the invalid tag.
abbrev HasTagsFrom : (d : Decoder) → d.Ctx → ℕ → List ℕ → Type 0
HasTagsFrom d ctx i ts =
    (k : ℕ) → d.get_nth_tag_of_last ctx (i + k) ≡ get_or ts k cbor_tag_invalid64

-- A list of tags filled up to the size of the array.
unfoldable pub padded : List ℕ → List ℕ
padded ts = ts ++ replicate (max_tags_to_return - length ts) cbor_tag_invalid64

set-append :
    (pre : List ℕ) (x v : ℕ) (xs : List ℕ)
    → set (pre ++ (x ∷ xs)) (length pre) v ≡ (pre ++ (v ∷ [])) ++ xs
set-append [] x v xs = refl
set-append (p ∷ pre) x v xs = ap (p ∷◌) (set-append pre x v xs)

-- A tag more.
set-padded :
    (pre : List ℕ) (v : ℕ)
    → length pre < max_tags_to_return
    → set (padded pre) (length pre) v ≡ padded (pre ++ (v ∷ []))
unfolding padded
set-padded pre v h =
    let sized : suc (3 - length pre) ≡ 4 - length pre = omega arith in
    subst
      (λ n. set (pre ++ replicate n cbor_tag_invalid64) (length pre) v ≡ padded (pre ++ (v ∷ [])))
      sized
      (set-append pre cbor_tag_invalid64 v (replicate (3 - length pre) cbor_tag_invalid64)
        ∙ ap (λ n. (pre ++ (v ∷ [])) ++ replicate n cbor_tag_invalid64)
            (omega (arith, length-append pre (v ∷ []))))

pub length-padded :
    (pre : List ℕ) → length pre ≤ max_tags_to_return → length (padded pre) ≡ max_tags_to_return
unfolding padded
length-padded pre h = omega (
  arith,
  length-append pre (replicate (max_tags_to_return - length pre) cbor_tag_invalid64),
  length-replicate (max_tags_to_return - length pre) cbor_tag_invalid64,
)

module _ (d : Decoder) (ctx : d.Ctx) where
  next-HasTagsFrom :
      (i t : ℕ) (ts : List ℕ) → HasTagsFrom d ctx i (t ∷ ts) → HasTagsFrom d ctx (i + 1) ts
  next-HasTagsFrom i t ts h k =
      let same : i + suc k ≡ i + 1 + k = omega arith in
      subst (λ n. d.get_nth_tag_of_last ctx n ≡ get_or ts k cbor_tag_invalid64) same (h (suc k))

  first-HasTagsFrom :
      (i : ℕ) (ts : List ℕ)
      → HasTagsFrom d ctx i ts
      → d.get_nth_tag_of_last ctx i ≡ get_or ts 0 cbor_tag_invalid64
  first-HasTagsFrom i ts h =
      let same : i + 0 ≡ i = omega arith in
      subst (λ n. d.get_nth_tag_of_last ctx n ≡ get_or ts 0 cbor_tag_invalid64) same (h 0)

  pub collect_tags_end :
      (fuel i r : ℕ) (a : List ℕ)
      → d.get_nth_tag_of_last ctx i ≡ cbor_tag_invalid64
      → collect_tags d (suc fuel) ctx i r a ≡ (a, ok tt)
  unfolding collect_tags
  collect_tags_end fuel i r a h = ground arith

  collect_tags_step :
      (fuel i r : ℕ) (a : List ℕ)
      → d.get_nth_tag_of_last ctx i ≢ cbor_tag_invalid64
      → length a ≤ max_tags_to_return
      → r < length a
      → collect_tags d (suc fuel) ctx i r a
        ≡ collect_tags d fuel ctx (i + 1) (r + 1) (set a r (d.get_nth_tag_of_last ctx i))
  unfolding collect_tags
  collect_tags_step fuel i r a h l m = ground arith

  -- A round for the next tag t, where there is room for it.
  collect_tags_next :
      (t : ℕ) (ts : List ℕ) (fuel i : ℕ) (pre : List ℕ)
      → HasTagsFrom d ctx i (t ∷ ts)
      → AreValid (t ∷ ts)
      → length pre < max_tags_to_return
      → collect_tags d (suc fuel) ctx i (length pre) (padded pre)
        ≡ collect_tags d fuel ctx (i + 1) (length (pre ++ (t ∷ []))) (padded (pre ++ (t ∷ [])))
  collect_tags_next t ts fuel i pre h v l =
      let e = first-HasTagsFrom i (t ∷ ts) h in
      let m = length-padded pre (omega arith) in
      collect_tags_step fuel i (length pre) (padded pre) (λ x. v.0 (cc)) (omega arith) (omega arith)
      ∙ rw (e, set-padded pre t l, length-append pre (t ∷ [])) refl

  pub collect_tags-padded :
      (ts : List ℕ) (fuel i : ℕ) (pre : List ℕ)
      → HasTagsFrom d ctx i ts
      → AreValid ts
      → length ts < fuel
      → length pre + length ts ≤ max_tags_to_return
      → collect_tags d fuel ctx i (length pre) (padded pre) ≡ (padded (pre ++ ts), ok tt)
  collect_tags-padded ts zero i pre h v f l = absurd (omega arith)
  collect_tags-padded [] (suc fuel) i pre h v f l =
      rw (append-nil pre)
        (collect_tags_end fuel i (length pre) (padded pre) (first-HasTagsFrom i [] h))
  collect_tags-padded (t ∷ ts) (suc fuel) i pre h v f l =
      collect_tags_next t ts fuel i pre h v (omega arith)
      ∙ collect_tags-padded ts fuel (i + 1) (pre ++ (t ∷ [])) (next-HasTagsFrom i t ts h) v.1
          (omega arith) (omega (arith, length-append pre (t ∷ [])))
      ∙ ap (λ (x : List ℕ). (padded x, ok tt)) (append_assoc pre (t ∷ []) ts)
