-- ===== src/Verify/Tags/Ends.antt =====
-- The loop of process_tags() ends by itself.
use t_cose.Common.{
  ℕ, zero, suc, ◌+◌, ◌≤◌, ◌<◌, ltb, ◌≡◌, refl, ◌∙◌, inl, inr, Bool-cases, List, set, length,
  length-set, arith,
}
use t_cose.Qcbor.Decoder.{Decoder}
use t_cose.Verify.Context.{max_tags_to_return}
use t_cose.Verify.Tags.{collect_tags}

module _ (d : Decoder) where
  -- Whatever QCBOR answers, the loop of process_tags() that is at any index of the array of four tags or
  -- behind it ends within five minus that index rounds, and at least one: more fuel changes nothing.
  pub collect_tags_ends :
      (fuel more : ℕ) (ctx : d.Ctx) (item_tag_index returned_tag_index : ℕ) (tags : List ℕ)
      → length tags ≡ max_tags_to_return
      → 0 < fuel
      → max_tags_to_return < fuel + returned_tag_index
      → fuel ≤ more
      → collect_tags d more ctx item_tag_index returned_tag_index tags
        ≡ collect_tags d fuel ctx item_tag_index returned_tag_index tags
  unfolding collect_tags
  collect_tags_ends zero more ctx i r tags sized some enough le = absurd (omega arith)
  collect_tags_ends (suc fuel) zero ctx i r tags sized some enough le = absurd (omega arith)
  collect_tags_ends (suc fuel) (suc more) ctx i r tags sized some enough le =
      elim (Bool-cases (ltb r max_tags_to_return)) [
        | inl inside ↦
            let tags' = set tags r (d.get_nth_tag_of_last ctx i) in
            rw
              (collect_tags_ends fuel more ctx (i + 1) (r + 1) tags'
                (length-set tags r (d.get_nth_tag_of_last ctx i) ∙ sized) (ground arith)
                (omega arith) (omega arith))
              refl
        | inr outside ↦ ground (arith, sized)
      ]
