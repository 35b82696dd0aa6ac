-- ===== src/Verify/Tags.antt =====
-- process_tags(): the tags of the message against the options, and the tags that are returned.
pub mod Loop
pub mod Ends
pub mod Laws
use t_cose.Common.{
  ℕ, zero, suc, ◌+◌, ◌==◌, ltb, not, ◌&&◌, List, replicate, set, length, if◌then◌else◌, Result, ok,
  err, fault, incorrectly_tagged, too_many_tags,
}
use t_cose.Qcbor.{cbor_tag_cose_sign1, cbor_tag_invalid64}
use t_cose.Qcbor.Decoder.{Decoder}
use t_cose.Verify.Context.{
  VerifyCtx, has_flag, opt_tag_required, opt_tag_prohibited, max_tags_to_return,
}

-- memset of the array to 0xff
abbrev pub no_tags : List ℕ
no_tags = replicate max_tags_to_return cbor_tag_invalid64

-- The array and the index before the loop.
unfoldable pub start_tags : ℕ → List ℕ × ℕ
start_tags tag = if tag == cbor_tag_cose_sign1 then (no_tags, 0) else (set no_tags 0 tag, 1)

module _ (d : Decoder) where
  -- The loop over the tags from item_tag_index on. It ends by itself within six rounds: the index
  -- of the array grows in each.
  unfoldable pub collect_tags : ℕ → d.Ctx → ℕ → ℕ → List ℕ → List ℕ × Result (Unit {0})
  collect_tags zero ctx item_tag_index returned_tag_index au_tags = (au_tags, fault)
  collect_tags (suc fuel) ctx item_tag_index returned_tag_index au_tags =
      let tag = d.get_nth_tag_of_last ctx item_tag_index in
      let rest =
        collect_tags fuel ctx (item_tag_index + 1) (returned_tag_index + 1)
          (set au_tags returned_tag_index tag) in
      if tag == cbor_tag_invalid64
      then (au_tags, ok tt)
      else if ltb max_tags_to_return returned_tag_index
      then (au_tags, err too_many_tags)
      else if ltb returned_tag_index (length au_tags)
      then rest
      else (au_tags, fault)

  unfoldable pub process_tags : VerifyCtx → d.Ctx → VerifyCtx × Result (Unit {0})
  process_tags me ctx =
      let tag = d.get_nth_tag_of_last ctx 0 in
      let (tags, index) = start_tags tag in
      let (au_tags, result) = collect_tags 6 ctx 1 index tags in
      if has_flag me.option_flags opt_tag_required && not (tag == cbor_tag_cose_sign1)
      then (me, err incorrectly_tagged)
      else if has_flag me.option_flags opt_tag_prohibited && tag == cbor_tag_cose_sign1
      then (me, err incorrectly_tagged)
      else (record me { au_tags = au_tags }, result)
