-- ===== src/Verify/Message/Complete.antt =====
-- A message that passes every check of t_cose_sign1_verify_internal() is accepted.
use t_cose.Common.{
  ℕ, ◌≤◌, List, ◌≡◌, refl, sym, ap, ◌∙◌, ◌⊎◌, inl, inr, ℤ, eq_ℤ, eq_ℤ_iff, Bool, true, false, ◌&&◌,
  Bool-cases, length, arith, Buf, is_null_ptr, UsefulBuf, Result, ok, or_done, err-ne-ok,
  unsupported_signing_alg,
}
use t_cose.Tbs.{create_tbs_hash, max_hash_size}
use t_cose.Algorithm.{hash_alg_id_from_sig_alg_id, cose_algorithm_eddsa}
use t_cose.Crypto.{Crypto}
use t_cose.Labels.Critical.{check_critical_labels_iff}
use t_cose.Labels.Views.{IsLabelList-IsTerminated}
use t_cose.Qcbor.Decoder.{Decoder}
use t_cose.Qcbor.Encoder.{Encoder}
use t_cose.Verify.Context.{
  VerifyCtx, has_flag, opt_decode_only, opt_require_kid, opt_unknown_crit_allowed,
  max_tags_to_return,
}
use t_cose.Verify.Message.{
  Decoded, Verified, lists_of, qcbor_decode_error_to_t_cose_error, check_parameters,
  check_signature, verify_internal,
}
use t_cose.Verify.Message.Accept.{AreApart, AllowsTag, IsAccepted}
use t_cose.Verify.Message.Decode.{IsDecoded}
use t_cose.Verify.Message.Signed.{SignatureAccepted}
use t_cose.Verify.Signature.{verify_short_circuit, verify_eddsa, verify_eddsa_tbs, verify_default}
use t_cose.Verify.Tags.Laws.{HasTags, remaining, is_refused, process_tags_lem}
use t_cose.Verify.Tags.Loop.{padded}

true-ne-false : true ≡ false → ⊥
true-ne-false h = cc

-- EdDSA does not go with a hash.
hashed-ne-eddsa :
    (c : Crypto) (e : Encoder) (id : ℤ) (p a q : Buf) (n : ℕ) (hash : Buf)
    → create_tbs_hash c e id p a q n ≡ ok hash
    → eq_ℤ id cose_algorithm_eddsa ≡ false
unfolding create_tbs_hash hash_alg_id_from_sig_alg_id
hashed-ne-eddsa c e id p a q n hash h = elim (Bool-cases (eq_ℤ id cose_algorithm_eddsa)) [
  | inr other ↦ other
  | inl same ↦
      absurd (
        err-ne-ok unsupported_signing_alg hash
          (rw ((eq_ℤ_iff id cose_algorithm_eddsa).0 same) at h))
]

module _ (u : UsefulBuf) (c : Crypto) (e : Encoder) (me : VerifyCtx) (m : Decoded) (aad : Buf) where
  check_parameters_complete :
      (is_dc : Bool) (payload : Buf) (d : Decoder)
      → IsDecoded d u is_dc payload m
      → (has_flag me.option_flags opt_require_kid ≡ false) ⊎ (is_null_ptr m.parameters.kid ≡ false)
      → (has_flag me.option_flags opt_unknown_crit_allowed ≡ true)
        ⊎ AreApart u (lists_of m.critical) m.unknown
      → check_parameters u me m ≡ ok tt
  unfolding check_parameters
  check_parameters_complete is_dc payload d sound kid crit =
      let present : (has_flag me.option_flags opt_require_kid && u.is_null m.parameters.kid)
          ≡ false =
        ground (arith, u.is_null_lem m.parameters.kid) in
      rw present (elim crit [
        | inl allowed ↦ rw allowed refl
        | inr apart ↦ elim (Bool-cases (has_flag me.option_flags opt_unknown_crit_allowed)) [
          | inl allowed ↦ rw allowed refl
          | inr strict ↦ rw strict (
              (check_critical_labels_iff u (lists_of m.critical) m.unknown sound.critical_list
                  (IsLabelList-IsTerminated u m.unknown sound.unknown_list)).0.1
                (apart.ints, apart.tstrs))
        ]
      ])

  check_signature_complete :
      has_flag me.option_flags opt_decode_only ≡ false
      → SignatureAccepted u c e me m aad
      → (check_signature u c e me m aad).1 ≡ ok tt
  unfolding check_signature verify_short_circuit verify_eddsa verify_eddsa_tbs verify_default
  check_signature_complete full
        (SignatureAccepted.by_short_circuit tbs_hash short allowed hashed checked) =
      rw (short, full, allowed, hashed, checked) refl
  check_signature_complete full (SignatureAccepted.by_eddsa tbs other eddsa buffer made checked) =
      rw (other, (eq_ℤ_iff _ _).1 eddsa, made, full, buffer, checked) refl
  check_signature_complete full (SignatureAccepted.by_default tbs_hash other hashed checked) =
      rw
        (
          other,
          hashed-ne-eddsa c e m.parameters.cose_algorithm_id m.protected_parameters aad m.payload
              max_hash_size tbs_hash hashed,
          full,
          hashed,
          checked,
        )
        refl

-- The tags play no part in it.
SignatureAccepted-with_tags :
    (u : UsefulBuf) (c : Crypto) (e : Encoder) (me : VerifyCtx) (m : Decoded) (aad : Buf)
    (tags : List ℕ)
    → SignatureAccepted u c e me m aad
    → SignatureAccepted u c e (record me { au_tags = tags }) m aad
SignatureAccepted-with_tags u c e me m aad tags (SignatureAccepted.by_short_circuit h s a r v) =
    SignatureAccepted.by_short_circuit h s a r v
SignatureAccepted-with_tags u c e me m aad tags (SignatureAccepted.by_eddsa t s g n r v) =
    SignatureAccepted.by_eddsa t s g n r v
SignatureAccepted-with_tags u c e me m aad tags (SignatureAccepted.by_default h s r v) =
    SignatureAccepted.by_default h s r v

allowed-not_refused :
    (d : Decoder) (me : VerifyCtx) (ctx : d.Ctx) (ts : List ℕ)
    → HasTags d ctx ts
    → AllowsTag d me (d.get_nth_tag_of_last ctx 0)
    → is_refused me ts ≡ false
unfolding is_refused
allowed-not_refused d me ctx ts tags allowed =
    ground (arith, tags.nth 0, allowed.required, allowed.prohibited)

pub returned_lem :
    (outcome : VerifyCtx × Result (Unit {0})) (v : Verified)
    → outcome.1 ≡ ok tt
    → (or_done outcome (λ me t. (me, ok v))).1 ≡ ok v
returned_lem (me, r) v h = rw h refl

module _ (d : Decoder) (u : UsefulBuf) (c : Crypto) (e : Encoder) (me : VerifyCtx)
    (cose_sign1 aad payload : Buf) (is_dc : Bool) where
  -- Unless only decoding was asked for, a message with at most four tags to return that is well formed up to
  -- its array and has passed all the checks of an accepted message (tags, decoding, key identifier,
  -- critical labels and signature) is accepted: t_cose_sign1_verify_internal() succeeds and returns its
  -- payload and parameters.
  pub verify_internal_complete :
      (ts : List ℕ) (v : Verified)
      → qcbor_decode_error_to_t_cose_error d (d.get_error (d.enter_array (d.init cose_sign1)))
        ≡ ok tt
      → HasTags d (d.enter_array (d.init cose_sign1)) ts
      → length (remaining ts) ≤ max_tags_to_return
      → has_flag me.option_flags opt_decode_only ≡ false
      → IsAccepted d u c e me cose_sign1 aad payload is_dc v
      → (verify_internal d u c e me cose_sign1 aad payload is_dc).1 ≡ ok v
  unfolding verify_internal
  verify_internal_complete ts v begun tags few full a =
      let ctx = d.enter_array (d.init cose_sign1) in
      let me1 : VerifyCtx = record me { au_tags = padded (remaining ts) } in
      rw
        (
          begun,
          process_tags_lem d ctx me ts tags few,
          allowed-not_refused d me ctx ts tags a.tag,
          a.decoded,
          check_parameters_complete u c e me1 a.message aad is_dc payload d a.sound a.kid a.crit,
        )
        (returned_lem (check_signature u c e me1 a.message aad) _ (elim a.signature [
          | inl only ↦ absurd (true-ne-false (sym only ∙ full))
          | inr accepted ↦
              check_signature_complete u c e me1 a.message aad full (
                SignatureAccepted-with_tags u c e me a.message aad (padded (remaining ts)) accepted)
        ])
          ∙ ap ok (sym a.returned))
