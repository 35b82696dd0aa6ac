-- ===== src/Verify/Message/Accept.antt =====
-- What t_cose_sign1_verify_internal() has checked when it succeeds.
use t_cose.Common.{
  List, ◌≢◌, ℕ, ◌≡◌, ◌⊎◌, inl, inr, ℤ, pos, Bool, true, false, ◌&&◌, Bool-cases, arith, Buf,
  is_null_ptr, UsefulBuf, ok, >>=-ok_elim, fail_if, or_done-ok_elim, Safe-ok, no_kid,
}
use t_cose.Crypto.{Crypto}
use t_cose.Labels.{LabelList}
use t_cose.Labels.Critical.{InList, check_critical_labels_iff}
use t_cose.Labels.Views.{IsTerminated, IsLabelList-IsTerminated, labels_of}
use t_cose.Qcbor.{cbor_tag_cose_sign1}
use t_cose.Qcbor.Decoder.{Decoder, CallsBack}
use t_cose.Qcbor.Encoder.{Encoder}
use t_cose.Verify.Context.{
  VerifyCtx, has_flag, opt_decode_only, opt_require_kid, opt_tag_required, opt_tag_prohibited,
  opt_unknown_crit_allowed,
}
use t_cose.Verify.Message.{
  Decoded, Verified, lists_of, qcbor_decode_error_to_t_cose_error, decode_parts, check_parameters,
  check_signature, verify_internal,
}
use t_cose.Verify.Message.Decode.{IsDecoded, decode_parts-Safe}
use t_cose.Verify.Message.Signed.{
  SignatureAccepted, SignatureAccepted-tags_elim, signature_accepted,
}
use t_cose.Verify.Tags.{process_tags}

-- The labels of two lists, each as far as its first terminator, are apart.
module _ (u : UsefulBuf) where
  pub record AreApart (critical unknown : LabelList) : Type 0 where
    pub ints :
        (a : ℤ) → InList a (labels_of u critical).ints → InList a (labels_of u unknown).ints → ⊥
    pub tstrs :
        (a b : Buf)
        → InList a (labels_of u critical).tstrs
        → InList b (labels_of u unknown).tstrs
        → u.compare a b ≡ pos 0
        → ⊥

  checked_parameters :
      (me : VerifyCtx) (m : Decoded)
      → IsTerminated u (lists_of m.critical)
      → IsTerminated u m.unknown
      → check_parameters u me m ≡ ok tt
      → ((has_flag me.option_flags opt_require_kid ≡ false)
          ⊎ (is_null_ptr m.parameters.kid ≡ false))
        × ((has_flag me.option_flags opt_unknown_crit_allowed ≡ true)
            ⊎ AreApart (lists_of m.critical) m.unknown)
  unfolding check_parameters
  checked_parameters me m wc wu h =
      >>=-ok_elim
        (fail_if (has_flag me.option_flags opt_require_kid && u.is_null m.parameters.kid) no_kid) _
        h
        λ t kid rest. (
          ground (arith, u.is_null_lem m.parameters.kid),
          elim (Bool-cases (has_flag me.option_flags opt_unknown_crit_allowed)) [
            | inl allowed ↦ inl allowed
            | inr strict ↦
                let apart =
                  (check_critical_labels_iff u (lists_of m.critical) m.unknown wc wu).0.0
                    (rw strict at rest) in
                inr (record { ints = apart.0; tstrs = apart.1 })
          ],
        )

module _ (d : Decoder) where
  -- The options allow the first tag.
  pub record AllowsTag (me : VerifyCtx) (tag : ℕ) : Type 0 where
    pub required : (has_flag me.option_flags opt_tag_required ≡ false) ⊎ (tag ≡ cbor_tag_cose_sign1)
    pub prohibited :
        (has_flag me.option_flags opt_tag_prohibited ≡ false) ⊎ (tag ≢ cbor_tag_cose_sign1)

  allowed_tags :
      (me me' : VerifyCtx) (ctx : d.Ctx)
      → process_tags d me ctx ≡ (me', ok tt)
      → (tags : List ℕ) × AllowsTag me (d.get_nth_tag_of_last ctx 0)
        × (me' ≡ record me { au_tags = tags })
  unfolding process_tags
  allowed_tags me me' ctx h =
      (me'.au_tags, record { required = ground arith; prohibited = ground arith }, ground arith)

module _ (d : Decoder) (u : UsefulBuf) (c : Crypto) (e : Encoder) (me : VerifyCtx)
    (cose_sign1 aad payload : Buf) (is_dc : Bool) where
  -- What has been checked of a message for which `v` is returned.
  pub record IsAccepted (v : Verified) : Type 0 where
    pub message : Decoded
    pub decoded : decode_parts d u (d.enter_array (d.init cose_sign1)) is_dc payload ≡ ok message
    pub sound : IsDecoded d u is_dc payload message
    pub tag : AllowsTag d me (d.get_nth_tag_of_last (d.enter_array (d.init cose_sign1)) 0)
    pub kid :
        (has_flag me.option_flags opt_require_kid ≡ false)
        ⊎ (is_null_ptr message.parameters.kid ≡ false)
    pub crit :
        (has_flag me.option_flags opt_unknown_crit_allowed ≡ true)
        ⊎ AreApart u (lists_of message.critical) message.unknown
    pub signature :
        (has_flag me.option_flags opt_decode_only ≡ true) ⊎ SignatureAccepted u c e me message aad
    pub returned :
        v ≡ record { returned_payload = message.payload; returned_parameters = message.parameters }

  -- With QCBOR's callback as documented, t_cose_sign1_verify_internal() succeeds only for a message that
  -- decodes as an array of four, whose first tag the options allow, which has a key identifier if
  -- one is required, and whose signature was accepted over the hash or the bytes of its
  -- Sig_structure, by the short-circuit check only if that is allowed, unless only decoding was asked
  -- for. Unless unknown critical labels are allowed, none of the recorded critical labels, as far as
  -- the first integer 0 among the integers and the first null pointer among the texts, is one of the
  -- recorded unknown labels, which have no label of these two forms; critical labels behind those are
  -- not looked at. The payload, the caller's if detached, and the parameters of that message are
  -- returned; without protected parameters it has no algorithm.
  pub verify_internal-IsAccepted :
      CallsBack d
      → (me' : VerifyCtx) (v : Verified)
      → verify_internal d u c e me cose_sign1 aad payload is_dc ≡ (me', ok v)
      → IsAccepted v
  unfolding verify_internal
  verify_internal-IsAccepted calls me' v h =
      let ctx = d.enter_array (d.init cose_sign1) in
      or_done-ok_elim (me, qcbor_decode_error_to_t_cose_error d (d.get_error ctx)) _ h
        λ me0 t0 e0 h0. or_done-ok_elim (process_tags d me0 ctx) _ h0 λ me1 t1 e1 h1.
          or_done-ok_elim (me1, decode_parts d u ctx is_dc payload) _ h1
            λ me2 m e2 h2.
              or_done-ok_elim (me2, check_parameters u me2 m) _ h2
                λ me3 t3 e3 h3.
                  or_done-ok_elim (check_signature u c e me3 m aad) _ h3 λ me4 t4 e4 h4.
                    let (tags, allowed, same) = allowed_tags d me me1 ctx (cc) in
                    let decoded : decode_parts d u ctx is_dc payload ≡ ok m = cc in
                    let sound =
                      Safe-ok (IsDecoded d u is_dc payload)
                        (decode_parts-Safe d u calls ctx is_dc payload) decoded in
                    let (checked_kid, apart) =
                      checked_parameters u (record me { au_tags = tags }) m sound.critical_list
                        (IsLabelList-IsTerminated u m.unknown sound.unknown_list) (cc) in
                    let signed =
                      signature_accepted u c e (record me { au_tags = tags }) m aad me4 (cc) in
                    record {
                      message = m;
                      decoded = decoded;
                      sound = sound;
                      tag = allowed;
                      kid = checked_kid;
                      crit = apart;
                      signature = elim signed [
                        | inl only ↦ inl only
                        | inr accepted ↦
                            inr (SignatureAccepted-tags_elim u c e me m aad tags accepted)
                      ];
                      returned = cc;
                    }
