-- ===== src/Verify/Reuse/Agree.antt =====
-- What t_cose_sign1_verify_internal() reads of a context that may have verified before.
use t_cose.Common.{
  pos, eq_ℤ, ℕ, zero, suc, ◌+◌, ◌==◌, ◌≡◌, refl, sym, ap, subst, ◌∙◌, Bool, Bool-cases, inl, inr,
  ◌&&◌, not, List, set, length, length-set, arith, Buf, UsefulBuf, Result, ok, err, fault,
}
use t_cose.Algorithm.{cose_algorithm_eddsa}
use t_cose.ShortCircuit.{short_circuit_kid}
use t_cose.Crypto.{Crypto, Key}
use t_cose.Qcbor.{cbor_tag_cose_sign1}
use t_cose.Qcbor.Decoder.{Decoder}
use t_cose.Qcbor.Encoder.{Encoder}
use t_cose.Tbs.{create_tbs}
use t_cose.Verify.Context.{
  VerifyCtx, max_tags_to_return, has_flag, opt_tag_required, opt_tag_prohibited,
}
use t_cose.Verify.Message.{
  Decoded, qcbor_decode_error_to_t_cose_error, decode_parts, check_parameters, check_signature,
  verify_internal,
}
use t_cose.Verify.Signature.{
  name_buffer, verify_short_circuit, verify_eddsa, verify_eddsa_tbs, verify_default,
}
use t_cose.Verify.Tags.{no_tags, start_tags, collect_tags, process_tags}
use t_cose.Verify.Reuse.{Keeps}
use t_cose.Verify.Reuse.Outcomes.{Agree, if_both, or_done-Agree}

module _ (d : Decoder) where
  length-collect_tags :
      (fuel : ℕ) (ctx : d.Ctx) (i r : ℕ) (tags : List ℕ)
      → length (collect_tags d fuel ctx i r tags).0 ≡ length tags
  unfolding collect_tags
  length-collect_tags zero ctx i r tags = refl
  length-collect_tags (suc fuel) ctx i r tags = ground (
    arith,
    length-collect_tags fuel ctx (i + 1) (r + 1) (set tags r (d.get_nth_tag_of_last ctx i)),
    length-set tags r (d.get_nth_tag_of_last ctx i),
  )

  length-start_tags : (tag : ℕ) → length (start_tags tag).0 ≡ max_tags_to_return
  unfolding start_tags
  length-start_tags tag = ground (arith, length-set no_tags 0 tag)

  process_tags-Keeps :
      (flags : ℕ) (key : Key) (buffer : Buf) (me : VerifyCtx) (ctx : d.Ctx)
      → Keeps flags key buffer me
      → Keeps flags key buffer (process_tags d me ctx).0
  unfolding process_tags
  process_tags-Keeps flags key buffer me ctx h =
      let tag = d.get_nth_tag_of_last ctx 0 in
      let (tags, index) = start_tags tag in
      let collected = collect_tags d 6 ctx 1 index tags in
      let kept : Keeps flags key buffer (record me { au_tags = collected.0 }) = record {
        flags_kept = h.flags_kept;
        key_kept = h.key_kept;
        buffer_kept = h.buffer_kept;
        tags_kept = length-collect_tags 6 ctx 1 index tags ∙ length-start_tags tag;
      } in
      let P : VerifyCtx × Result (Unit {0}) → Type 0 = λ r. Keeps flags key buffer r.0 in
      if_both P (has_flag me.option_flags opt_tag_required && not (tag == cbor_tag_cose_sign1)) _ _
        h
        (if_both P (has_flag me.option_flags opt_tag_prohibited && tag == cbor_tag_cose_sign1) _ _ h
          kept)

  process_tags-same :
      (flags : ℕ) (key : Key) (buffer : Buf) (s t : VerifyCtx) (ctx : d.Ctx)
      → Keeps flags key buffer s
      → Keeps flags key buffer t
      → (process_tags d s ctx).1 ≡ (process_tags d t ctx).1
  unfolding process_tags
  process_tags-same flags key buffer s t ctx hs ht =
      rw (hs.flags_kept, ht.flags_kept) (ground arith)

module _ (u : UsefulBuf) (c : Crypto) (e : Encoder) (flags : ℕ) (key : Key) (buffer : Buf)
    (s t : VerifyCtx) (hs : Keeps flags key buffer s) (ht : Keeps flags key buffer t) (m : Decoded)
    (aad : Buf) where
  check_parameters-same : check_parameters u s m ≡ check_parameters u t m
  unfolding check_parameters
  check_parameters-same = rw (hs.flags_kept, ht.flags_kept) refl

  short_circuit-same :
      verify_short_circuit c e u s m.parameters m.signature m.protected_parameters aad m.payload
      ≡ verify_short_circuit c e u t m.parameters m.signature m.protected_parameters aad m.payload
  unfolding verify_short_circuit
  short_circuit-same = rw (hs.flags_kept, ht.flags_kept) refl

  default-same :
      verify_default c e u s m.parameters m.signature m.protected_parameters aad m.payload
      ≡ verify_default c e u t m.parameters m.signature m.protected_parameters aad m.payload
  unfolding verify_default
  default-same = rw (hs.flags_kept, ht.flags_kept, hs.key_kept, ht.key_kept) refl

  eddsa_tbs-Agree :
      (made : Result Buf)
      → Agree flags key buffer
          (verify_eddsa_tbs c e u s m.parameters m.signature m.protected_parameters aad m.payload
            made)
          (verify_eddsa_tbs c e u t m.parameters m.signature m.protected_parameters aad m.payload
            made)
  unfolding verify_eddsa_tbs
  eddsa_tbs-Agree (ok tbs) = record {
    left = record {
      flags_kept = hs.flags_kept;
      key_kept = hs.key_kept;
      buffer_kept = hs.buffer_kept;
      tags_kept = hs.tags_kept;
    };
    right = record {
      flags_kept = ht.flags_kept;
      key_kept = ht.key_kept;
      buffer_kept = ht.buffer_kept;
      tags_kept = ht.tags_kept;
    };
    same =
        rw (hs.flags_kept, ht.flags_kept, hs.key_kept, ht.key_kept, hs.buffer_kept, ht.buffer_kept)
          refl;
  }
  eddsa_tbs-Agree (err x) = record { left = hs; right = ht; same = refl }
  eddsa_tbs-Agree fault = record { left = hs; right = ht; same = refl }

  eddsa-Agree :
      Agree flags key buffer
        (verify_eddsa c e u s m.parameters m.signature m.protected_parameters aad m.payload)
        (verify_eddsa c e u t m.parameters m.signature m.protected_parameters aad m.payload)
  unfolding verify_eddsa
  eddsa-Agree =
      subst
        (λ r.
          Agree flags key buffer
            (verify_eddsa_tbs c e u s m.parameters m.signature m.protected_parameters aad m.payload
              (name_buffer (create_tbs e m.protected_parameters aad m.payload s.auxiliary_buffer)))
            (verify_eddsa_tbs c e u t m.parameters m.signature m.protected_parameters aad m.payload
              r))
        (ap (λ b. name_buffer (create_tbs e m.protected_parameters aad m.payload b))
          (hs.buffer_kept ∙ sym ht.buffer_kept))
        (eddsa_tbs-Agree
          (name_buffer (create_tbs e m.protected_parameters aad m.payload s.auxiliary_buffer)))

  check_signature-Agree :
      Agree flags key buffer (check_signature u c e s m aad) (check_signature u c e t m aad)
  unfolding check_signature
  check_signature-Agree =
      elim (Bool-cases (eq_ℤ (u.compare m.parameters.kid short_circuit_kid) (pos 0))) [
        | inl short ↦ rw short (record { left = hs; right = ht; same = short_circuit-same })
        | inr other ↦ elim (Bool-cases (eq_ℤ m.parameters.cose_algorithm_id cose_algorithm_eddsa)) [
          | inl eddsa ↦ rw (other, eddsa) eddsa-Agree
          | inr default ↦
              rw (other, default) (record { left = hs; right = ht; same = default-same })
        ]
      ]

module _ (d : Decoder) (u : UsefulBuf) (c : Crypto) (e : Encoder) (flags : ℕ) (key : Key)
    (buffer : Buf) where
  pub verify_internal-Agree :
      (s t : VerifyCtx) (cose_sign1 aad payload : Buf) (is_dc : Bool)
      → Keeps flags key buffer s
      → Keeps flags key buffer t
      → Agree flags key buffer
          (verify_internal d u c e s cose_sign1 aad payload is_dc)
          (verify_internal d u c e t cose_sign1 aad payload is_dc)
  unfolding verify_internal
  verify_internal-Agree s t cose_sign1 aad payload is_dc hs ht =
      let ctx = d.enter_array (d.init cose_sign1) in
      let begun = qcbor_decode_error_to_t_cose_error d (d.get_error ctx) in
      let parts = decode_parts d u ctx is_dc payload in
      or_done-Agree flags key buffer (s, begun) (t, begun) _ _
        (record { left = hs; right = ht; same = refl })
        λ s0 t0 v0 hs0 ht0.
          or_done-Agree flags key buffer (process_tags d s0 ctx) (process_tags d t0 ctx) _ _
            (record {
              left = process_tags-Keeps d flags key buffer s0 ctx hs0;
              right = process_tags-Keeps d flags key buffer t0 ctx ht0;
              same = process_tags-same d flags key buffer s0 t0 ctx hs0 ht0;
            })
            λ s1 t1 v1 hs1 ht1.
              or_done-Agree flags key buffer (s1, parts) (t1, parts) _ _
                (record { left = hs1; right = ht1; same = refl })
                λ s2 t2 m hs2 ht2.
                  or_done-Agree flags key buffer (s2, check_parameters u s2 m)
                    (t2, check_parameters u t2 m) _ _
                    (record {
                      left = hs2;
                      right = ht2;
                      same = check_parameters-same u c e flags key buffer s2 t2 hs2 ht2 m aad;
                    })
                    λ s3 t3 v3 hs3 ht3.
                      or_done-Agree flags key buffer (check_signature u c e s3 m aad)
                        (check_signature u c e t3 m aad) _ _
                        (check_signature-Agree u c e flags key buffer s3 t3 hs3 ht3 m aad)
                        λ s4 t4 v4 hs4 ht4. record { left = hs4; right = ht4; same = refl }
