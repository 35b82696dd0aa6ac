-- ===== src/Verify/Message/Safety.antt =====
-- t_cose_sign1_verify_internal() leaves no array.
use t_cose.Common.{
  ℕ, ◌≤◌, ◌≡◌, refl, ap, Bool, not, ◌&&◌, is_null_ptr, eq_ℤ, pos, ℤ, arith, length, List, Buf,
  UsefulBuf, Result, ok, err, fault, IsSafe, IsSafe-bind, IsSafe-if_state, or_done-IsSafe, Safe-if,
  Safe-fail_if, Safe-of_eq, Safe-imp, Safe-ne-fault, Safe-ok,
}
use t_cose.Algorithm.{cose_algorithm_eddsa, hash_alg_id_from_sig_alg_id, invalid_algorithm_id}
use t_cose.Crypto.{Crypto, Key}
use t_cose.Labels.Critical.{check_critical_labels_iff}
use t_cose.Labels.Views.{IsTerminated, IsLabelList-IsTerminated}
use t_cose.Qcbor.Decoder.{Decoder, CallsBack}
use t_cose.Qcbor.Encoder.{Encoder}
use t_cose.ShortCircuit.{short_circuit_kid, short_circuit_verify}
use t_cose.Tbs.{create_tbs, create_tbs_hash, max_hash_size}
use t_cose.Verify.Context.{
  VerifyCtx, has_flag, opt_decode_only, opt_allow_short_circuit, opt_require_kid,
  opt_unknown_crit_allowed, max_tags_to_return,
}
use t_cose.Verify.Message.{
  Decoded, lists_of, qcbor_decode_error_to_t_cose_error, decode_parts, check_parameters,
  check_signature, verify_internal,
}
use t_cose.Verify.Message.Decode.{IsDecoded, decode_parts-Safe, qcbor_decode_error-ne-fault}
use t_cose.Verify.Signature.{
  name_buffer, verify_short_circuit, verify_eddsa, verify_eddsa_tbs, verify_default,
}
use t_cose.Verify.Tags.{process_tags}
use t_cose.Verify.Tags.Laws.{HasTags, remaining, is_refused, process_tags_lem}

-- The cryptographic library leaves no array either.
pub record StaysInside (c : Crypto) : Type 0 where
  pub start_inside : (id : ℤ) → c.hash_start id ≡ fault → ⊥
  pub finish_inside : (h : c.HashCtx) (n : ℕ) → c.hash_finish h n ≡ fault → ⊥
  pub verify_inside :
      (id : ℤ) (k : Key) (kid hash signature : Buf) → c.verify id k kid hash signature ≡ fault → ⊥
  pub verify_eddsa_inside :
      (k : Key) (kid tbs signature : Buf) → c.verify_eddsa k kid tbs signature ≡ fault → ⊥

IsSafe-of_ne {ℓ} : {A : Type ℓ} (m : Result A) → (m ≡ fault → ⊥) → IsSafe m
IsSafe-of_ne m h = Safe-of_eq (λ _. Unit) m h (λ a e. tt)

module _ (c : Crypto) (e : Encoder) (u : UsefulBuf) (inside : StaysInside c) where
  create_tbs_hash-ne-fault :
      (id : ℤ) (p a q : Buf) (n : ℕ) → create_tbs_hash c e id p a q n ≡ fault → ⊥
  unfolding create_tbs_hash
  create_tbs_hash-ne-fault id p a q n =
      Safe-ne-fault (λ _. Unit) _
        (Safe-fail_if (λ _. Unit) (eq_ℤ (hash_alg_id_from_sig_alg_id id) invalid_algorithm_id) _ _
          λ known.
            IsSafe-bind (c.hash_start (hash_alg_id_from_sig_alg_id id)) _ (inside.start_inside _)
              λ h. IsSafe-of_ne _ (inside.finish_inside _ n))

  short_circuit_verify-ne-fault :
      (hash signature : Buf) → short_circuit_verify u hash signature ≡ fault → ⊥
  unfolding short_circuit_verify
  short_circuit_verify-ne-fault hash signature h = ground arith

  create_tbs-ne-fault : (p a q buffer : Buf) → create_tbs e p a q buffer ≡ fault → ⊥
  unfolding create_tbs
  create_tbs-ne-fault p a q buffer h = ground arith

  module _ (me : VerifyCtx) (m : Decoded) (aad : Buf) where
    short_circuit-IsSafe : IsSafe (
        verify_short_circuit c e u me m.parameters m.signature m.protected_parameters aad m.payload)
    unfolding verify_short_circuit
    short_circuit-IsSafe =
        Safe-if _ (has_flag me.option_flags opt_decode_only) _ _ (λ h. tt)
          λ h. Safe-fail_if _ (not (has_flag me.option_flags opt_allow_short_circuit)) _ _ λ h.
            IsSafe-bind
              (create_tbs_hash c e m.parameters.cose_algorithm_id m.protected_parameters aad
                m.payload max_hash_size)
              _ (create_tbs_hash-ne-fault _ _ _ _ _)
              (λ hash. IsSafe-of_ne _ (short_circuit_verify-ne-fault hash m.signature))

    default-IsSafe :
        IsSafe
          (verify_default c e u me m.parameters m.signature m.protected_parameters aad m.payload)
    unfolding verify_default
    default-IsSafe =
        Safe-if _ (has_flag me.option_flags opt_decode_only) _ _ (λ h. tt)
          λ h.
            IsSafe-bind
              (create_tbs_hash c e m.parameters.cose_algorithm_id m.protected_parameters aad
                m.payload max_hash_size)
              _ (create_tbs_hash-ne-fault _ _ _ _ _)
              (λ hash. IsSafe-of_ne _ (inside.verify_inside _ _ _ hash m.signature))

    eddsa_tbs-IsSafe :
        (made : Result Buf)
        → (made ≡ fault → ⊥)
        → IsSafe
            (verify_eddsa_tbs c e u me m.parameters m.signature m.protected_parameters aad m.payload
              (name_buffer made)).1
    unfolding verify_eddsa_tbs
    eddsa_tbs-IsSafe (ok tbs) h =
        Safe-if _ (has_flag me.option_flags opt_decode_only) _ _ (λ h. tt)
          λ h.
            Safe-if _ (is_null_ptr me.auxiliary_buffer) _ _ (λ h. tt)
              λ h. IsSafe-of_ne _ (inside.verify_eddsa_inside _ _ tbs m.signature)
    eddsa_tbs-IsSafe (err x) h = tt
    eddsa_tbs-IsSafe fault h = h refl

    check_signature-IsSafe : IsSafe (check_signature u c e me m aad).1
    unfolding check_signature verify_eddsa
    check_signature-IsSafe =
        IsSafe-if_state (eq_ℤ (u.compare m.parameters.kid short_circuit_kid) (pos 0)) _ _
          short_circuit-IsSafe
          (IsSafe-if_state (eq_ℤ m.parameters.cose_algorithm_id cose_algorithm_eddsa) _ _
            (eddsa_tbs-IsSafe
              (create_tbs e m.protected_parameters aad m.payload me.auxiliary_buffer)
              (create_tbs-ne-fault _ _ _ _))
            default-IsSafe)

check_parameters-IsSafe :
    (u : UsefulBuf) (me : VerifyCtx) (m : Decoded)
    → IsTerminated u (lists_of m.critical)
    → IsTerminated u m.unknown
    → IsSafe (check_parameters u me m)
unfolding check_parameters
check_parameters-IsSafe u me m wc wu =
    Safe-fail_if _ (has_flag me.option_flags opt_require_kid && u.is_null m.parameters.kid) _ _ λ h.
      Safe-if _ (has_flag me.option_flags opt_unknown_crit_allowed) _ _ (λ h. tt)
        λ h. IsSafe-of_ne _ (λ f.
          ground (arith, (check_critical_labels_iff u (lists_of m.critical) m.unknown wc wu).1))

module _ (d : Decoder) (u : UsefulBuf) (c : Crypto) (e : Encoder) where
  process_tags-IsSafe :
      (me : VerifyCtx) (ctx : d.Ctx) (tags : List ℕ)
      → HasTags d ctx tags
      → length (remaining tags) ≤ max_tags_to_return
      → IsSafe (process_tags d me ctx).1
  process_tags-IsSafe me ctx tags w l =
      rw (process_tags_lem d ctx me tags w l) (IsSafe-if_state (is_refused me tags) _ _ tt tt)

  -- With QCBOR's callback as documented, a cryptographic library that leaves no array and a message
  -- that has at most four tags besides that of COSE_Sign1, t_cose_sign1_verify_internal() reads and
  -- writes no array out of bounds, whatever the message holds.
  pub verify_internal-IsSafe :
      CallsBack d
      → StaysInside c
      → (me : VerifyCtx) (cose_sign1 aad payload : Buf) (is_dc : Bool) (tags : List ℕ)
      → HasTags d (d.enter_array (d.init cose_sign1)) tags
      → length (remaining tags) ≤ max_tags_to_return
      → IsSafe (verify_internal d u c e me cose_sign1 aad payload is_dc).1
  unfolding verify_internal
  verify_internal-IsSafe calls inside me cose_sign1 aad payload is_dc tags w l =
      let ctx = d.enter_array (d.init cose_sign1) in
      let decoded = decode_parts-Safe d u calls ctx is_dc payload in
      or_done-IsSafe (me, qcbor_decode_error_to_t_cose_error d (d.get_error ctx)) _
        (IsSafe-of_ne _ (qcbor_decode_error-ne-fault d _))
        λ me0 t0 e0.
          or_done-IsSafe (process_tags d me0 ctx) _ (process_tags-IsSafe me0 ctx tags w l)
            λ me1 t1 e1.
              or_done-IsSafe (me1, decode_parts d u ctx is_dc payload) _
                (Safe-imp _ _ (decode_parts d u ctx is_dc payload) decoded (λ m s. tt))
                λ me2 m e2.
                  let sound = Safe-ok (IsDecoded d u is_dc payload) decoded (ap (λ r. r.1) e2) in
                  or_done-IsSafe (me2, check_parameters u me2 m) _
                    (check_parameters-IsSafe u me2 m sound.critical_list
                      (IsLabelList-IsTerminated u _ sound.unknown_list))
                    λ me3 t3 e3.
                      or_done-IsSafe (check_signature u c e me3 m aad) _
                        (check_signature-IsSafe c e u inside me3 m aad) λ me4 t4 e4. tt
