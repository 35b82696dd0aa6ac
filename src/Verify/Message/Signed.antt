-- ===== src/Verify/Message/Signed.antt =====
-- Which check of a signature has succeeded, when one has.
use t_cose.Common.{
  List, ℕ, ◌≡◌, refl, ◌⊎◌, inl, inr, pos, eq_ℤ, eq_ℤ_iff, Bool, true, false, not, Bool-cases,
  if◌then◌else◌, arith, Buf, is_null_ptr, UsefulBuf, Result, ok, err, fault, >>=-ok_elim, fail_if,
  ap, short_circuit_sig, need_auxiliary_buffer,
}
use t_cose.Algorithm.{cose_algorithm_eddsa}
use t_cose.Crypto.{Crypto}
use t_cose.Qcbor.Encoder.{Encoder}
use t_cose.ShortCircuit.{short_circuit_kid, short_circuit_verify}
use t_cose.Tbs.{create_tbs, create_tbs_hash, max_hash_size}
use t_cose.Verify.Context.{VerifyCtx, has_flag, opt_allow_short_circuit, opt_decode_only}
use t_cose.Verify.Message.{Decoded, check_signature}
use t_cose.Verify.Signature.{
  name_buffer, verify_short_circuit, verify_eddsa, verify_eddsa_tbs, verify_default,
}

-- A signature over the Sig_structure of the message has been checked, in the way that the key
-- identifier and the algorithm select.
module _ (u : UsefulBuf) (c : Crypto) (e : Encoder) (me : VerifyCtx) (m : Decoded) (aad : Buf) where
  abbrev pub is_short_circuit : Bool
  is_short_circuit = eq_ℤ (u.compare m.parameters.kid short_circuit_kid) (pos 0)

  abbrev pub IsHashed : Buf → Type 0
  IsHashed tbs_hash =
      create_tbs_hash c e m.parameters.cose_algorithm_id m.protected_parameters aad m.payload
        max_hash_size
      ≡ ok tbs_hash

  pub data SignatureAccepted : Type 0 where
    by_short_circuit :
        (tbs_hash : Buf)
        → is_short_circuit ≡ true
        → has_flag me.option_flags opt_allow_short_circuit ≡ true
        → IsHashed tbs_hash
        → short_circuit_verify u tbs_hash m.signature ≡ ok tt
        → SignatureAccepted
    by_eddsa :
        (tbs : Buf)
        → is_short_circuit ≡ false
        → m.parameters.cose_algorithm_id ≡ cose_algorithm_eddsa
        → is_null_ptr me.auxiliary_buffer ≡ false
        → create_tbs e m.protected_parameters aad m.payload me.auxiliary_buffer ≡ ok tbs
        → c.verify_eddsa me.verification_key m.parameters.kid tbs m.signature ≡ ok tt
        → SignatureAccepted
    by_default :
        (tbs_hash : Buf)
        → is_short_circuit ≡ false
        → IsHashed tbs_hash
        → c.verify m.parameters.cose_algorithm_id me.verification_key m.parameters.kid tbs_hash
            m.signature
          ≡ ok tt
        → SignatureAccepted

  short_circuit_accepted :
      is_short_circuit ≡ true
      → verify_short_circuit c e u me m.parameters m.signature m.protected_parameters aad m.payload
        ≡ ok tt
      → (has_flag me.option_flags opt_decode_only ≡ true) ⊎ SignatureAccepted
  unfolding verify_short_circuit
  short_circuit_accepted s h = elim (Bool-cases (has_flag me.option_flags opt_decode_only)) [
    | inl only ↦ inl only
    | inr full ↦
        >>=-ok_elim
          (fail_if (not (has_flag me.option_flags opt_allow_short_circuit)) short_circuit_sig) _
          (rw full at h)
          λ t allowed rest.
            >>=-ok_elim
              (create_tbs_hash c e m.parameters.cose_algorithm_id m.protected_parameters aad
                m.payload max_hash_size)
              _ rest
              λ hash hashed checked. inr (by_short_circuit hash s (ground arith) hashed checked)
  ]

  default_accepted :
      is_short_circuit ≡ false
      → verify_default c e u me m.parameters m.signature m.protected_parameters aad m.payload
        ≡ ok tt
      → (has_flag me.option_flags opt_decode_only ≡ true) ⊎ SignatureAccepted
  unfolding verify_default
  default_accepted s h = elim (Bool-cases (has_flag me.option_flags opt_decode_only)) [
    | inl only ↦ inl only
    | inr full ↦
        >>=-ok_elim
          (create_tbs_hash c e m.parameters.cose_algorithm_id m.protected_parameters aad m.payload
            max_hash_size)
          _ (rw full at h) λ hash hashed checked. inr (by_default hash s hashed checked)
  ]

  eddsa_checked :
      (only no_buffer : Bool) (r : Result (Unit {0}))
      → (if only then ok tt else if no_buffer then err need_auxiliary_buffer else r) ≡ ok tt
      → (only ≡ true) ⊎ ((no_buffer ≡ false) × (r ≡ ok tt))
  eddsa_checked only no_buffer r h = ground arith

  eddsa_tbs_accepted :
      (made : Result Buf) (me' : VerifyCtx)
      → verify_eddsa_tbs c e u me m.parameters m.signature m.protected_parameters aad m.payload
          (name_buffer made)
        ≡ (me', ok tt)
      → (has_flag me.option_flags opt_decode_only ≡ true)
        ⊎ ((tbs : Buf) × (made ≡ ok tbs)
            × (is_null_ptr me.auxiliary_buffer ≡ false)
            × (c.verify_eddsa me.verification_key m.parameters.kid tbs m.signature ≡ ok tt))
  unfolding verify_eddsa_tbs
  eddsa_tbs_accepted (ok tbs) me' h =
      elim (eddsa_checked (has_flag me.option_flags opt_decode_only)
        (is_null_ptr me.auxiliary_buffer)
        (c.verify_eddsa me.verification_key m.parameters.kid tbs m.signature) (ap (λ r. r.1) h)) [
          | inl only ↦ inl only
          | inr (aux, checked) ↦ inr (tbs, refl, aux, checked)
        ]
  eddsa_tbs_accepted (err x) me' h = ground arith
  eddsa_tbs_accepted fault me' h = ground arith

  eddsa_accepted :
      (me' : VerifyCtx)
      → is_short_circuit ≡ false
      → m.parameters.cose_algorithm_id ≡ cose_algorithm_eddsa
      → verify_eddsa c e u me m.parameters m.signature m.protected_parameters aad m.payload
        ≡ (me', ok tt)
      → (has_flag me.option_flags opt_decode_only ≡ true) ⊎ SignatureAccepted
  unfolding verify_eddsa
  eddsa_accepted me' s alg h =
      elim (eddsa_tbs_accepted
        (create_tbs e m.protected_parameters aad m.payload me.auxiliary_buffer) me' h) [
          | inl only ↦ inl only
          | inr (tbs, made, aux, checked) ↦ inr (by_eddsa tbs s alg aux made checked)
        ]

  pub signature_accepted :
      (me' : VerifyCtx)
      → check_signature u c e me m aad ≡ (me', ok tt)
      → (has_flag me.option_flags opt_decode_only ≡ true) ⊎ SignatureAccepted
  unfolding check_signature
  signature_accepted me' h = elim (Bool-cases is_short_circuit) [
    | inl short ↦ short_circuit_accepted short (ap (λ r. r.1) (rw short at h))
    | inr other ↦ elim (Bool-cases (eq_ℤ m.parameters.cose_algorithm_id cose_algorithm_eddsa)) [
      | inl eddsa ↦ eddsa_accepted me' other ((eq_ℤ_iff _ _).0 eddsa) (rw (other, eddsa) at h)
      | inr default ↦ default_accepted other (ap (λ r. r.1) (rw (other, default) at h))
    ]
  ]

-- The tags that are returned play no part in it.
pub SignatureAccepted-tags_elim :
    (u : UsefulBuf) (c : Crypto) (e : Encoder) (me : VerifyCtx) (m : Decoded) (aad : Buf)
    (tags : List ℕ)
    → SignatureAccepted u c e (record me { au_tags = tags }) m aad
    → SignatureAccepted u c e me m aad
SignatureAccepted-tags_elim u c e me m aad tags (by_short_circuit h s a r v) =
    by_short_circuit h s a r v
SignatureAccepted-tags_elim u c e me m aad tags (by_eddsa t s g n r v) = by_eddsa t s g n r v
SignatureAccepted-tags_elim u c e me m aad tags (by_default h s r v) = by_default h s r v
