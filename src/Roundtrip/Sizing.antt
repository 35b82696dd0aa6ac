-- ===== src/Roundtrip/Sizing.antt =====
-- The size of the auxiliary buffer for EdDSA, found by a call without that buffer.
use t_cose.Common.{
  ℕ, ◌≤◌, ltb, ◌≡◌, refl, sym, len, arith, ap, ◌∙◌, List, length, false, Bool-cases, inl, inr,
  if◌then◌else◌, Buf, null, bytes, UsefulBuf, ok, err, auxiliary_buffer_size,
}
use t_cose.Crypto.{Crypto}
use t_cose.Parameters.{CoseParameters}
use t_cose.Qcbor.Encoder.{Encoder, EncodesCbor, array_size}
use t_cose.Sign.Context.{SignCtx}
use t_cose.Sign.Signature.{sign_eddsa, sign_eddsa_tbs}
use t_cose.Tbs.{create_tbs}
use t_cose.Tbs.Laws.{
  sig_structure, sig_structure_bytes, sig_structure-sizes, length-sig_structure_bytes, IsByteString,
  create_tbs_lem, create_tbs_sized,
}
use t_cose.Verify.Context.{VerifyCtx, has_flag, opt_decode_only}
use t_cose.Verify.Signature.{name_buffer, verify_eddsa, verify_eddsa_tbs}

-- The size that a call without an auxiliary buffer needs, from the lengths of the parts.
abbrev pub needed_size : Buf → Buf → Buf → ℕ
needed_size p aad payload = array_size (sig_structure p aad payload)

module _ (c : Crypto) (e : Encoder) (cbor : EncodesCbor e) (aad payload : Buf) where
  pub sign_size :
      (me : SignCtx) (buffer : Buf) (n : ℕ)
      → me.auxiliary_buffer ≡ null n
      → needed_size me.protected_parameters aad payload ≤ n
      → (sign_eddsa c e me aad payload buffer).0.auxiliary_buffer_size
        ≡ needed_size me.protected_parameters aad payload
  unfolding sign_eddsa sign_eddsa_tbs
  sign_size me buffer n missing fits =
      ap
        (λ b.
          (sign_eddsa_tbs c e me aad payload buffer (
            name_buffer
              (create_tbs e me.protected_parameters aad payload b))).0.auxiliary_buffer_size)
        missing
      ∙ ap (λ r. (sign_eddsa_tbs c e me aad payload buffer (name_buffer r)).0.auxiliary_buffer_size)
          (create_tbs_sized e cbor me.protected_parameters aad payload n fits)

  pub verify_size :
      (u : UsefulBuf) (me : VerifyCtx) (parameters : CoseParameters) (signature p : Buf) (n : ℕ)
      → me.auxiliary_buffer ≡ null n
      → needed_size p aad payload ≤ n
      → (verify_eddsa c e u me parameters signature p aad payload).0.auxiliary_buffer_size
        ≡ needed_size p aad payload
  unfolding verify_eddsa verify_eddsa_tbs
  verify_size u me parameters signature p n missing fits =
      ap
        (λ b.
          (verify_eddsa_tbs c e u me parameters signature p aad payload
            (name_buffer (create_tbs e p aad payload b))).0.auxiliary_buffer_size)
        missing
      ∙ ap
          (λ r.
            (verify_eddsa_tbs c e u me parameters signature p aad payload
              (name_buffer r)).0.auxiliary_buffer_size)
          (create_tbs_sized e cbor p aad payload n fits)

module _ (c : Crypto) (e : Encoder) (cbor : EncodesCbor e) (p aad payload : Buf)
    (hp : IsByteString p) (ha : IsByteString aad) (hq : IsByteString payload) where
  abbrev pub signed_size : ℕ
  signed_size = length (sig_structure_bytes p aad payload)

  buffer_named :
      (space : List ℕ)
      → name_buffer (create_tbs e p aad payload (bytes space)) ≡ (
          if ltb (length space) signed_size
          then err auxiliary_buffer_size
          else ok (bytes (sig_structure_bytes p aad payload)))
  buffer_named space =
      rw (create_tbs_lem e cbor p aad payload hp ha hq space)
        (elim (Bool-cases (ltb (length space) signed_size)) [
          | inl short ↦ rw short refl
          | inr fits ↦ rw fits refl
        ])

  sign_with_buffer :
      (me : SignCtx) (signature_space space : List ℕ)
      → me.auxiliary_buffer ≡ bytes space
      → me.protected_parameters ≡ p
      → (sign_eddsa c e me aad payload (bytes signature_space)).1 ≡ (
          if ltb (length space) signed_size
          then err auxiliary_buffer_size
          else c.sign_eddsa me.signing_key
              (bytes (sig_structure_bytes p aad payload))
              (bytes signature_space))
  unfolding sign_eddsa sign_eddsa_tbs
  sign_with_buffer me signature_space space given same =
      rw (given, same, buffer_named space)
        (elim (Bool-cases (ltb (length space) signed_size)) [
          | inl short ↦ rw short refl
          | inr fits ↦ rw fits refl
        ])

  verify_with_buffer :
      (u : UsefulBuf) (me : VerifyCtx) (parameters : CoseParameters) (signature : Buf)
      (space : List ℕ)
      → me.auxiliary_buffer ≡ bytes space
      → has_flag me.option_flags opt_decode_only ≡ false
      → (verify_eddsa c e u me parameters signature p aad payload).1 ≡ (
          if ltb (length space) signed_size
          then err auxiliary_buffer_size
          else c.verify_eddsa me.verification_key parameters.kid
              (bytes (sig_structure_bytes p aad payload))
              signature)
  unfolding verify_eddsa verify_eddsa_tbs
  verify_with_buffer u me parameters signature space given full =
      ap
        (λ b.
          (verify_eddsa_tbs c e u me parameters signature p aad payload
            (name_buffer (create_tbs e p aad payload b))).1)
        given
      ∙ ap (λ r. (verify_eddsa_tbs c e u me parameters signature p aad payload r).1)
          (buffer_named space)
      ∙ elim (Bool-cases (ltb (length space) signed_size)) [
        | inl short ↦ rw short refl
        | inr fits ↦ rw (fits, full, given) refl
      ]

module _ (c : Crypto) (e : Encoder) (cbor : EncodesCbor e) (signer : SignCtx) (aad payload : Buf)
    (hp : IsByteString signer.protected_parameters) (ha : IsByteString aad)
    (hq : IsByteString payload) where
  abbrev tbs : Buf
  tbs = bytes (sig_structure_bytes signer.protected_parameters aad payload)

  -- With QCBOR's encoder as documented, a call for EdDSA without an auxiliary buffer, of a stated length
  -- that the Sig_structure does not exceed, leaves the size that is needed in the context, the same
  -- for the signer and the verifier; the protected parameters and the payload of the signer's call may be
  -- other ones of the same lengths, such as NULL pointers. With a buffer of at least that size the signer
  -- returns what the cryptographic library does when it signs the Sig_structure, and the verifier,
  -- unless only decoding is asked for, what it does when it checks the signature.
  pub eddsa_sizing :
      (u : UsefulBuf) (sizing : SignCtx) (verifier : VerifyCtx) (parameters : CoseParameters)
      (payload_sizing buffer signature : Buf) (signature_space space : List ℕ) (n : ℕ)
      → len sizing.protected_parameters ≡ len signer.protected_parameters
      → len payload_sizing ≡ len payload
      → sizing.auxiliary_buffer ≡ null n
      → len tbs ≤ n
      → has_flag verifier.option_flags opt_decode_only ≡ false
      → (sign_eddsa c e sizing aad payload_sizing buffer).0.auxiliary_buffer_size ≤ length space
      → ((verify_eddsa c e u
            (record verifier { auxiliary_buffer = null n })
            parameters
            signature
            signer.protected_parameters
            aad
            payload).0.auxiliary_buffer_size
          ≡ (sign_eddsa c e sizing aad payload_sizing buffer).0.auxiliary_buffer_size)
        × ((sign_eddsa c e
              (record signer { auxiliary_buffer = bytes space })
              aad
              payload
              (bytes signature_space)).1
            ≡ c.sign_eddsa signer.signing_key tbs (bytes signature_space))
        × ((verify_eddsa c e u
              (record verifier { auxiliary_buffer = bytes space })
              parameters
              signature
              signer.protected_parameters
              aad
              payload).1
            ≡ c.verify_eddsa verifier.verification_key parameters.kid tbs signature)
  eddsa_sizing u sizing verifier parameters payload_sizing buffer signature signature_space space n
        same_p same_q missing fits full enough =
      let p = signer.protected_parameters in
      let known = length-sig_structure_bytes e cbor p aad payload hp ha hq in
      let same =
        sig_structure-sizes sizing.protected_parameters aad payload_sizing p payload same_p
          same_q in
      let size =
        sign_size c e cbor aad payload_sizing sizing buffer n missing
          (omega (arith, known, same, fits)) in
      let room : ltb (length space) (signed_size c e cbor p aad payload hp ha hq) ≡ false =
        ground (arith, size, same, known, enough) in
      (
        verify_size c e cbor aad payload u (record verifier { auxiliary_buffer = null n })
              parameters signature p n refl (omega (arith, known, fits))
            ∙ sym (size ∙ same),
        sign_with_buffer c e cbor p aad payload hp ha hq
              (record signer { auxiliary_buffer = bytes space }) signature_space space refl refl
            ∙ rw room refl,
        verify_with_buffer c e cbor p aad payload hp ha hq u
              (record verifier { auxiliary_buffer = bytes space }) parameters signature space refl
              full
            ∙ rw room refl,
      )
