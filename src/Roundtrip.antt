-- ===== src/Roundtrip.antt =====
-- A signature that t_cose_sign1_sign.c makes is accepted by t_cose_sign1_verify.c.
pub mod Sent
pub mod Reads
pub mod Message
pub mod Sizing
use t_cose.Common.{
  ℕ, ◌≤◌, ◌<◌, ltb, ltb→le, ◌≡◌, ap, ◌∙◌, Bool, true, false, Bool-cases, ◌⊎◌, inl, inr, ℤ, pos,
  eq_ℤ, List, length, if◌then◌else◌, arith, Buf, bytes, is_null_ptr, UsefulBuf, Result, ok, err,
  fault, >>=-ok_elim, fail_if, sig_buffer_size, need_auxiliary_buffer,
}
use t_cose.Algorithm.{cose_algorithm_eddsa}
use t_cose.Crypto.{Crypto, Key}
use t_cose.Qcbor.Encoder.{Encoder}
use t_cose.ShortCircuit.{short_circuit_kid, short_circuit_sig_size, short_circuit_sign}
use t_cose.ShortCircuit.Verify.{short_circuit_verify-sign}
use t_cose.Sign.Context.{SignCtx, opt_short_circuit_sig}
use t_cose.Sign.Message.{make_signature}
use t_cose.Sign.Signature.{sign_short_circuit, sign_default, sign_eddsa, sign_eddsa_tbs}
use t_cose.Tbs.{create_tbs, create_tbs_hash, max_hash_size}
use t_cose.Verify.Context.{VerifyCtx, has_flag, opt_allow_short_circuit}
use t_cose.Verify.Message.{Decoded, check_signature}
use t_cose.Verify.Signature.{
  name_buffer, verify_short_circuit, verify_default, verify_eddsa, verify_eddsa_tbs,
}

-- The promise of a signature scheme for a pair of keys: what one key signs, the other accepts.
pub record Accepts (c : Crypto) (signing_key verification_key : Key) : Type 0 where
  pub verify-sign :
      (id : ℤ) (kid hash signature : Buf) (space : List ℕ)
      → c.sign id signing_key hash (bytes space) ≡ ok signature
      → c.verify id verification_key kid hash signature ≡ ok tt
  pub verify_eddsa-sign_eddsa :
      (kid tbs signature : Buf) (space : List ℕ)
      → c.sign_eddsa signing_key tbs (bytes space) ≡ ok signature
      → c.verify_eddsa verification_key kid tbs signature ≡ ok tt

-- The hash fits the signature that repeats it.
pub record HashFits (c : Crypto) (e : Encoder) (id : ℤ) (protected_parameters aad payload : Buf)
    : Type 0 where
  pub hash : List ℕ
  pub size : ℕ
  pub hashed :
      create_tbs_hash c e id protected_parameters aad payload max_hash_size ≡ ok (bytes hash)
  pub sized : short_circuit_sig_size id ≡ ok size
  pub nonempty : 0 < length hash
  pub fits : length hash ≤ size

-- The decoded message is what was signed, and the verifier is set up to match the signer.
pub record Matches (c : Crypto) (u : UsefulBuf) (me : SignCtx) (payload signature : Buf)
    (verifier : VerifyCtx) (m : Decoded) : Type 0 where
  pub algorithm : m.parameters.cose_algorithm_id ≡ me.cose_algorithm_id
  pub protected : m.protected_parameters ≡ me.protected_parameters
  pub same_payload : m.payload ≡ payload
  pub same_signature : m.signature ≡ signature
  pub kid :
      eq_ℤ (u.compare m.parameters.kid short_circuit_kid) (pos 0)
      ≡ has_flag me.option_flags opt_short_circuit_sig
  pub allowed :
      (has_flag me.option_flags opt_short_circuit_sig ≡ false)
      ⊎ (has_flag verifier.option_flags opt_allow_short_circuit ≡ true)
  pub buffer : verifier.auxiliary_buffer ≡ me.auxiliary_buffer
  pub keys : Accepts c me.signing_key verifier.verification_key

-- Signing refuses a buffer that is shorter than the signature.
short_circuit_sign_room :
    (id : ℤ) (hash space : List ℕ) (size : ℕ) (signature : Buf)
    → short_circuit_sig_size id ≡ ok size
    → short_circuit_sign id (bytes hash) (bytes space) ≡ ok signature
    → size ≤ length space
unfolding short_circuit_sign
short_circuit_sign_room id hash space size signature sized h =
    >>=-ok_elim (fail_if (ltb (length space) size) sig_buffer_size) _ (rw sized at h)
      λ t room rest. ground (arith, ltb→le (length space) size)

-- A signature is made only with an auxiliary buffer.
eddsa_signed :
    (no_buffer : Bool) (r : Result Buf) (signature : Buf)
    → (if no_buffer then err need_auxiliary_buffer else r) ≡ ok signature
    → (no_buffer ≡ false) × (r ≡ ok signature)
eddsa_signed no_buffer r signature h = ground arith

module _ (c : Crypto) (e : Encoder) (u : UsefulBuf) (me : SignCtx) (aad payload : Buf)
    (space : List ℕ) (verifier : VerifyCtx) (m : Decoded) (signature : Buf)
    (same : Matches c u me payload signature verifier m) where
  short_circuit_roundtrip :
      has_flag me.option_flags opt_short_circuit_sig ≡ true
      → HashFits c e me.cose_algorithm_id me.protected_parameters aad payload
      → sign_short_circuit c e me aad payload (bytes space) ≡ ok signature
      → verify_short_circuit c e u verifier m.parameters m.signature m.protected_parameters aad
          m.payload
        ≡ ok tt
  unfolding sign_short_circuit verify_short_circuit
  short_circuit_roundtrip short hash h =
      let allowed : has_flag verifier.option_flags opt_allow_short_circuit ≡ true =
        ground (arith, short, same.allowed) in
      let signed = rw hash.hashed at h in
      let room =
        short_circuit_sign_room me.cose_algorithm_id hash.hash space hash.size signature hash.sized
          signed in
      let accepted =
        short_circuit_verify-sign u me.cose_algorithm_id hash.hash space hash.nonempty hash.size
          signature hash.sized hash.fits room signed in
      rw
        (
          same.algorithm, same.protected, same.same_payload, same.same_signature, allowed,
          hash.hashed, accepted,
        )
        (ground arith)

  default_roundtrip :
      sign_default c e me aad payload (bytes space) ≡ ok signature
      → verify_default c e u verifier m.parameters m.signature m.protected_parameters aad m.payload
        ≡ ok tt
  unfolding sign_default verify_default
  default_roundtrip h =
      >>=-ok_elim
        (create_tbs_hash c e me.cose_algorithm_id me.protected_parameters aad payload max_hash_size)
        _ h
        λ hash hashed signed.
          let accepted =
            same.keys.verify-sign me.cose_algorithm_id m.parameters.kid hash signature space
              signed in
          rw
            (
              same.algorithm, same.protected, same.same_payload, same.same_signature, hashed,
              accepted,
            )
            (ground arith)

  eddsa_tbs_roundtrip :
      (made : Result Buf) (me' : SignCtx)
      → sign_eddsa_tbs c e me aad payload (bytes space) (name_buffer made) ≡ (me', ok signature)
      → (verify_eddsa_tbs c e u verifier m.parameters m.signature m.protected_parameters aad
          m.payload
          (name_buffer made)).1
        ≡ ok tt
  unfolding sign_eddsa_tbs verify_eddsa_tbs
  eddsa_tbs_roundtrip (ok tbs) me' h =
      let (aux, signed) =
        eddsa_signed (is_null_ptr me.auxiliary_buffer)
          (c.sign_eddsa me.signing_key tbs (bytes space)) signature (ap (λ r. r.1) h) in
      rw
        (
          same.same_signature,
          same.buffer,
          aux,
          same.keys.verify_eddsa-sign_eddsa m.parameters.kid tbs signature space signed,
        )
        (ground arith)
  eddsa_tbs_roundtrip (err x) me' h = absurd (ground arith)
  eddsa_tbs_roundtrip fault me' h = absurd (ground arith)

  same_tbs :
      create_tbs e m.protected_parameters aad m.payload verifier.auxiliary_buffer
      ≡ create_tbs e me.protected_parameters aad payload me.auxiliary_buffer
  same_tbs =
      ap (λ p. create_tbs e p aad m.payload verifier.auxiliary_buffer) same.protected
      ∙ ap (λ p. create_tbs e me.protected_parameters aad p verifier.auxiliary_buffer)
          same.same_payload
      ∙ ap (λ b. create_tbs e me.protected_parameters aad payload b) same.buffer

  eddsa_roundtrip :
      (me' : SignCtx)
      → sign_eddsa c e me aad payload (bytes space) ≡ (me', ok signature)
      → (verify_eddsa c e u verifier m.parameters m.signature m.protected_parameters aad
          m.payload).1
        ≡ ok tt
  unfolding sign_eddsa verify_eddsa
  eddsa_roundtrip me' h = rw same_tbs (
      eddsa_tbs_roundtrip (create_tbs e me.protected_parameters aad payload me.auxiliary_buffer) me'
        h)

  -- The signature that make_signature() writes into a buffer is accepted, whichever way it is made, by
  -- a verifier with the matching key and the same auxiliary buffer that decoded the same
  -- algorithm, protected parameters, payload and signature, and finds the short-circuit key identifier
  -- exactly if the signer used that option. For a short-circuit signature the verifier must allow it,
  -- and the hash must not be empty or longer than the signature.
  pub check_signature-make_signature :
      (me' : SignCtx)
      → (has_flag me.option_flags opt_short_circuit_sig ≡ false)
        ⊎ HashFits c e me.cose_algorithm_id me.protected_parameters aad payload
      → make_signature c e me aad payload (bytes space) ≡ (me', ok signature)
      → (check_signature u c e verifier m aad).1 ≡ ok tt
  unfolding make_signature check_signature
  check_signature-make_signature me' hash h =
      elim (Bool-cases (has_flag me.option_flags opt_short_circuit_sig)) [
        | inl short ↦ elim hash [
          | inl other ↦ absurd (ground arith)
          | inr fits ↦
              rw (same.kid, short)
                (short_circuit_roundtrip short fits (ap (λ r. r.1) (rw short at h)))
        ]
        | inr other ↦ elim (Bool-cases (eq_ℤ me.cose_algorithm_id cose_algorithm_eddsa)) [
          | inl eddsa ↦
              rw (same.kid, other, ap (λ z. eq_ℤ z cose_algorithm_eddsa) same.algorithm, eddsa)
                (eddsa_roundtrip me' (rw (other, eddsa) at h))
          | inr default ↦
              rw (same.kid, other, ap (λ z. eq_ℤ z cose_algorithm_eddsa) same.algorithm, default)
                (default_roundtrip (ap (λ r. r.1) (rw (other, default) at h)))
        ]
      ]
