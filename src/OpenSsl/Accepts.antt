-- ===== src/OpenSsl/Accepts.antt =====
-- A signature that the OpenSSL adapter makes is one that it accepts.
use t_cose.Common.{
  ℕ, ◌+◌, ◌*◌, ◌≤◌, ◌<◌, ◌≡◌, refl, sym, ap, ◌∙◌, arith, ℤ, pos, false, not, ◌&&◌, Bool-cases, inl,
  inr, List, some, Buf, null, bytes, is_null_ptr, UsefulBuf, ok, err, ◌>>=◌, >>=-ok_elim, fail_if,
  unsupported_signing_alg, sig_fail, if◌then◌else◌, ok-injective, err-ne-ok, Option-cases, null_buf,
}
use t_cose.Algorithm.{is_ecdsa, is_rsassa_pss}
use t_cose.Crypto.{Key}
use t_cose.OpenSsl.{
  OpenSsl, or_error, zeros, ecdsa_key_size, ecdsa_signature_der_to_cose,
  ecdsa_signature_cose_to_der, key_convert,
}
use t_cose.OpenSsl.Der.{SizesNumbers, der_to_cose_room}
use t_cose.OpenSsl.Encode.{TakesNumbers, CopiesBytes, cose_to_der-der_to_cose}
use t_cose.OpenSsl.Evp.{Evp}
use t_cose.OpenSsl.Keys.{ecdsa_key_size_lem}
use t_cose.OpenSsl.Pkey.{
  der_buffer_size, pkey_context, der_to_buffer, cose_of_der, openssl_sign, openssl_verify,
}
use t_cose.OpenSsl.Digest.{openssl_sign_eddsa, openssl_verify_eddsa, openssl_crypto}
use t_cose.OpenSsl.Pairs.{or_error-ok_elim, KeyPair, context_matched}
use t_cose.Roundtrip.{Accepts}

-- What OpenSSL promises of a pair of keys for EdDSA, with enough memory.
pub record EddsaPair (v : Evp) (signing_key verification_key : ℕ) : Type 0 where
  pub fresh : v.MdCtx
  pub new_lem : v.md_ctx_new ≡ some fresh
  pub verify_context : v.MdCtx
  pub verify_init : v.digest_verify_init fresh verification_key ≡ some verify_context
  pub verify-sign :
      (context : v.MdCtx) (buffer tbs signature : Buf)
      → v.digest_sign_init fresh signing_key ≡ some context
      → v.digest_sign context buffer tbs ≡ some signature
      → v.digest_verify verify_context signature tbs ≡ pos 1

module _ (v : Evp) (o : OpenSsl) (sk vk : ℕ) (pair : KeyPair v o sk vk) where
  same_key_size : ecdsa_key_size o vk ≡ ecdsa_key_size o sk
  unfolding ecdsa_key_size
  same_key_size = rw pair.same_bits refl

  cose_to_der_same :
      (copy : ℕ → List ℕ → Buf) (u : UsefulBuf) (b : Buf) (n : ℕ)
      → ecdsa_signature_cose_to_der o copy u vk b n ≡ ecdsa_signature_cose_to_der o copy u sk b n
  unfolding ecdsa_signature_cose_to_der
  cose_to_der_same copy u (null m) n = rw same_key_size refl
  cose_to_der_same copy u (bytes b) n = rw same_key_size refl

  der_to_cose-decoded :
      {C : Type 0} (der : Buf) (space : List ℕ) (cose : Buf)
      → ecdsa_signature_der_to_cose o sk der space ≡ ok cose
      → is_null_ptr cose ≡ false
      → ((es : o.EcdsaSig) → o.d2i_ecdsa_sig der ≡ some es → C)
      → C
  unfolding ecdsa_signature_der_to_cose
  der_to_cose-decoded der space cose h there k = elim (Option-cases (o.d2i_ecdsa_sig der)) [
    | inr (es, decoded) ↦ k es decoded
    | inl bad ↦
        let same = ok-injective null_buf cose (rw bad at h) in absurd (cc (ap is_null_ptr same))
  ]

  short_number : (n : ℕ) → 8 * n < o.pkey_bits sk + 8 → n ≤ ecdsa_key_size o sk
  short_number n h = omega (arith, ecdsa_key_size_lem o sk)

  module _ (u : UsefulBuf) (copy : ℕ → List ℕ → Buf) (sizes : SizesNumbers o)
      (takes : TakesNumbers o) (copies : CopiesBytes copy) where
    -- The DER that the signature is converted back to is the one it was made from.
    converted_back :
        (s t : v.PkeyCtx) (space : List ℕ) (hash der signature : Buf)
        → pair.Matched s t
        → v.pkey_sign s (bytes (zeros der_buffer_size)) hash ≡ some der
        → cose_of_der o u sk (bytes space) der ≡ ok signature
        → ecdsa_signature_cose_to_der o copy u vk signature der_buffer_size ≡ ok der
    unfolding cose_of_der der_to_buffer
    converted_back s t space hash der signature m made h =
        >>=-ok_elim (ecdsa_signature_der_to_cose o sk der space) _ h λ cose converted h0.
          >>=-ok_elim (fail_if (u.is_null cose) sig_fail) _ h0 λ done given h1.
            let same : cose ≡ signature = ok-injective _ _ h1 in
            let there : is_null_ptr cose ≡ false = ground (arith, u.is_null_lem cose) in
            der_to_cose-decoded der space cose converted there λ es decoded.
              let (is_der, fits) =
                pair.unique_der s t (zeros der_buffer_size) hash der es m made decoded in
              let (r_short, s_short) =
                pair.short_numbers s t (zeros der_buffer_size) hash der es m made decoded in
              let r_fits = short_number (o.bn_num_bytes (o.ecdsa_sig_get0 es).0) r_short in
              let s_fits = short_number (o.bn_num_bytes (o.ecdsa_sig_get0 es).1) s_short in
              let room =
                der_to_cose_room o sizes sk der es space decoded r_fits s_fits cose converted
                  there in
              let back =
                cose_to_der-der_to_cose o copy u sizes takes copies sk der es space
                  (pair.encoded es) der_buffer_size decoded r_fits s_fits room (pair.encodes es)
                  (pair.nonempty es) fits in
              cose_to_der_same copy u signature der_buffer_size
              ∙ ap (λ b. ecdsa_signature_cose_to_der o copy u sk b der_buffer_size) (sym same)
              ∙ (rw converted at back)
              ∙ ap ok (sym is_der)

    pss_or_ecdsa :
        (id : ℤ) (s t : v.PkeyCtx) (space : List ℕ) (hash signature : Buf)
        → pair.Matched s t
        → (if is_ecdsa id
            then (or_error (v.pkey_sign s (bytes (zeros der_buffer_size)) hash) sig_fail
                >>= cose_of_der o u sk (bytes space))
            else if is_rsassa_pss id
            then or_error (v.pkey_sign s (bytes space) hash) sig_fail
            else err unsupported_signing_alg)
          ≡ ok signature
        → (der : Buf) × ((if is_ecdsa id
              then ecdsa_signature_cose_to_der o copy u vk signature der_buffer_size
              else if is_rsassa_pss id
              then ok signature
              else err unsupported_signing_alg)
            ≡ ok der)
          × (v.pkey_verify t der hash ≡ pos 1)
    pss_or_ecdsa id s t space hash signature m h = elim (Bool-cases (is_ecdsa id)) [
      | inl ec ↦
          >>=-ok_elim (or_error (v.pkey_sign s (bytes (zeros der_buffer_size)) hash) sig_fail) _
            (rw ec at h)
            λ der made h0.
              or_error-ok_elim (v.pkey_sign s (bytes (zeros der_buffer_size)) hash) sig_fail made
                λ signed. (
                  der,
                  rw ec (converted_back s t space hash der signature m signed h0),
                  pair.verify-sign s t (bytes (zeros der_buffer_size)) hash der m signed,
                )
      | inr other ↦ elim (Bool-cases (is_rsassa_pss id)) [
        | inl pss ↦
            or_error-ok_elim (v.pkey_sign s (bytes space) hash) sig_fail (rw (other, pss) at h)
              λ signed. (
                signature,
                rw (other, pss) refl,
                pair.verify-sign s t (bytes space) hash signature m signed,
              )
        | inr neither ↦ absurd (err-ne-ok _ _ (rw (other, neither) at h))
      ]
    ]

key_convert-handle : (o : OpenSsl) (k : Key) (h : ℕ) → key_convert o k ≡ ok h → h ≡ k.handle
unfolding key_convert
key_convert-handle o k h e = ground arith

module _ (v : Evp) (o : OpenSsl) (u : UsefulBuf) (copy : ℕ → List ℕ → Buf) (sizes : SizesNumbers o)
    (takes : TakesNumbers o) (copies : CopiesBytes copy) (signing_key verification_key : Key)
    (usable : key_convert o verification_key ≡ ok verification_key.handle) where
  -- If the keys form a pair for OpenSSL, which has enough memory, and the verification key is usable, a
  -- signature that t_cose_crypto_sign() makes with the one is accepted by t_cose_crypto_verify() with
  -- the other, for the same algorithm and hash and for any key identifier.
  pub openssl_verify-openssl_sign :
      KeyPair v o signing_key.handle verification_key.handle
      → (id : ℤ) (kid hash signature : Buf) (space : List ℕ)
      → openssl_sign v o u id signing_key hash (bytes space) ≡ ok signature
      → openssl_verify v o u copy id verification_key kid hash signature ≡ ok tt
  unfolding openssl_sign openssl_verify
  openssl_verify-openssl_sign pair id kid hash signature space h =
      >>=-ok_elim (fail_if (not (is_ecdsa id) && not (is_rsassa_pss id)) unsupported_signing_alg) _
        h
        λ t0 known h0. >>=-ok_elim (key_convert o signing_key) _ h0 λ sk converted h1.
          let same = key_convert-handle o signing_key sk converted in
          >>=-ok_elim (pkey_context v v.pkey_sign_init sk id) _ h1 λ s set_up h2.
            let (t, accepting, m) =
              context_matched v o signing_key.handle verification_key.handle pair id s
                (rw same at set_up) in
            let (der, taken, accepted) =
              pss_or_ecdsa v o signing_key.handle verification_key.handle pair u copy sizes takes
                copies id s t space hash signature m (rw same at h2) in
            rw (known, usable, taken, accepting, accepted) refl

  openssl_verify_eddsa-openssl_sign_eddsa :
      EddsaPair v signing_key.handle verification_key.handle
      → (kid tbs signature : Buf) (space : List ℕ)
      → openssl_sign_eddsa v o signing_key tbs (bytes space) ≡ ok signature
      → openssl_verify_eddsa v o verification_key kid tbs signature ≡ ok tt
  unfolding openssl_sign_eddsa openssl_verify_eddsa
  openssl_verify_eddsa-openssl_sign_eddsa pair kid tbs signature space h =
      >>=-ok_elim (key_convert o signing_key) _ h λ sk converted h0.
        let same = key_convert-handle o signing_key sk converted in
        >>=-ok_elim (or_error (v.digest_sign_init pair.fresh sk) sig_fail) _ (rw pair.new_lem at h0)
          λ context begun h1.
            or_error-ok_elim (v.digest_sign_init pair.fresh sk) sig_fail begun λ started.
              or_error-ok_elim (v.digest_sign context (bytes space) tbs) sig_fail h1 λ signed.
                rw
                  (
                    usable,
                    pair.new_lem,
                    pair.verify_init,
                    pair.verify-sign context (bytes space) tbs signature (rw same at started)
                        signed,
                  )
                  refl

  -- The adapter keeps the promise of a signature scheme.
  pub openssl_crypto-Accepts :
      KeyPair v o signing_key.handle verification_key.handle
      → EddsaPair v signing_key.handle verification_key.handle
      → Accepts (openssl_crypto v o u copy) signing_key verification_key
  openssl_crypto-Accepts pair eddsa = record {
    verify-sign = openssl_verify-openssl_sign pair;
    verify_eddsa-sign_eddsa = openssl_verify_eddsa-openssl_sign_eddsa eddsa;
  }
