-- ===== src/OpenSsl/Pairs.antt =====
-- Two contexts of EVP_PKEY, for the two keys of a pair, that the OpenSSL adapter sets up alike.
use t_cose.Common.{
  ℕ, ◌+◌, ◌*◌, ◌≤◌, ◌<◌, ◌≡◌, refl, ap, ℤ, pos, Bool-cases, inl, inr, List, length, Option, some,
  none, Buf, bytes, Err, ok, >>=-ok_elim, insufficient_memory, sig_fail, ok-injective, err-ne-ok,
}
use t_cose.Algorithm.{is_ecdsa, is_rsassa_pss}
use t_cose.OpenSsl.{OpenSsl, or_error}
use t_cose.OpenSsl.Evp.{Evp}
use t_cose.OpenSsl.Pkey.{pss_md, configure_pkey_context, pkey_context}

pub or_error-ok_elim :
    {A C : Type 0} (x : Option A) (e : Err) {a : A} → or_error x e ≡ ok a → (x ≡ some a → C) → C
or_error-ok_elim none e h k = absurd (cc)
or_error-ok_elim (some b) e h k = k (ap some (ok-injective b _ h))

-- The functions that set a parameter of a context.
pub data IsSetter (v : Evp) : (v.PkeyCtx → Option v.PkeyCtx) → Type 0 where
  padding : (n : ℕ) → IsSetter v (v.set_rsa_padding n)
  signature_md : (md : v.Md) → IsSetter v (v.set_signature_md md)
  mgf1_md : (md : v.Md) → IsSetter v (v.set_rsa_mgf1_md md)
  saltlen : (n : ℤ) → IsSetter v (v.set_rsa_pss_saltlen n)

-- What OpenSSL promises of a pair of keys. `Matched` contexts are set up alike, one to sign and one to
-- verify. The DER of an ECDSA signature is unique, and its numbers are no longer than the key.
pub record KeyPair (v : Evp) (o : OpenSsl) (signing_key verification_key : ℕ) : Type 1 where
  pub Matched : v.PkeyCtx → v.PkeyCtx → Type 0
  pub verify_context : v.PkeyCtx
  pub verify_context_new : v.pkey_ctx_new verification_key ≡ some verify_context
  pub verify_started : v.PkeyCtx
  pub verify_init : v.pkey_verify_init verify_context ≡ some verify_started
  pub started :
      (fresh context : v.PkeyCtx)
      → v.pkey_ctx_new signing_key ≡ some fresh
      → v.pkey_sign_init fresh ≡ some context
      → Matched context verify_started
  pub set_parameter :
      (set : v.PkeyCtx → Option v.PkeyCtx)
      → IsSetter v set
      → (s t s' : v.PkeyCtx) → Matched s t
      → set s ≡ some s'
      → (t' : v.PkeyCtx) × (set t ≡ some t') × Matched s' t'
  pub verify-sign :
      (s t : v.PkeyCtx) (buffer hash signature : Buf)
      → Matched s t
      → v.pkey_sign s buffer hash ≡ some signature
      → v.pkey_verify t signature hash ≡ pos 1
  pub same_bits : o.pkey_bits verification_key ≡ o.pkey_bits signing_key
  pub encoded : o.EcdsaSig → List ℕ
  pub encodes : (es : o.EcdsaSig) → o.i2d_ecdsa_sig es ≡ some (encoded es)
  pub nonempty : (es : o.EcdsaSig) → 0 < length (encoded es)
  pub unique_der :
      (s t : v.PkeyCtx) (space : List ℕ) (hash signature : Buf) (es : o.EcdsaSig)
      → Matched s t
      → v.pkey_sign s (bytes space) hash ≡ some signature
      → o.d2i_ecdsa_sig signature ≡ some es
      → (signature ≡ bytes (encoded es)) × (length (encoded es) ≤ length space)
  pub short_numbers :
      (s t : v.PkeyCtx) (space : List ℕ) (hash signature : Buf) (es : o.EcdsaSig)
      → Matched s t
      → v.pkey_sign s (bytes space) hash ≡ some signature
      → o.d2i_ecdsa_sig signature ≡ some es
      → (8 * o.bn_num_bytes (o.ecdsa_sig_get0 es).0 < o.pkey_bits signing_key + 8)
        × (8 * o.bn_num_bytes (o.ecdsa_sig_get0 es).1 < o.pkey_bits signing_key + 8)

module _ (v : Evp) (o : OpenSsl) (sk vk : ℕ) (pair : KeyPair v o sk vk) where
  set_matched :
      (set : v.PkeyCtx → Option v.PkeyCtx)
      → IsSetter v set
      → (s t s' : v.PkeyCtx) → pair.Matched s t
      → or_error (set s) sig_fail ≡ ok s'
      → (t' : v.PkeyCtx) × (or_error (set t) sig_fail ≡ ok t') × pair.Matched s' t'
  set_matched set known s t s' m h = or_error-ok_elim (set s) sig_fail h λ done.
      let (t', same, m') = pair.set_parameter set known s t s' m done in (t', rw same refl, m')

  configure_matched :
      (id : ℤ) (s t s' : v.PkeyCtx)
      → pair.Matched s t
      → configure_pkey_context v s id ≡ ok s'
      → (t' : v.PkeyCtx) × (configure_pkey_context v t id ≡ ok t') × pair.Matched s' t'
  unfolding configure_pkey_context
  configure_matched id s t s' m h = elim (Bool-cases (is_ecdsa id)) [
    | inl ec ↦ let same : s ≡ s' = ok-injective s s' (rw ec at h) in (t, rw ec refl, rw (← same) m)
    | inr other ↦ elim (Bool-cases (is_rsassa_pss id)) [
      | inr none_of_them ↦ absurd (err-ne-ok _ _ (rw (other, none_of_them) at h))
      | inl pss ↦ >>=-ok_elim (pss_md v id) _ (rw (other, pss) at h) λ md known h0.
          >>=-ok_elim (or_error (v.set_rsa_padding v.rsa_pkcs1_pss_padding s) sig_fail) _ h0
            λ s1 e1 h1. >>=-ok_elim (or_error (v.set_signature_md md s1) sig_fail) _ h1 λ s2 e2 h2.
              >>=-ok_elim (or_error (v.set_rsa_mgf1_md md s2) sig_fail) _ h2 λ s3 e3 h3.
                let (t1, f1, m1) =
                  set_matched _ (IsSetter.padding v.rsa_pkcs1_pss_padding) s t s1 m e1 in
                let (t2, f2, m2) = set_matched _ (IsSetter.signature_md md) s1 t1 s2 m1 e2 in
                let (t3, f3, m3) = set_matched _ (IsSetter.mgf1_md md) s2 t2 s3 m2 e3 in
                let (t4, f4, m4) =
                  set_matched _ (IsSetter.saltlen v.rsa_pss_saltlen_digest) s3 t3 s' m3 h3 in
                (t4, rw (other, pss, known, f1, f2, f3) f4, m4)
    ]
  ]

  pub context_matched :
      (id : ℤ) (s : v.PkeyCtx)
      → pkey_context v v.pkey_sign_init sk id ≡ ok s
      → (t : v.PkeyCtx) × (pkey_context v v.pkey_verify_init vk id ≡ ok t) × pair.Matched s t
  unfolding pkey_context
  context_matched id s h =
      >>=-ok_elim (or_error (v.pkey_ctx_new sk) insufficient_memory) _ h λ s0 e0 h0.
        >>=-ok_elim (or_error (v.pkey_sign_init s0) sig_fail) _ h0 λ s1 e1 h1.
          or_error-ok_elim (v.pkey_ctx_new sk) insufficient_memory e0 λ made.
            or_error-ok_elim (v.pkey_sign_init s0) sig_fail e1 λ begun.
              let (t, set_up, m) =
                configure_matched id s1 pair.verify_started s (pair.started s0 s1 made begun) h1 in
              (t, rw (pair.verify_context_new, pair.verify_init) set_up, m)
