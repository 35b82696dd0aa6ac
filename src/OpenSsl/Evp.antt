-- ===== src/OpenSsl/Evp.antt =====
-- The functions of OpenSSL's EVP interface that crypto_adapters/t_cose_openssl_crypto.c calls. What is
-- freed is not modelled.
use t_cose.Common.{ℕ, ℤ, List, Buf, Option}

-- A call that returns 1, or a pointer that is not NULL, is `some`. EVP_PKEY_verify() and
-- EVP_DigestVerify() return their number, and EVP_DigestUpdate() and EVP_DigestFinal_ex() 0 or 1.
pub record Evp : Type 1 where
  pub PkeyCtx : Type 0
  pub Md : Type 0
  pub sha256 : Md
  pub sha384 : Md
  pub sha512 : Md
  pub rsa_pkcs1_pss_padding : ℕ
  pub rsa_pss_saltlen_digest : ℤ
  pub pkey_ctx_new : ℕ → Option PkeyCtx
  pub pkey_sign_init : PkeyCtx → Option PkeyCtx
  pub pkey_verify_init : PkeyCtx → Option PkeyCtx
  pub set_rsa_padding : ℕ → PkeyCtx → Option PkeyCtx
  pub set_signature_md : Md → PkeyCtx → Option PkeyCtx
  pub set_rsa_mgf1_md : Md → PkeyCtx → Option PkeyCtx
  pub set_rsa_pss_saltlen : ℤ → PkeyCtx → Option PkeyCtx
  -- The buffer for the signature, then the hash.
  pub pkey_sign : PkeyCtx → Buf → Buf → Option Buf
  -- The signature, then the hash.
  pub pkey_verify : PkeyCtx → Buf → Buf → ℤ
  pub MdCtx : Type 0
  pub nid_sha256 : ℕ
  pub nid_sha384 : ℕ
  pub nid_sha512 : ℕ
  pub get_digestbynid : ℕ → Option Md
  pub md_ctx_new : Option MdCtx
  pub digest_init : MdCtx → Md → Option MdCtx
  pub digest_update : MdCtx → List ℕ → ℕ × MdCtx
  pub digest_final : MdCtx → ℕ → ℕ × List ℕ
  pub digest_sign_init : MdCtx → ℕ → Option MdCtx
  pub digest_sign : MdCtx → Buf → Buf → Option Buf
  pub digest_verify_init : MdCtx → ℕ → Option MdCtx
  pub digest_verify : MdCtx → Buf → Buf → ℤ
