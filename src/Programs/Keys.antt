-- ===== src/Programs/Keys.antt =====
-- make_psa_ecdsa_key_pair() and make_ossl_key_pair() of the example programs, over the functions of PSA
-- and of OpenSSL that they call.
use t_cose.Common.{
  ℕ, ℤ, eq_ℤ, List, [], ◌∷◌, Option, none, some, if◌then◌else◌, Err, Result, ok, err, fail,
  unsupported_signing_alg, insufficient_memory, not, ◌>>=◌, ◌>>◌, fail_if,
}
use t_cose.Algorithm.{
  cose_algorithm_es256, cose_algorithm_es384, cose_algorithm_es512, cose_algorithm_eddsa,
}
use t_cose.Crypto.{Key, lib_psa, lib_openssl}
use t_cose.Psa.{Psa, PsaStatus, is_psa_success}

-- PRIVATE_KEY_prime256v1, PRIVATE_KEY_secp384r1 and PRIVATE_KEY_secp521r1
abbrev private_key_256 : List ℕ
private_key_256 =
    0xf1 ∷ 0xb7 ∷ 0x14 ∷ 0x23 ∷ 0x43 ∷ 0x40 ∷ 0x2f ∷ 0x3b ∷ 0x5d ∷ 0xe7 ∷ 0x31 ∷ 0x5e ∷ 0xa8 ∷ 0x94
    ∷ 0xf9 ∷ 0xda ∷ 0x5c ∷ 0xf5 ∷ 0x03 ∷ 0xff ∷ 0x79 ∷ 0x38 ∷ 0xa3 ∷ 0x7c ∷ 0xa1 ∷ 0x4e ∷ 0xb0
    ∷ 0x32 ∷ 0x86 ∷ 0x98 ∷ 0x84 ∷ 0x50 ∷ []

abbrev private_key_384 : List ℕ
private_key_384 =
    0x03 ∷ 0xdf ∷ 0x14 ∷ 0xf4 ∷ 0xb8 ∷ 0xa4 ∷ 0x3f ∷ 0xd8 ∷ 0xab ∷ 0x75 ∷ 0xa6 ∷ 0x04 ∷ 0x6b ∷ 0xd2
    ∷ 0xb5 ∷ 0xea ∷ 0xa6 ∷ 0xfd ∷ 0x10 ∷ 0xb2 ∷ 0xb2 ∷ 0x03 ∷ 0xfd ∷ 0x8a ∷ 0x78 ∷ 0xd7 ∷ 0x91
    ∷ 0x6d ∷ 0xe2 ∷ 0x0a ∷ 0xa2 ∷ 0x41 ∷ 0xeb ∷ 0x37 ∷ 0xec ∷ 0x3d ∷ 0x4c ∷ 0x69 ∷ 0x3d ∷ 0x23
    ∷ 0xba ∷ 0x2b ∷ 0x4f ∷ 0x6e ∷ 0x5b ∷ 0x66 ∷ 0xf5 ∷ 0x7f ∷ []

abbrev private_key_521 : List ℕ
private_key_521 =
    0x00 ∷ 0x45 ∷ 0xd2 ∷ 0xd1 ∷ 0x43 ∷ 0x94 ∷ 0x35 ∷ 0xfa ∷ 0xb3 ∷ 0x33 ∷ 0xb1 ∷ 0xc6 ∷ 0xc8 ∷ 0xb5
    ∷ 0x34 ∷ 0xf0 ∷ 0x96 ∷ 0x93 ∷ 0x96 ∷ 0xad ∷ 0x64 ∷ 0xd5 ∷ 0xf5 ∷ 0x35 ∷ 0xd6 ∷ 0x5f ∷ 0x68
    ∷ 0xf2 ∷ 0xa1 ∷ 0x60 ∷ 0x65 ∷ 0x90 ∷ 0xbb ∷ 0x15 ∷ 0xfd ∷ 0x53 ∷ 0x22 ∷ 0xfc ∷ 0x97 ∷ 0xa4
    ∷ 0x16 ∷ 0xc3 ∷ 0x95 ∷ 0x74 ∷ 0x5e ∷ 0x72 ∷ 0xc7 ∷ 0xc8 ∷ 0x51 ∷ 0x98 ∷ 0xc0 ∷ 0x92 ∷ 0x1a
    ∷ 0xb3 ∷ 0xb8 ∷ 0xe9 ∷ 0x2d ∷ 0xd9 ∷ 0x01 ∷ 0xb5 ∷ 0xa4 ∷ 0x21 ∷ 0x59 ∷ 0xad ∷ 0xac ∷ 0x6d ∷ []

-- The functions of <psa/crypto.h> for keys; the flags and the type of a key are numbers.
pub record PsaKeys : Type 1 where
  pub crypto_init : PsaStatus
  pub Attributes : Type 0
  pub attributes_init : Attributes
  pub sign_and_verify_hash : ℕ
  pub ecc_key_pair_secp_r1 : ℕ
  pub set_usage_flags : ℕ → Attributes → Attributes
  pub set_algorithm : ℕ → Attributes → Attributes
  pub set_type : ℕ → Attributes → Attributes
  pub import_key : Attributes → List ℕ → PsaStatus × ℕ

-- The private key and `key_alg` for the algorithm.
abbrev psa_key_of : Psa → ℤ → Result (List ℕ × ℕ)
psa_key_of p id =
    if eq_ℤ id cose_algorithm_es256
    then ok (private_key_256, p.alg_ecdsa p.alg_sha_256)
    else if eq_ℤ id cose_algorithm_es384
    then ok (private_key_384, p.alg_ecdsa p.alg_sha_384)
    else if eq_ℤ id cose_algorithm_es512
    then ok (private_key_521, p.alg_ecdsa p.alg_sha_512)
    else err unsupported_signing_alg

unfoldable pub make_psa_ecdsa_key_pair : Psa → PsaKeys → ℤ → Result Key
make_psa_ecdsa_key_pair p k cose_algorithm_id = do
  (private_key, key_alg) ← psa_key_of p cose_algorithm_id
  fail_if (not (is_psa_success k.crypto_init)) fail
  let with_usage = k.set_usage_flags k.sign_and_verify_hash k.attributes_init
  let attributes = k.set_type k.ecc_key_pair_secp_r1 (k.set_algorithm key_alg with_usage)
  let (status, handle) = k.import_key attributes private_key
  fail_if (not (is_psa_success status)) fail
  ok (record { crypto_lib = lib_psa; handle = handle })

-- The functions of OpenSSL that make a key. A call that succeeds, or a pointer that is not NULL, is
-- `some`; EVP_PKEY_keygen() fills the key that EVP_PKEY_new() allocates.
pub record EvpKeygen : Type 1 where
  pub Ctx : Type 0
  pub pkey_ec : ℕ
  pub pkey_ed25519 : ℕ
  pub nid_prime256v1 : ℕ
  pub nid_secp384r1 : ℕ
  pub nid_secp521r1 : ℕ
  pub ctx_new_id : ℕ → Option Ctx
  pub keygen_init : Ctx → Option Ctx
  pub set_ec_paramgen_curve_nid : ℕ → Ctx → Option Ctx
  pub keygen : Ctx → Option ℕ

abbrev or_fail : {A : Type 0} → Err → Option A → Result A
or_fail x none = err x
or_fail x (some a) = ok a

-- The curve of an EC key, or none for Ed25519.
abbrev curve_of : EvpKeygen → ℤ → Result (Option ℕ)
curve_of k id =
    if eq_ℤ id cose_algorithm_es256
    then ok (some k.nid_prime256v1)
    else if eq_ℤ id cose_algorithm_es384
    then ok (some k.nid_secp384r1)
    else if eq_ℤ id cose_algorithm_es512
    then ok (some k.nid_secp521r1)
    else if eq_ℤ id cose_algorithm_eddsa
    then ok none
    else err unsupported_signing_alg

abbrev key_type_of : EvpKeygen → Option ℕ → ℕ
key_type_of k (some nid) = k.pkey_ec
key_type_of k none = k.pkey_ed25519

abbrev with_curve : (k : EvpKeygen) → Option ℕ → k.Ctx → Option k.Ctx
with_curve k (some nid) ctx = k.set_ec_paramgen_curve_nid nid ctx
with_curve k none ctx = some ctx

unfoldable pub make_ossl_key_pair : EvpKeygen → ℤ → Result Key
make_ossl_key_pair k cose_algorithm_id = do
  curve ← curve_of k cose_algorithm_id
  ctx ← or_fail insufficient_memory (k.ctx_new_id (key_type_of k curve))
  ready ← or_fail fail (k.keygen_init ctx)
  configured ← or_fail fail (with_curve k curve ready)
  handle ← or_fail fail (k.keygen configured)
  ok (record { crypto_lib = lib_openssl; handle = handle })
