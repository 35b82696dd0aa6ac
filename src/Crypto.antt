-- ===== src/Crypto.antt =====
-- src/t_cose_crypto.h: the interface between t_cose and a cryptographic library. Each file of
-- crypto_adapters/ is one value of it.
use t_cose.Common.{ℕ, ℤ, ◌≡◌, refl, ◌<◌, Bool, List, ◌++◌, length, Buf, null, bytes, Result}

-- `enum t_cose_crypto_lib_t` and `struct t_cose_key`, its union as one number.
pub data CryptoLib : Type 0 where
  lib_unidentified lib_openssl lib_psa : CryptoLib

pub record Key : Type 0 where
  pub crypto_lib : CryptoLib
  pub handle : ℕ

-- T_COSE_MAX_ECDSA_SIG_SIZE
abbrev pub max_ecdsa_sig_size : ℕ
max_ecdsa_sig_size = 132

pub record Crypto : Type 1 where
  pub HashCtx : Type 0
  pub is_algorithm_supported : ℤ → Bool
  pub hash_start : ℤ → Result HashCtx
  pub hash_update : HashCtx → Buf → HashCtx
  -- With a buffer of so many bytes for the hash.
  pub hash_finish : HashCtx → ℕ → Result Buf
  pub sig_size : ℤ → Key → Result ℕ
  -- The last argument is the buffer for the signature.
  pub sign : ℤ → Key → Buf → Buf → Result Buf
  pub sign_eddsa : Key → Buf → Buf → Result Buf
  -- Key, kid, the hash or the bytes that are signed, and the signature.
  pub verify : ℤ → Key → Buf → Buf → Buf → Result (Unit {0})
  pub verify_eddsa : Key → Buf → Buf → Buf → Result (Unit {0})

-- What t_cose_crypto_hash_update() documents: it hashes a stream, and a NULL buffer adds nothing.
pub record HashesStream (c : Crypto) : Type 1 where
  pub update-append :
      (h : c.HashCtx) (a b : List ℕ)
      → c.hash_update (c.hash_update h (bytes a)) (bytes b) ≡ c.hash_update h (bytes (a ++ b))
  pub update-null : (h : c.HashCtx) (n : ℕ) → c.hash_update h (null n) ≡ h

-- The same for an adapter that takes only so many bytes at a time: `absorb` is the hash of a stream, and
-- a chunk below the limit goes into it.
pub record HashesChunks (c : Crypto) (limit : ℕ) : Type 1 where
  pub absorb : c.HashCtx → List ℕ → c.HashCtx
  pub absorb-append : (h : c.HashCtx) (a b : List ℕ) → absorb (absorb h a) b ≡ absorb h (a ++ b)
  pub update-absorb :
      (h : c.HashCtx) (b : List ℕ) → length b < limit → c.hash_update h (bytes b) ≡ absorb h b
  pub update-null : (h : c.HashCtx) (n : ℕ) → c.hash_update h (null n) ≡ h

abbrev pub HashesStream-chunks : (c : Crypto) (limit : ℕ) → HashesStream c → HashesChunks c limit
HashesStream-chunks c limit stream = record {
  absorb = λ h b. c.hash_update h (bytes b);
  absorb-append = stream.update-append;
  update-absorb = λ h b l. refl;
  update-null = stream.update-null;
}

-- t_cose_is_algorithm_supported() of src/t_cose_util.c
abbrev pub t_cose_is_algorithm_supported : Crypto → ℤ → Bool
t_cose_is_algorithm_supported c = c.is_algorithm_supported
