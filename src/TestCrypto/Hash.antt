-- ===== src/TestCrypto/Hash.antt =====
-- The hash that create_tbs_hash() gets from the test adapter.
use mathlib.Core.Option.{map}
use t_cose.Common.{
  ℕ, ◌≡◌, refl, ap, ◌∙◌, ◌≤◌, ◌<◌, ◌^◌, arith, le→ltb, ℤ, length, Option, none, some, List, ◌++◌,
  Buf, len, null, bytes, ok,
}
use t_cose.Algorithm.{hash_alg_id_from_sig_alg_id, cose_algorithm_sha_256}
use t_cose.Crypto.{HashesChunks}
use t_cose.Qcbor.Encoder.{Encoder, EncodesCbor}
use t_cose.Sha256.{Sha256Ctx}
use t_cose.Sha256.Digest.{sha256_final-absorb}
use t_cose.Sha256.Fips.{digest}
use t_cose.Sha256.Update.{absorb, absorb-append, sha256_update-absorb}
use t_cose.Tbs.{create_tbs_hash}
use t_cose.Tbs.Laws.{IsByteString, sig_structure_bytes, create_tbs_hash_chunks}
use t_cose.TestCrypto.{test_crypto, test_hash_start, test_hash_update, test_hash_finish}

abbrev absorb_all : Option Sha256Ctx → List ℕ → Option Sha256Ctx
absorb_all h b = map (λ ctx. absorb ctx b) h

absorb_all-append :
    (h : Option Sha256Ctx) (a b : List ℕ) → absorb_all (absorb_all h a) b ≡ absorb_all h (a ++ b)
absorb_all-append none a b = refl
absorb_all-append (some ctx) a b = ap some (absorb-append a b ctx)

test_hash_update-absorb_all :
    (h : Option Sha256Ctx) (b : List ℕ)
    → length b < 2 ^ 32
    → test_hash_update h (bytes b) ≡ absorb_all h b
unfolding test_hash_update
test_hash_update-absorb_all none b l = refl
test_hash_update-absorb_all (some ctx) b l = sha256_update-absorb b ctx l

test_hash_update-null : (h : Option Sha256Ctx) (n : ℕ) → test_hash_update h (null n) ≡ h
unfolding test_hash_update
test_hash_update-null none n = refl
test_hash_update-null (some ctx) n = refl

abbrev test_crypto-HashesChunks : (fresh : Sha256Ctx) → HashesChunks (test_crypto fresh) (2 ^ 32)
test_crypto-HashesChunks fresh = record {
  absorb = absorb_all;
  absorb-append = absorb_all-append;
  update-absorb = test_hash_update-absorb_all;
  update-null = test_hash_update-null;
}

-- With the test adapter, for an algorithm that hashes with SHA-256 and parts of less than 2^32 bytes whose
-- bytes are there, create_tbs_hash() gives the digest of FIPS 180-4 of the CBOR of the
-- Sig_structure, if the buffer for the hash has 32 bytes at least.
pub create_tbs_hash-digest :
    (fresh : Sha256Ctx) (e : Encoder)
    → EncodesCbor e
    → (p a q : Buf) (id : ℤ) (n : ℕ) → IsByteString p
    → IsByteString a
    → IsByteString q
    → len p < 2 ^ 32
    → len a < 2 ^ 32
    → len q < 2 ^ 32
    → length fresh.data_block ≡ 64
    → hash_alg_id_from_sig_alg_id id ≡ cose_algorithm_sha_256
    → 32 ≤ n
    → create_tbs_hash (test_crypto fresh) e id p a q n
      ≡ ok (bytes (digest (sig_structure_bytes p a q)))
unfolding test_hash_start test_hash_finish
create_tbs_hash-digest fresh e cbor p a q id n hp ha hq lp la lq sized alg room =
    create_tbs_hash_chunks e cbor p a q hp ha hq (test_crypto fresh) (2 ^ 32)
      (test_crypto-HashesChunks fresh) (omega arith) id n lp la lq
    ∙ rw (alg, le→ltb n 32 room, sha256_final-absorb fresh (sig_structure_bytes p a q) sized) refl
