-- ===== src/Examples/Hashes.antt =====
-- SHA-256 at a known value, and in the test adapter.
use mathlib.Core.Option.{map}
use t_cose.Common.{
  ℕ, ◌^◌, ltb, length, some, none, if◌then◌else◌, ◌≡◌, refl, ◌∷◌, [], List, replicate, null_buf, ok,
  bytes, negsuc, arith,
}
use t_cose.Algorithm.{hash_alg_id_from_sig_alg_id}
use t_cose.Examples.Models.{strings_encoder, strings_encoder-EncodesCbor}
use t_cose.Examples.Signatures.{protected, message}
use t_cose.Qcbor.Encoder.{big_endian}
use t_cose.Sha256.{
  Sha256Ctx, compress, rounds, extend_words, load_words, initial_state, digest_bytes, sha256_init,
  sha256_update, update_loop, update_byte, sha256_final, pad_block, write_all,
}
use t_cose.Sha256.Digest.{updates, concatenated, sha256_final-digest}
use t_cose.Sha256.Fips.{digest}
use t_cose.Sha256.Update.{absorb, update_loop_ends}
use t_cose.Tbs.{create_tbs_hash}
use t_cose.Tbs.Laws.{sig_structure_bytes}
use t_cose.TestCrypto.{test_crypto}
use t_cose.TestCrypto.Hash.{create_tbs_hash-digest}

abbrev empty_ctx : Sha256Ctx
empty_ctx = record { data_block = replicate 64 0; datalen = 0; bitlen = 0; state = initial_state }

abbrev abc : List ℕ
abc = b'a' ∷ b'b' ∷ b'c' ∷ []

-- A test vector, in two pieces.
hash_of_abc :
    map sha256_final
      (updates (some (sha256_init empty_ctx)) ((b'a' ∷ []) ∷ (b'b' ∷ b'c' ∷ []) ∷ []))
    ≡ some (
        0xba ∷ 0x78 ∷ 0x16 ∷ 0xbf ∷ 0x8f ∷ 0x01 ∷ 0xcf ∷ 0xea ∷ 0x41 ∷ 0x41 ∷ 0x40 ∷ 0xde ∷ 0x5d
        ∷ 0xae ∷ 0x22 ∷ 0x23 ∷ 0xb0 ∷ 0x03 ∷ 0x61 ∷ 0xa3 ∷ 0x96 ∷ 0x17 ∷ 0x7a ∷ 0x9c ∷ 0xb4 ∷ 0x10
        ∷ 0xff ∷ 0x61 ∷ 0xf2 ∷ 0x00 ∷ 0x15 ∷ 0xad ∷ [])
unfolding sha256_final sha256_update update_loop updates sha256_init update_byte pad_block write_all
    compress rounds extend_words load_words digest_bytes big_endian
hash_of_abc = refl

abbrev pieces_of_abc : List (List ℕ)
pieces_of_abc = (b'a' ∷ []) ∷ (b'b' ∷ b'c' ∷ []) ∷ []

sha256_final-digest_example :
    map sha256_final (updates (some (sha256_init empty_ctx)) pieces_of_abc)
    ≡ some (digest (concatenated pieces_of_abc))
sha256_final-digest_example =
    sha256_final-digest empty_ctx pieces_of_abc refl (omega arith, (omega arith, tt))

update_loop_ends_example :
    update_loop 4 0 abc empty_ctx
    ≡ (if ltb (length abc) (2 ^ 32) then some (absorb empty_ctx abc) else none)
update_loop_ends_example = update_loop_ends 4 abc empty_ctx (omega arith)

create_tbs_hash-digest_example :
    create_tbs_hash (test_crypto empty_ctx) strings_encoder (negsuc 6) protected null_buf message 64
    ≡ ok (bytes (digest (sig_structure_bytes protected null_buf message)))
unfolding hash_alg_id_from_sig_alg_id
create_tbs_hash-digest_example =
    create_tbs_hash-digest empty_ctx strings_encoder strings_encoder-EncodesCbor protected null_buf
      message (negsuc 6) 64 (refl, omega arith) (refl, omega arith) (refl, omega arith)
      (omega arith) (omega arith) (omega arith) refl refl (omega arith)
