-- ===== src/Sha256/Digest.antt =====
-- SHA-256 of crypto_adapters/b_con_hash/sha256.c against FIPS 180-4.
use mathlib.Core.Option.{map}
use t_cose.Common.{
  ℕ, zero, suc, ◌/◌, ◌^◌, ◌<◌, ◌≡◌, refl, ap, ◌∙◌, Option, none, some, List, [], ◌∷◌, ◌++◌, length,
  take, drop,
}
use t_cose.Sha256.{Sha256Ctx, initial_state, sha256_init, sha256_update, sha256_final}
use t_cose.Sha256.Blocks.{block_digest, sha256_final-block_digest}
use t_cose.Sha256.Compress.{compress-hash_block, digest_bytes-word_bytes, initial_state-value}
use t_cose.Sha256.Fips.{digest, hash_all, hash_block, pad, word_bytes}
use t_cose.Sha256.Stream.{hash_blocks}
use t_cose.Sha256.Update.{absorb, absorb-append, sha256_update-absorb}

hash_blocks-hash_all : (n : ℕ) (state bs : List ℕ) → hash_blocks n state bs ≡ hash_all n state bs
unfolding hash_blocks hash_all
hash_blocks-hash_all zero state bs = refl
hash_blocks-hash_all (suc n) state bs =
    ap (λ s. hash_blocks n s (drop 64 bs)) (compress-hash_block state (take 64 bs))
    ∙ hash_blocks-hash_all n (hash_block state (take 64 bs)) (drop 64 bs)

block_digest-digest : (stream : List ℕ) → block_digest stream ≡ digest stream
unfolding block_digest digest
block_digest-digest stream =
    digest_bytes-word_bytes _
    ∙ ap word_bytes (hash_blocks-hash_all (length (pad stream) / 64) initial_state (pad stream))
    ∙ ap (λ s. word_bytes (hash_all (length (pad stream) / 64) s (pad stream))) initial_state-value

pub sha256_final-absorb :
    (ctx : Sha256Ctx) (stream : List ℕ)
    → length ctx.data_block ≡ 64
    → sha256_final (absorb (sha256_init ctx) stream) ≡ digest stream
sha256_final-absorb ctx stream h =
    sha256_final-block_digest ctx stream h ∙ block_digest-digest stream

-- Calls of sha256_update() for one piece after the other; `none` when one of them does not return.
abbrev pub next_update : Option Sha256Ctx → List ℕ → Option Sha256Ctx
next_update none piece = none
next_update (some ctx) piece = sha256_update ctx piece

unfoldable pub updates : Option Sha256Ctx → List (List ℕ) → Option Sha256Ctx
updates h [] = h
updates h (piece ∷ pieces) = updates (next_update h piece) pieces

abbrev pub concatenated : List (List ℕ) → List ℕ
concatenated [] = []
concatenated (piece ∷ pieces) = piece ++ concatenated pieces

abbrev pub AreShort : List (List ℕ) → Type 0
AreShort [] = Unit
AreShort (piece ∷ pieces) = (length piece < 2 ^ 32) × AreShort pieces

updates-absorb :
    (pieces : List (List ℕ)) (ctx : Sha256Ctx)
    → AreShort pieces
    → updates (some ctx) pieces ≡ some (absorb ctx (concatenated pieces))
unfolding updates absorb
updates-absorb [] ctx short = refl
updates-absorb (piece ∷ pieces) ctx short =
    ap (λ h. updates h pieces) (sha256_update-absorb piece ctx short.0)
    ∙ updates-absorb pieces (absorb ctx piece) short.1
    ∙ ap some (absorb-append piece (concatenated pieces) ctx)

-- SHA-256 as it is made of sha256_init(), any number of calls of sha256_update() with less than 2^32 bytes
-- each, and sha256_final() returns the digest that FIPS 180-4 defines for all the bytes in order:
-- its padding, schedule, functions, constants and initial hash value. The length in bits is taken
-- modulo 2^64; the standard has it for messages shorter than that.
pub sha256_final-digest :
    (ctx : Sha256Ctx) (pieces : List (List ℕ))
    → length ctx.data_block ≡ 64
    → AreShort pieces
    → map sha256_final (updates (some (sha256_init ctx)) pieces)
      ≡ some (digest (concatenated pieces))
sha256_final-digest ctx pieces h short =
    ap (map sha256_final) (updates-absorb pieces (sha256_init ctx) short)
    ∙ ap some (sha256_final-absorb ctx (concatenated pieces) h)
