-- ===== src/Sha256/Blocks.antt =====
-- sha256_final() hashes the padded stream block by block.
use t_cose.Common.{
  ℕ, zero, suc, ◌+◌, ◌-◌, ◌*◌, ◌/◌, ◌%◌, ◌^◌, ltb, ltb→lt, ltb→le, ◌≡◌, refl, sym, ap, ◌∙◌, true,
  false, Bool-cases, inl, inr, List, [], ◌∷◌, ◌++◌, append_assoc, length, take, length-append,
  length-take, arith,
}
use t_cose.Qcbor.Encoder.{big_endian}
use t_cose.Sha256.{
  zeros, Sha256Ctx, compress, initial_state, digest_bytes, pad_block, sha256_init, sha256_final,
  write_all,
}
use t_cose.Sha256.Fips.{zeros_for, pad}
use t_cose.Sha256.Update.{absorb}
use t_cose.Sha256.Padding.{
  marked, length-marked, length-zeros, length-big_endian, last_block, first_block, second_block,
}
use t_cose.Sha256.Stream.{
  hash_blocks, hash_blocks-append, HasHashed, sha256_init-HasHashed, absorb-HasHashed,
}

-- The hash of the padded message, block by block, with the code's compression.
unfoldable pub block_digest : List ℕ → List ℕ
block_digest stream =
    digest_bytes (hash_blocks (length (pad stream) / 64) initial_state (pad stream))

sha256_final_near :
    (ctx : Sha256Ctx)
    → ltb ctx.datalen 56 ≡ true
    → sha256_final ctx
      ≡ digest_bytes (
          compress ctx.state (
            write_all 56
              (big_endian 8 ((ctx.bitlen + ctx.datalen * 8) % 2 ^ 64))
              (write_all ctx.datalen (marked (55 - ctx.datalen)) ctx.data_block)))
unfolding sha256_final pad_block
sha256_final_near ctx h = rw h refl

sha256_final_far :
    (ctx : Sha256Ctx)
    → ltb ctx.datalen 56 ≡ false
    → sha256_final ctx
      ≡ digest_bytes (
          compress
            (compress ctx.state (write_all ctx.datalen (marked (63 - ctx.datalen)) ctx.data_block))
            (write_all 56 (big_endian 8 ((ctx.bitlen + ctx.datalen * 8) % 2 ^ 64)) (
              write_all 0
                (zeros 56)
                (write_all ctx.datalen (marked (63 - ctx.datalen)) ctx.data_block))))
unfolding sha256_final pad_block
sha256_final_far ctx h = rw h refl

zeros-append : (m n : ℕ) → zeros m ++ zeros n ≡ zeros (m + n)
zeros-append zero n = let sum : n ≡ 0 + n = omega arith in ap zeros sum
zeros-append (suc m) n =
    let sum : suc (m + n) ≡ suc m + n = omega arith in
    ap (λ (r : List ℕ). 0 ∷ r) (zeros-append m n) ∙ ap zeros sum

marked_parts :
    (xs ys : List ℕ) (m n : ℕ) → xs ++ (marked (m + n) ++ ys) ≡ (xs ++ marked m) ++ (zeros n ++ ys)
marked_parts xs ys m n =
    ap (λ (z : List ℕ). xs ++ ((0x80 ∷ z) ++ ys)) (sym (zeros-append m n))
    ∙ ap (λ (z : List ℕ). xs ++ z) (append_assoc (marked m) (zeros n) ys)
    ∙ sym (append_assoc xs (marked m) (zeros n ++ ys))

module _ (ctx : Sha256Ctx) (stream : List ℕ) (w : HasHashed ctx stream) where
  abbrev pending : List ℕ
  pending = take ctx.datalen ctx.data_block

  length-stream : length stream ≡ w.blocks * 64 + ctx.datalen
  length-stream =
      ap length w.split
      ∙ omega (
        arith,
        length-append w.full (take ctx.datalen ctx.data_block),
        length-take ctx.datalen ctx.data_block,
        w.full_length,
        w.data_length,
        w.datalen_small,
      )

  same_bits : (ctx.bitlen + ctx.datalen * 8) % 2 ^ 64 ≡ length stream * 8 % 2 ^ 64
  same_bits = omega (arith, length-stream, w.bits)

  abbrev final_bits : List ℕ
  final_bits = big_endian 8 (length stream * 8 % 2 ^ 64)

  digest_one :
      (block : List ℕ)
      → pad stream ≡ w.full ++ block
      → length block ≡ 64
      → block_digest stream ≡ digest_bytes (compress ctx.state block)
  unfolding block_digest
  digest_one block p l =
      let count : length (w.full ++ block) / 64 ≡ suc w.blocks =
        omega (arith, length-append w.full block, w.full_length, l) in
      ap (λ x. digest_bytes (hash_blocks (length x / 64) initial_state x)) p
      ∙ ap (λ n. digest_bytes (hash_blocks n initial_state (w.full ++ block))) count
      ∙ ap digest_bytes (hash_blocks-append w.blocks initial_state w.full block w.full_length l)
      ∙ ap (λ s. digest_bytes (compress s block)) (sym w.hashed)

  digest_two :
      (first second : List ℕ)
      → pad stream ≡ w.full ++ (first ++ second)
      → length first ≡ 64
      → length second ≡ 64
      → block_digest stream ≡ digest_bytes (compress (compress ctx.state first) second)
  unfolding block_digest
  digest_two first second p l m =
      let more : length (w.full ++ first) ≡ suc w.blocks * 64 =
        omega (arith, length-append w.full first, w.full_length, l) in
      let count : length ((w.full ++ first) ++ second) / 64 ≡ suc (suc w.blocks) =
        omega (arith, length-append (w.full ++ first) second, more, m) in
      ap (λ x. digest_bytes (hash_blocks (length x / 64) initial_state x))
        (p ∙ sym (append_assoc w.full first second))
      ∙ ap (λ n. digest_bytes (hash_blocks n initial_state ((w.full ++ first) ++ second))) count
      ∙ ap digest_bytes
          (hash_blocks-append (suc w.blocks) initial_state (w.full ++ first) second more m)
      ∙ ap (λ s. digest_bytes (compress s second))
          (hash_blocks-append w.blocks initial_state w.full first w.full_length l)
      ∙ ap (λ s. digest_bytes (compress (compress s first) second)) (sym w.hashed)

  padded_stream :
      (n : ℕ)
      → zeros_for (length stream) ≡ n
      → pad stream ≡ w.full ++ (pending ++ (marked n ++ final_bits))
  unfolding pad
  padded_stream n z =
      ap (λ x. stream ++ (marked x ++ final_bits)) z
      ∙ ap (λ (x : List ℕ). x ++ (marked n ++ final_bits)) w.split
      ∙ append_assoc w.full pending (marked n ++ final_bits)

  length-pending : length pending ≡ ctx.datalen
  length-pending =
      omega (arith, length-take ctx.datalen ctx.data_block, w.data_length, w.datalen_small)

  digest_near : ltb ctx.datalen 56 ≡ true → sha256_final ctx ≡ block_digest stream
  unfolding zeros_for
  digest_near h =
      let small = ltb→lt ctx.datalen 56 h in
      let spare : (119 - length stream % 64) % 64 ≡ 55 - ctx.datalen =
        omega (arith, length-stream, small) in
      let block = pending ++ (marked (55 - ctx.datalen) ++ final_bits) in
      sha256_final_near ctx h
      ∙ ap
          (λ b. digest_bytes (
            compress ctx.state (
              write_all 56 (big_endian 8 b)
                (write_all ctx.datalen (marked (55 - ctx.datalen)) ctx.data_block))))
          same_bits
      ∙ ap (λ x. digest_bytes (compress ctx.state x))
          (last_block ctx.data_block final_bits ctx.datalen w.data_length (length-big_endian _)
            small)
      ∙ sym (
          digest_one block (padded_stream (55 - ctx.datalen) spare) (
            omega (
              arith,
              length-append pending (marked (55 - ctx.datalen) ++ final_bits),
              length-append (marked (55 - ctx.datalen)) final_bits,
              length-marked (55 - ctx.datalen),
              length-big_endian (length stream * 8 % 2 ^ 64),
              length-pending,
              small,
            )))

  digest_far : ltb ctx.datalen 56 ≡ false → sha256_final ctx ≡ block_digest stream
  unfolding zeros_for
  digest_far h =
      let large = ltb→le ctx.datalen 56 h in
      let spare : (119 - length stream % 64) % 64 ≡ (63 - ctx.datalen) + 56 =
        omega (arith, length-stream, large, w.datalen_small) in
      let first = pending ++ marked (63 - ctx.datalen) in
      let sized : length first ≡ 64 = omega (
        arith,
        length-append pending (marked (63 - ctx.datalen)),
        length-marked (63 - ctx.datalen),
        length-pending,
        w.datalen_small,
      ) in
      let parts : pending ++ (marked ((63 - ctx.datalen) + 56) ++ final_bits)
          ≡ first ++ (zeros 56 ++ final_bits) =
        marked_parts pending final_bits (63 - ctx.datalen) 56 in
      sha256_final_far ctx h
      ∙ ap
          (λ b. digest_bytes (
            compress
              (compress ctx.state
                (write_all ctx.datalen (marked (63 - ctx.datalen)) ctx.data_block))
              (write_all 56 (big_endian 8 b) (
                write_all 0 (zeros 56)
                  (write_all ctx.datalen (marked (63 - ctx.datalen)) ctx.data_block)))))
          same_bits
      ∙ ap
          (λ x.
            digest_bytes (
              compress (compress ctx.state x) (write_all 56 final_bits (write_all 0 (zeros 56) x))))
          (first_block ctx.data_block ctx.datalen w.data_length w.datalen_small)
      ∙ ap (λ x. digest_bytes (compress (compress ctx.state first) x))
          (second_block first final_bits sized (length-big_endian _))
      ∙ sym (
          digest_two first (zeros 56 ++ final_bits)
            (padded_stream ((63 - ctx.datalen) + 56) spare ∙ ap (λ (x : List ℕ). w.full ++ x) parts)
            sized
            (omega (
              arith,
              length-append (zeros 56) final_bits,
              length-zeros 56,
              length-big_endian (length stream * 8 % 2 ^ 64),
            )))

pub sha256_final-block_digest :
    (ctx : Sha256Ctx) (stream : List ℕ)
    → length ctx.data_block ≡ 64
    → sha256_final (absorb (sha256_init ctx) stream) ≡ block_digest stream
sha256_final-block_digest ctx stream h =
    let after = absorb (sha256_init ctx) stream in
    let w = absorb-HasHashed stream (sha256_init ctx) [] (sha256_init-HasHashed ctx h) in
    elim (Bool-cases (ltb after.datalen 56)) [
      | inl near ↦ digest_near after stream w near
      | inr far ↦ digest_far after stream w far
    ]
