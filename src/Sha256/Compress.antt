-- ===== src/Sha256/Compress.antt =====
-- sha256_transform() computes the hash value of a block of FIPS 180-4.
use t_cose.Common.{
  ℕ, zero, suc, ◌+◌, ◌-◌, ◌≡◌, refl, sym, ap, ap₂, ◌∙◌, List, [], ◌∷◌, ◌++◌, append_assoc, length,
  length-append, get_or, drop, arith,
}
use t_cose.Qcbor.Encoder.{big_endian}
use t_cose.Sha256.{
  k, initial_state, Registers, load_words, extend_words, rounds, compress, digest_bytes, sig0, sig1,
  ◌⊕◌,
}
use t_cose.Sha256.Fips.{
  constants, initial_hash_value, cube_roots, square_roots, root, words, schedule, run, add_words,
  hash_block, word_bytes, ◌⊞◌, rotr, shr, choose, majority, large_sigma0, large_sigma1,
  small_sigma0, small_sigma1,
}

-- The tables of the code are the fractional parts of the roots.
k-constants : k ≡ constants
unfolding constants cube_roots root
k-constants = refl

pub initial_state-value : initial_state ≡ initial_hash_value
unfolding initial_hash_value square_roots root
initial_state-value = refl

get_or-drop : (n : ℕ) (xs : List ℕ) (i j : ℕ) → n + i ≡ j → get_or (drop n xs) i 0 ≡ get_or xs j 0
get_or-drop zero xs i j h = let e : i ≡ j = omega arith in ap (λ m. get_or xs m 0) e
get_or-drop (suc n) [] i j h = refl
get_or-drop (suc n) (x ∷ xs) i zero h = absurd (omega arith)
get_or-drop (suc n) (x ∷ xs) i (suc j) h = get_or-drop n xs i j (omega arith)

drop-drop : (n j : ℕ) (xs : List ℕ) → n + 4 ≡ j → drop 4 (drop n xs) ≡ drop j xs
drop-drop zero j xs h = let e : 4 ≡ j = omega arith in ap (λ m. drop m xs) e
drop-drop (suc n) zero xs h = absurd (omega arith)
drop-drop (suc n) (suc j) [] h = refl
drop-drop (suc n) (suc j) (x ∷ xs) h = drop-drop n j xs (omega arith)

load_words-words : (n j : ℕ) (block : List ℕ) → load_words n block j ≡ words n (drop j block)
unfolding load_words words
load_words-words zero j block = refl
load_words-words (suc n) j block =
    rw
      (
        get_or-drop j block 0 j (omega arith),
        get_or-drop j block 1 (j + 1) (omega arith),
        get_or-drop j block 2 (j + 2) (omega arith),
        get_or-drop j block 3 (j + 3) (omega arith),
        drop-drop j (j + 4) block (omega arith),
        load_words-words n (j + 4) block,
      )
      refl

-- An entry behind the words that have left the window.
get_or-append :
    (pre xs : List ℕ) (i j : ℕ) → i ≡ length pre + j → get_or (pre ++ xs) i 0 ≡ get_or xs j 0
get_or-append [] xs i j h = ap (λ m. get_or xs m 0) (h ∙ omega arith)
get_or-append (x ∷ pre) xs zero j h = absurd (omega arith)
get_or-append (x ∷ pre) xs (suc i) j h = get_or-append pre xs i j (omega arith)

-- The entries of m are the words before the window and the schedule from the window.
extend_words-schedule :
    (n i : ℕ) (pre window : List ℕ)
    → length window ≡ 16
    → i ≡ length pre + 16
    → extend_words n i (pre ++ window) ≡ pre ++ schedule n window
unfolding extend_words schedule ◌⊞◌ small_sigma0 small_sigma1 rotr shr
extend_words-schedule zero i pre window l h = refl
extend_words-schedule (suc n) i pre [] l h = absurd (omega arith)
extend_words-schedule (suc n) i pre (w ∷ ws) l h =
    let next = small_sigma1 (get_or ws 13 0) ⊞ get_or ws 8 0 ⊞ small_sigma0 (get_or ws 0 0) ⊞ w in
    let m = pre ++ (w ∷ ws) in
    let found : (sig1 (get_or m (i - 2) 0)
          ⊕ get_or m (i - 7) 0
          ⊕ sig0 (get_or m (i - 15) 0)
          ⊕ get_or m (i - 16) 0)
        ≡ next =
      rw
        (
          get_or-append pre (w ∷ ws) (i - 2) 14 (omega arith),
          get_or-append pre (w ∷ ws) (i - 7) 9 (omega arith),
          get_or-append pre (w ∷ ws) (i - 15) 1 (omega arith),
          get_or-append pre (w ∷ ws) (i - 16) 0 (omega arith),
        )
        refl in
    ap (λ v. extend_words n (i + 1) (m ++ (v ∷ []))) found
    ∙ ap (extend_words n (i + 1)) (
        append_assoc pre (w ∷ ws) (next ∷ []) ∙ sym (append_assoc pre (w ∷ []) (ws ++ (next ∷ []))))
    ∙ extend_words-schedule n (i + 1) (pre ++ (w ∷ [])) (ws ++ (next ∷ []))
        (omega (arith, length-append ws (next ∷ []), l))
        (omega (arith, length-append pre (w ∷ []), h))
    ∙ append_assoc pre (w ∷ []) (schedule n (ws ++ (next ∷ [])))

length-load_words : (n j : ℕ) (block : List ℕ) → length (load_words n block j) ≡ n
unfolding load_words
length-load_words zero j block = refl
length-load_words (suc n) j block = ap suc (length-load_words n (j + 4) block)

abbrev fields : Registers → List ℕ
fields r = r.a ∷ r.b ∷ r.c ∷ r.d ∷ r.e ∷ r.f ∷ r.g ∷ r.h ∷ []

rounds-run :
    (ks ms : List ℕ) (r : Registers)
    → fields (rounds ks ms r) ≡ run ks ms r.a r.b r.c r.d r.e r.f r.g r.h
unfolding rounds run ◌⊞◌ rotr choose majority large_sigma0 large_sigma1
rounds-run [] ms r = refl
rounds-run (ki ∷ ks) [] r = refl
rounds-run (ki ∷ ks) (mi ∷ ms) r = rounds-run ks ms _

message_schedule :
    (block : List ℕ) → extend_words 48 16 (load_words 16 block 0) ≡ schedule 48 (words 16 block)
message_schedule block =
    extend_words-schedule 48 16 [] (load_words 16 block 0) (length-load_words 16 0 block)
      (omega arith)
    ∙ ap (schedule 48) (load_words-words 16 0 block)

-- The state after sha256_transform() is the hash value after the block.
pub compress-hash_block : (state block : List ℕ) → compress state block ≡ hash_block state block
unfolding compress hash_block add_words ◌⊞◌
compress-hash_block state block =
    let start : Registers = record {
      a = get_or state 0 0;
      b = get_or state 1 0;
      c = get_or state 2 0;
      d = get_or state 3 0;
      e = get_or state 4 0;
      f = get_or state 5 0;
      g = get_or state 6 0;
      h = get_or state 7 0;
    } in
    let run_from = λ (ks : List ℕ) (ms : List ℕ).
      add_words state 0
        (run ks ms start.a start.b start.c start.d start.e start.f start.g start.h) in
    ap (add_words state 0) (rounds-run k (extend_words 48 16 (load_words 16 block 0)) start)
    ∙ ap₂ run_from k-constants (message_schedule block)

pub digest_bytes-word_bytes : (ws : List ℕ) → digest_bytes ws ≡ word_bytes ws
unfolding digest_bytes word_bytes
digest_bytes-word_bytes [] = refl
digest_bytes-word_bytes (w ∷ ws) =
    ap (λ (x : List ℕ). big_endian 4 w ++ x) (digest_bytes-word_bytes ws)
