-- ===== src/Sha256/Fips.antt =====
-- SHA-256 as FIPS 180-4 states it, for comparison with crypto_adapters/b_con_hash/sha256.c. Nothing of the
-- code is used here.
use t_cose.Common.{
  ℕ, zero, suc, ◌+◌, ◌-◌, ◌*◌, ◌/◌, ◌%◌, ◌^◌, leb, bit_and, bit_or, bit_xor, List, [], ◌∷◌, ◌++◌,
  length, get_or, take, drop, replicate, if◌then◌else◌,
}
use t_cose.Qcbor.Encoder.{big_endian}

-- Section 2.2.2: addition modulo 2^32, rotation and shift to the right.
infixl 30 ◌⊞◌
unfoldable pub ◌⊞◌ : ℕ → ℕ → ℕ
x ⊞ y = (x + y) % 2 ^ 32

unfoldable pub rotr : ℕ → ℕ → ℕ
rotr n x = bit_or (x / 2 ^ n) (x * 2 ^ (32 - n) % 2 ^ 32)

unfoldable pub shr : ℕ → ℕ → ℕ
shr n x = x / 2 ^ n

-- Section 4.1.2: the functions.
unfoldable pub choose : ℕ → ℕ → ℕ → ℕ
choose x y z = bit_xor (bit_and x y) (bit_and (2 ^ 32 - 1 - x) z)

unfoldable pub majority : ℕ → ℕ → ℕ → ℕ
majority x y z = bit_xor (bit_xor (bit_and x y) (bit_and x z)) (bit_and y z)

unfoldable pub large_sigma0 : ℕ → ℕ
large_sigma0 x = bit_xor (bit_xor (rotr 2 x) (rotr 13 x)) (rotr 22 x)

unfoldable pub large_sigma1 : ℕ → ℕ
large_sigma1 x = bit_xor (bit_xor (rotr 6 x) (rotr 11 x)) (rotr 25 x)

unfoldable pub small_sigma0 : ℕ → ℕ
small_sigma0 x = bit_xor (bit_xor (rotr 7 x) (rotr 18 x)) (shr 3 x)

unfoldable pub small_sigma1 : ℕ → ℕ
small_sigma1 x = bit_xor (bit_xor (rotr 17 x) (rotr 19 x)) (shr 10 x)

-- The integer part of a root of n, from its bits below b, the most significant first.
unfoldable pub root : ℕ → ℕ → ℕ → ℕ → ℕ
root e n zero found = found
root e n (suc b) found =
    let tried = found + 2 ^ b in root e n b (if leb (tried ^ e) n then tried else found)

-- The first 32 bits of the fractional parts of the square roots and of the cube roots.
unfoldable pub square_roots : List ℕ → List ℕ
square_roots [] = []
square_roots (p ∷ ps) = root 2 (p * 2 ^ 64) 36 0 % 2 ^ 32 ∷ square_roots ps

unfoldable pub cube_roots : List ℕ → List ℕ
cube_roots [] = []
cube_roots (p ∷ ps) = root 3 (p * 2 ^ 96) 36 0 % 2 ^ 32 ∷ cube_roots ps

-- The first 64 prime numbers.
abbrev pub primes : List ℕ
primes =
    2 ∷ 3 ∷ 5 ∷ 7 ∷ 11 ∷ 13 ∷ 17 ∷ 19 ∷ 23 ∷ 29 ∷ 31 ∷ 37 ∷ 41 ∷ 43 ∷ 47 ∷ 53 ∷ 59 ∷ 61 ∷ 67 ∷ 71
    ∷ 73 ∷ 79 ∷ 83 ∷ 89 ∷ 97 ∷ 101 ∷ 103 ∷ 107 ∷ 109 ∷ 113 ∷ 127 ∷ 131 ∷ 137 ∷ 139 ∷ 149 ∷ 151 ∷ 157
    ∷ 163 ∷ 167 ∷ 173 ∷ 179 ∷ 181 ∷ 191 ∷ 193 ∷ 197 ∷ 199 ∷ 211 ∷ 223 ∷ 227 ∷ 229 ∷ 233 ∷ 239 ∷ 241
    ∷ 251 ∷ 257 ∷ 263 ∷ 269 ∷ 271 ∷ 277 ∷ 281 ∷ 283 ∷ 293 ∷ 307 ∷ 311 ∷ []

-- Section 4.2.2: the constants, and section 5.3.3: the initial hash value.
unfoldable pub constants : List ℕ
constants = cube_roots primes

unfoldable pub initial_hash_value : List ℕ
initial_hash_value = square_roots (take 8 primes)

-- Section 5.1.1: the padding, with the least number of zeros that fills the blocks.
unfoldable pub zeros_for : ℕ → ℕ
zeros_for n = (119 - n % 64) % 64

unfoldable pub pad : List ℕ → List ℕ
pad stream =
    stream
    ++ ((0x80 ∷ replicate (zeros_for (length stream)) 0)
        ++ big_endian 8 (length stream * 8 % 2 ^ 64))

-- Section 5.2.1: the words of a block.
unfoldable pub words : ℕ → List ℕ → List ℕ
words zero block = []
words (suc n) block =
    bit_or
      (bit_or (bit_or (get_or block 0 0 * 2 ^ 24 % 2 ^ 32) (get_or block 1 0 * 2 ^ 16))
        (get_or block 2 0 * 2 ^ 8))
      (get_or block 3 0)
    ∷ words n (drop 4 block)

-- Section 6.2.2, step 1: the message schedule, from a window of the last 16 words.
unfoldable pub schedule : ℕ → List ℕ → List ℕ
schedule zero window = window
schedule (suc n) [] = []
schedule (suc n) (w ∷ ws) =
    let next = small_sigma1 (get_or ws 13 0) ⊞ get_or ws 8 0 ⊞ small_sigma0 (get_or ws 0 0) ⊞ w in
    w ∷ schedule n (ws ++ (next ∷ []))

-- Steps 2 and 3: the eight working variables.
unfoldable pub run : List ℕ → List ℕ → ℕ → ℕ → ℕ → ℕ → ℕ → ℕ → ℕ → ℕ → List ℕ
run [] ws a b c d e f g h = a ∷ b ∷ c ∷ d ∷ e ∷ f ∷ g ∷ h ∷ []
run (kt ∷ ks) [] a b c d e f g h = a ∷ b ∷ c ∷ d ∷ e ∷ f ∷ g ∷ h ∷ []
run (kt ∷ ks) (wt ∷ ws) a b c d e f g h =
    let t1 = h ⊞ large_sigma1 e ⊞ choose e f g ⊞ kt ⊞ wt in
    let t2 = large_sigma0 a ⊞ majority a b c in run ks ws (t1 ⊞ t2) a b c (d ⊞ t1) e f g

-- Step 4, from word i on.
unfoldable pub add_words : List ℕ → ℕ → List ℕ → List ℕ
add_words value i [] = []
add_words value i (v ∷ vs) = (get_or value i 0 ⊞ v) ∷ add_words value (i + 1) vs

-- The hash value after a block.
unfoldable pub hash_block : List ℕ → List ℕ → List ℕ
hash_block value block = add_words value 0 (
    run constants (schedule 48 (words 16 block)) (get_or value 0 0) (get_or value 1 0)
      (get_or value 2 0) (get_or value 3 0) (get_or value 4 0) (get_or value 5 0) (get_or value 6 0)
      (get_or value 7 0))

unfoldable pub hash_all : ℕ → List ℕ → List ℕ → List ℕ
hash_all zero value bs = value
hash_all (suc n) value bs = hash_all n (hash_block value (take 64 bs)) (drop 64 bs)

unfoldable pub word_bytes : List ℕ → List ℕ
word_bytes [] = []
word_bytes (w ∷ ws) = big_endian 4 w ++ word_bytes ws

-- The message digest.
unfoldable pub digest : List ℕ → List ℕ
digest stream = word_bytes (hash_all (length (pad stream) / 64) initial_hash_value (pad stream))
