-- ===== src/Sha256.antt =====
-- crypto_adapters/b_con_hash/sha256.c: the hash function of the test adapter. A WORD has 32 bits, and the
-- length in bits has 64. The loop of sha256_update() counts in a WORD; a call that does not return
-- is `none`.
pub mod Fips
pub mod Compress
pub mod Update
pub mod Stream
pub mod Padding
pub mod Blocks
pub mod Digest
use t_cose.Common.{
  ℕ, zero, suc, ◌+◌, ◌-◌, ◌*◌, ◌/◌, ◌%◌, ◌^◌, ◌==◌, ltb, bit_and, bit_or, bit_xor, length, Option,
  none, some, List, [], ◌∷◌, ◌++◌, set, get_or, take, replicate, if◌then◌else◌,
}
use t_cose.Qcbor.Encoder.{big_endian}

-- Addition of WORDs.
infixl 30 ◌⊕◌
abbrev pub ◌⊕◌ : ℕ → ℕ → ℕ
x ⊕ y = (x + y) % 2 ^ 32

-- ROTRIGHT
abbrev pub rot_right : ℕ → ℕ → ℕ
rot_right a b = bit_or (a / 2 ^ b) (a * 2 ^ (32 - b) % 2 ^ 32)

abbrev pub ch : ℕ → ℕ → ℕ → ℕ
ch x y z = bit_xor (bit_and x y) (bit_and (2 ^ 32 - 1 - x) z)

abbrev pub maj : ℕ → ℕ → ℕ → ℕ
maj x y z = bit_xor (bit_xor (bit_and x y) (bit_and x z)) (bit_and y z)

abbrev pub ep0 : ℕ → ℕ
ep0 x = bit_xor (bit_xor (rot_right x 2) (rot_right x 13)) (rot_right x 22)

abbrev pub ep1 : ℕ → ℕ
ep1 x = bit_xor (bit_xor (rot_right x 6) (rot_right x 11)) (rot_right x 25)

abbrev pub sig0 : ℕ → ℕ
sig0 x = bit_xor (bit_xor (rot_right x 7) (rot_right x 18)) (x / 2 ^ 3)

abbrev pub sig1 : ℕ → ℕ
sig1 x = bit_xor (bit_xor (rot_right x 17) (rot_right x 19)) (x / 2 ^ 10)

abbrev pub k : List ℕ
k =
    0x428a2f98 ∷ 0x71374491 ∷ 0xb5c0fbcf ∷ 0xe9b5dba5 ∷ 0x3956c25b ∷ 0x59f111f1 ∷ 0x923f82a4
    ∷ 0xab1c5ed5 ∷ 0xd807aa98 ∷ 0x12835b01 ∷ 0x243185be ∷ 0x550c7dc3 ∷ 0x72be5d74 ∷ 0x80deb1fe
    ∷ 0x9bdc06a7 ∷ 0xc19bf174 ∷ 0xe49b69c1 ∷ 0xefbe4786 ∷ 0x0fc19dc6 ∷ 0x240ca1cc ∷ 0x2de92c6f
    ∷ 0x4a7484aa ∷ 0x5cb0a9dc ∷ 0x76f988da ∷ 0x983e5152 ∷ 0xa831c66d ∷ 0xb00327c8 ∷ 0xbf597fc7
    ∷ 0xc6e00bf3 ∷ 0xd5a79147 ∷ 0x06ca6351 ∷ 0x14292967 ∷ 0x27b70a85 ∷ 0x2e1b2138 ∷ 0x4d2c6dfc
    ∷ 0x53380d13 ∷ 0x650a7354 ∷ 0x766a0abb ∷ 0x81c2c92e ∷ 0x92722c85 ∷ 0xa2bfe8a1 ∷ 0xa81a664b
    ∷ 0xc24b8b70 ∷ 0xc76c51a3 ∷ 0xd192e819 ∷ 0xd6990624 ∷ 0xf40e3585 ∷ 0x106aa070 ∷ 0x19a4c116
    ∷ 0x1e376c08 ∷ 0x2748774c ∷ 0x34b0bcb5 ∷ 0x391c0cb3 ∷ 0x4ed8aa4a ∷ 0x5b9cca4f ∷ 0x682e6ff3
    ∷ 0x748f82ee ∷ 0x78a5636f ∷ 0x84c87814 ∷ 0x8cc70208 ∷ 0x90befffa ∷ 0xa4506ceb ∷ 0xbef9a3f7
    ∷ 0xc67178f2 ∷ []

pub record Sha256Ctx : Type 0 where
  pub data_block : List ℕ
  pub datalen : ℕ
  pub bitlen : ℕ
  pub state : List ℕ

-- The variables a to h.
pub record Registers : Type 0 where
  pub a : ℕ
  pub b : ℕ
  pub c : ℕ
  pub d : ℕ
  pub e : ℕ
  pub f : ℕ
  pub g : ℕ
  pub h : ℕ

-- The first 16 entries of m, so many as are asked for.
unfoldable pub load_words : ℕ → List ℕ → ℕ → List ℕ
load_words zero block j = []
load_words (suc n) block j =
    bit_or
      (bit_or (bit_or (get_or block j 0 * 2 ^ 24 % 2 ^ 32) (get_or block (j + 1) 0 * 2 ^ 16))
        (get_or block (j + 2) 0 * 2 ^ 8))
      (get_or block (j + 3) 0)
    ∷ load_words n block (j + 4)

-- The other entries of m, from entry i on.
unfoldable pub extend_words : ℕ → ℕ → List ℕ → List ℕ
extend_words zero i m = m
extend_words (suc n) i m = extend_words n (i + 1) (
    m
    ++ ((sig1 (get_or m (i - 2) 0)
          ⊕ get_or m (i - 7) 0
          ⊕ sig0 (get_or m (i - 15) 0)
          ⊕ get_or m (i - 16) 0)
        ∷ []))

-- The main loop.
unfoldable pub rounds : List ℕ → List ℕ → Registers → Registers
rounds [] m r = r
rounds (ki ∷ ks) [] r = r
rounds (ki ∷ ks) (mi ∷ ms) r =
    let t1 = r.h ⊕ ep1 r.e ⊕ ch r.e r.f r.g ⊕ ki ⊕ mi in
    let t2 = ep0 r.a ⊕ maj r.a r.b r.c in
    rounds ks ms
      (record { a = t1 ⊕ t2; b = r.a; c = r.b; d = r.c; e = r.d ⊕ t1; f = r.e; g = r.f; h = r.g })

-- The state after sha256_transform().
unfoldable pub compress : List ℕ → List ℕ → List ℕ
compress state block =
    let start : Registers = record {
      a = get_or state 0 0;
      b = get_or state 1 0;
      c = get_or state 2 0;
      d = get_or state 3 0;
      e = get_or state 4 0;
      f = get_or state 5 0;
      g = get_or state 6 0;
      h = get_or state 7 0;
    } in
    let r = rounds k (extend_words 48 16 (load_words 16 block 0)) start in
    (get_or state 0 0 ⊕ r.a)
    ∷ (get_or state 1 0 ⊕ r.b)
    ∷ (get_or state 2 0 ⊕ r.c)
    ∷ (get_or state 3 0 ⊕ r.d)
    ∷ (get_or state 4 0 ⊕ r.e)
    ∷ (get_or state 5 0 ⊕ r.f)
    ∷ (get_or state 6 0 ⊕ r.g)
    ∷ (get_or state 7 0 ⊕ r.h)
    ∷ []

abbrev pub sha256_transform : Sha256Ctx → List ℕ → Sha256Ctx
sha256_transform ctx block = record ctx { state = compress ctx.state block }

abbrev pub initial_state : List ℕ
initial_state =
    0x6a09e667 ∷ 0xbb67ae85 ∷ 0x3c6ef372 ∷ 0xa54ff53a ∷ 0x510e527f ∷ 0x9b05688c ∷ 0x1f83d9ab
    ∷ 0x5be0cd19 ∷ []

-- The data are left as they are.
unfoldable pub sha256_init : Sha256Ctx → Sha256Ctx
sha256_init ctx = record ctx { datalen = 0; bitlen = 0; state = initial_state }

-- One round of the loop of sha256_update().
unfoldable pub update_byte : Sha256Ctx → ℕ → Sha256Ctx
update_byte ctx byte =
    let block = set ctx.data_block ctx.datalen byte in
    let kept : Sha256Ctx = record ctx { data_block = block; datalen = ctx.datalen + 1 } in
    let hashed = sha256_transform kept block in
    if kept.datalen == 64
    then record hashed { bitlen = (ctx.bitlen + 512) % 2 ^ 64; datalen = 0 }
    else kept

-- The loop from the counter i on, a WORD that wraps around. `none` is a loop that has not ended after
-- so many tests of its condition.
unfoldable pub update_loop : ℕ → ℕ → List ℕ → Sha256Ctx → Option Sha256Ctx
update_loop zero i bs ctx = none
update_loop (suc fuel) i bs ctx =
    let rest = update_loop fuel ((i + 1) % 2 ^ 32) bs (update_byte ctx (get_or bs i 0)) in
    if ltb i (length bs) then rest else some ctx

unfoldable pub sha256_update : Sha256Ctx → List ℕ → Option Sha256Ctx
sha256_update ctx bs = update_loop (suc (length bs)) 0 bs ctx

abbrev pub zeros : ℕ → List ℕ
zeros n = replicate n 0

-- `data[i++] = v` for each v.
unfoldable pub write_all : ℕ → List ℕ → List ℕ → List ℕ
write_all i [] block = block
write_all i (v ∷ vs) block = write_all (suc i) vs (set block i v)

-- The bytes of the state, the most significant of each WORD first.
unfoldable pub digest_bytes : List ℕ → List ℕ
digest_bytes [] = []
digest_bytes (w ∷ ws) = big_endian 4 w ++ digest_bytes ws

-- The padding of the data: the context before the length is appended. The length of the
-- data is kept.
unfoldable pub pad_block : Sha256Ctx → Sha256Ctx
pad_block ctx =
    let full = write_all ctx.datalen (0x80 ∷ zeros (63 - ctx.datalen)) ctx.data_block in
    let hashed = sha256_transform ctx full in
    if ltb ctx.datalen 56
    then record ctx {
      data_block = write_all ctx.datalen (0x80 ∷ zeros (55 - ctx.datalen)) ctx.data_block;
    }
    else record hashed { data_block = write_all 0 (zeros 56) full }

-- The hash.
unfoldable pub sha256_final : Sha256Ctx → List ℕ
sha256_final ctx =
    let padded = pad_block ctx in
    let bits = (ctx.bitlen + ctx.datalen * 8) % 2 ^ 64 in
    let block = write_all 56 (big_endian 8 bits) padded.data_block in
    digest_bytes (compress padded.state block)
