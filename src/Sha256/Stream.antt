-- ===== src/Sha256/Stream.antt =====
-- What sha256_update() has done to a stream: full blocks are in the state, the rest is in the data.
use t_cose.Common.{
  ℕ, zero, suc, ◌+◌, ◌*◌, ◌%◌, ◌^◌, ◌≤◌, ◌<◌, ◌==◌, ◌≡◌, refl, sym, ap, subst, ◌∙◌, true, false,
  Bool-cases, inl, inr, List, [], ◌∷◌, ◌++◌, append_assoc, append-nil, length, set, take, drop,
  length-append, length-set, length-drop, arith,
}
use t_cose.Sha256.{Sha256Ctx, compress, initial_state, sha256_init, update_byte}
use t_cose.Sha256.Update.{absorb}

-- The state after so many blocks of 64 bytes.
unfoldable pub hash_blocks : ℕ → List ℕ → List ℕ → List ℕ
hash_blocks zero state bs = state
hash_blocks (suc n) state bs = hash_blocks n (compress state (take 64 bs)) (drop 64 bs)

pub take-append_exact {ℓ} :
    {A : Type ℓ} (n : ℕ) (xs ys : List A) → n ≡ length xs → take n (xs ++ ys) ≡ xs
take-append_exact zero [] ys h = refl
take-append_exact zero (x ∷ xs) ys h = absurd (omega arith)
take-append_exact (suc n) [] ys h = absurd (omega arith)
take-append_exact (suc n) (x ∷ xs) ys h =
    ap (λ (r : List _). x ∷ r) (take-append_exact n xs ys (omega arith))

take-append_within {ℓ} :
    {A : Type ℓ} (n : ℕ) (xs ys : List A) → n ≤ length xs → take n (xs ++ ys) ≡ take n xs
take-append_within zero xs ys h = refl
take-append_within (suc n) [] ys h = absurd (omega arith)
take-append_within (suc n) (x ∷ xs) ys h =
    ap (λ (r : List _). x ∷ r) (take-append_within n xs ys (omega arith))

drop-append_within {ℓ} :
    {A : Type ℓ} (n : ℕ) (xs ys : List A) → n ≤ length xs → drop n (xs ++ ys) ≡ drop n xs ++ ys
drop-append_within zero xs ys h = refl
drop-append_within (suc n) [] ys h = absurd (omega arith)
drop-append_within (suc n) (x ∷ xs) ys h = drop-append_within n xs ys (omega arith)

take_whole {ℓ} : {A : Type ℓ} (n : ℕ) (xs : List A) → length xs ≡ n → take n xs ≡ xs
take_whole n xs h = ap (take n) (sym (append-nil xs)) ∙ take-append_exact n xs [] (sym h)

-- A block more at the end.
pub hash_blocks-append :
    (n : ℕ) (state full block : List ℕ)
    → length full ≡ n * 64
    → length block ≡ 64
    → hash_blocks (suc n) state (full ++ block) ≡ compress (hash_blocks n state full) block
unfolding hash_blocks
hash_blocks-append zero state [] block h l = ap (compress state) (take_whole 64 block l)
hash_blocks-append zero state (x ∷ full) block h l = absurd (omega arith)
hash_blocks-append (suc n) state full block h l =
    rw
      (
        take-append_within 64 full block (omega arith),
        drop-append_within 64 full block (omega arith),
      )
      (hash_blocks-append n (compress state (take 64 full)) (drop 64 full) block
        (omega (arith, length-drop 64 full)) l)

-- Writing behind the first n entries.
take-set :
    (n : ℕ) (xs : List ℕ) (v : ℕ)
    → n < length xs
    → take (suc n) (set xs n v) ≡ take n xs ++ (v ∷ [])
take-set n [] v h = absurd (omega arith)
take-set zero (x ∷ xs) v h = refl
take-set (suc n) (x ∷ xs) v h = ap (λ (r : List ℕ). x ∷ r) (take-set n xs v (omega arith))

-- The context after the bytes of `stream` since sha256_init().
pub record HasHashed (ctx : Sha256Ctx) (stream : List ℕ) : Type 0 where
  pub blocks : ℕ
  pub full : List ℕ
  pub split : stream ≡ full ++ take ctx.datalen ctx.data_block
  pub full_length : length full ≡ blocks * 64
  pub data_length : length ctx.data_block ≡ 64
  pub datalen_small : ctx.datalen < 64
  pub hashed : ctx.state ≡ hash_blocks blocks initial_state full
  pub bits : ctx.bitlen ≡ blocks * 512 % 2 ^ 64

pub sha256_init-HasHashed :
    (ctx : Sha256Ctx) → length ctx.data_block ≡ 64 → HasHashed (sha256_init ctx) []
unfolding sha256_init hash_blocks
sha256_init-HasHashed ctx h = record {
  blocks = 0;
  full = [];
  split = refl;
  full_length = refl;
  data_length = h;
  datalen_small = omega arith;
  hashed = refl;
  bits = refl;
}

update_byte_kept :
    (ctx : Sha256Ctx) (byte : ℕ)
    → (ctx.datalen + 1 == 64) ≡ false
    → update_byte ctx byte
      ≡ record ctx { data_block = set ctx.data_block ctx.datalen byte; datalen = ctx.datalen + 1 }
unfolding update_byte
update_byte_kept ctx byte h = rw h refl

update_byte_full :
    (ctx : Sha256Ctx) (byte : ℕ)
    → (ctx.datalen + 1 == 64) ≡ true
    → update_byte ctx byte ≡ record {
      data_block = set ctx.data_block ctx.datalen byte;
      datalen = 0;
      bitlen = (ctx.bitlen + 512) % 2 ^ 64;
      state = compress ctx.state (set ctx.data_block ctx.datalen byte);
    }
unfolding update_byte
update_byte_full ctx byte h = rw h refl

-- The bytes in the data with the next one.
split_step :
    (ctx : Sha256Ctx) (stream : List ℕ) (byte : ℕ) (w : HasHashed ctx stream)
    → stream ++ (byte ∷ []) ≡ w.full ++ take (ctx.datalen + 1) (set ctx.data_block ctx.datalen byte)
split_step ctx stream byte w =
    let next : suc ctx.datalen ≡ ctx.datalen + 1 = omega arith in
    ap (λ (x : List ℕ). x ++ (byte ∷ [])) w.split
    ∙ append_assoc w.full _ (byte ∷ [])
    ∙ ap (λ (x : List ℕ). w.full ++ x)
        (sym (
          take-set ctx.datalen ctx.data_block byte (omega (arith, w.data_length, w.datalen_small))))
    ∙ ap (λ n. w.full ++ take n (set ctx.data_block ctx.datalen byte)) next

bits_step :
    (blocks bits : ℕ)
    → bits ≡ blocks * 512 % 2 ^ 64
    → (bits + 512) % 2 ^ 64 ≡ suc blocks * 512 % 2 ^ 64
bits_step blocks bits h = omega (arith, h)

-- A byte more.
pub update_byte-HasHashed :
    (ctx : Sha256Ctx) (stream : List ℕ) (byte : ℕ)
    → HasHashed ctx stream
    → HasHashed (update_byte ctx byte) (stream ++ (byte ∷ []))
update_byte-HasHashed ctx stream byte w =
    let block = set ctx.data_block ctx.datalen byte in
    let sized : length block ≡ 64 = length-set ctx.data_block ctx.datalen byte ∙ w.data_length in
    elim (Bool-cases (ctx.datalen + 1 == 64)) [
      | inl full ↦
          let whole : ctx.datalen + 1 ≡ 64 = ground (arith, full) in
          let taken : take (ctx.datalen + 1) block ≡ block = rw whole (take_whole 64 block sized) in
          subst (λ c. HasHashed c (stream ++ (byte ∷ []))) (sym (update_byte_full ctx byte full))
            (record {
              blocks = suc w.blocks;
              full = w.full ++ block;
              split =
                  split_step ctx stream byte w
                  ∙ ap (λ (x : List ℕ). w.full ++ x) taken
                  ∙ sym (append-nil (w.full ++ block));
              full_length = omega (arith, length-append w.full block, w.full_length, sized);
              data_length = sized;
              datalen_small = omega arith;
              hashed =
                  ap (λ s. compress s block) w.hashed
                  ∙ sym
                      (hash_blocks-append w.blocks initial_state w.full block w.full_length sized);
              bits = bits_step w.blocks ctx.bitlen w.bits;
            })
      | inr kept ↦
          subst (λ c. HasHashed c (stream ++ (byte ∷ []))) (sym (update_byte_kept ctx byte kept))
            (record {
              blocks = w.blocks;
              full = w.full;
              split = split_step ctx stream byte w;
              full_length = w.full_length;
              data_length = sized;
              datalen_small = ground (arith, kept, w.datalen_small);
              hashed = w.hashed;
              bits = w.bits;
            })
    ]

pub absorb-HasHashed :
    (bs : List ℕ) (ctx : Sha256Ctx) (stream : List ℕ)
    → HasHashed ctx stream
    → HasHashed (absorb ctx bs) (stream ++ bs)
unfolding absorb
absorb-HasHashed [] ctx stream w = rw (append-nil stream) w
absorb-HasHashed (b ∷ bs) ctx stream w = rw (sym (append_assoc stream (b ∷ []) bs)) (
    absorb-HasHashed bs (update_byte ctx b) (stream ++ (b ∷ []))
      (update_byte-HasHashed ctx stream b w))
