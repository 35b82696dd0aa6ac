-- ===== src/Sha256/Update.antt =====
-- The loop of sha256_update(), whose counter has 32 bits while the length has 64.
use t_cose.Common.{
  ℕ, zero, suc, ◌+◌, ◌%◌, ◌^◌, ◌≤◌, ◌<◌, ltb, ltb→lt, ltb→le, ◌≡◌, refl, inl, inr, Bool-cases, none,
  some, List, [], ◌∷◌, ◌++◌, length, get_or, drop, if◌then◌else◌, arith,
}
use t_cose.Sha256.{Sha256Ctx, update_byte, update_loop, sha256_update}

-- The context after each byte in turn.
unfoldable pub absorb : Sha256Ctx → List ℕ → Sha256Ctx
absorb ctx [] = ctx
absorb ctx (b ∷ bs) = absorb (update_byte ctx b) bs

-- Hashing a stream in pieces is hashing it at once.
pub absorb-append : (a b : List ℕ) (ctx : Sha256Ctx) → absorb (absorb ctx a) b ≡ absorb ctx (a ++ b)
unfolding absorb
absorb-append [] b ctx = refl
absorb-append (x ∷ a) b ctx = absorb-append a b (update_byte ctx x)

drop-get_or : (i : ℕ) (bs : List ℕ) → i < length bs → drop i bs ≡ get_or bs i 0 ∷ drop (suc i) bs
drop-get_or i [] h = absurd (omega arith)
drop-get_or zero (b ∷ bs) h = refl
drop-get_or (suc i) (b ∷ bs) h = drop-get_or i bs (omega arith)

drop_end : (i : ℕ) (bs : List ℕ) → length bs ≤ i → drop i bs ≡ []
drop_end zero [] h = refl
drop_end zero (b ∷ bs) h = absurd (omega arith)
drop_end (suc i) [] h = refl
drop_end (suc i) (b ∷ bs) h = drop_end i bs (omega arith)

-- A counter that reaches the length has passed every byte.
update_loop-short :
    (fuel i : ℕ) (bs : List ℕ) (ctx : Sha256Ctx)
    → length bs < 2 ^ 32
    → i ≤ length bs
    → length bs < i + fuel
    → update_loop fuel i bs ctx ≡ some (absorb ctx (drop i bs))
unfolding update_loop absorb
update_loop-short zero i bs ctx short h f = absurd (omega arith)
update_loop-short (suc fuel) i bs ctx short h f = elim (Bool-cases (ltb i (length bs))) [
  | inl inside ↦
      let lt = ltb→lt i (length bs) inside in
      let next : (i + 1) % 2 ^ 32 ≡ suc i = omega arith in
      rw (inside, next, drop-get_or i bs lt)
        (update_loop-short fuel (suc i) bs (update_byte ctx (get_or bs i 0)) short (omega arith)
          (omega arith))
  | inr end ↦ rw (end, drop_end i bs (ltb→le i (length bs) end)) refl
]

-- A WORD is below a longer length for ever.
update_loop-long :
    (fuel i : ℕ) (bs : List ℕ) (ctx : Sha256Ctx)
    → 2 ^ 32 ≤ length bs
    → i < 2 ^ 32
    → update_loop fuel i bs ctx ≡ none
unfolding update_loop
update_loop-long zero i bs ctx long h = refl
update_loop-long (suc fuel) i bs ctx long h = elim (Bool-cases (ltb i (length bs))) [
  | inl inside ↦ rw inside (
      update_loop-long fuel ((i + 1) % 2 ^ 32) bs (update_byte ctx (get_or bs i 0)) long
        (omega arith))
  | inr end ↦ absurd (omega (arith, ltb→le i (length bs) end))
]

-- The loop of sha256_update(), given more tests of its condition than there are bytes, ends with every
-- byte hashed once and in order for less than 2^32 bytes; for 2^32 bytes or more it has not ended
-- after any number of them.
pub update_loop_ends :
    (fuel : ℕ) (bs : List ℕ) (ctx : Sha256Ctx)
    → length bs < fuel
    → update_loop fuel 0 bs ctx ≡ (if ltb (length bs) (2 ^ 32) then some (absorb ctx bs) else none)
update_loop_ends fuel bs ctx f = elim (Bool-cases (ltb (length bs) (2 ^ 32))) [
  | inl short ↦ rw short (
      update_loop-short fuel 0 bs ctx (ltb→lt (length bs) (2 ^ 32) short) (omega arith)
        (omega arith))
  | inr long ↦
      rw long (update_loop-long fuel 0 bs ctx (ltb→le (length bs) (2 ^ 32) long) (omega arith))
]

pub sha256_update-absorb :
    (bs : List ℕ) (ctx : Sha256Ctx)
    → length bs < 2 ^ 32
    → sha256_update ctx bs ≡ some (absorb ctx bs)
unfolding sha256_update
sha256_update-absorb bs ctx short =
    update_loop-short (suc (length bs)) 0 bs ctx short (omega arith) (omega arith)
