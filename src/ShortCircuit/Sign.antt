-- ===== src/ShortCircuit/Sign.antt =====
-- What short_circuit_sign() writes, as a whole.
use t_cose.Common.{
  ℕ, zero, suc, ◌+◌, ◌-◌, ◌%◌, ◌≤◌, ◌<◌, ltb, ltb→lt, ltb→le, le→ltb, ◌≡◌, refl, sym, ap, ◌∙◌, inl,
  inr, Bool-cases, ℤ, List, [], ◌∷◌, ◌++◌, if◌then◌else◌, arith, length, take, drop, get_or,
  length-take, take-append-drop, bytes, ok,
}
use native.Mathlib.Nat.{mod-eq_of_lt, mod-eq-sub-mod}
use t_cose.ShortCircuit.{fill, short_circuit_sig_size, short_circuit_sign}
use t_cose.ShortCircuit.Copies.{copies, fill_loop-copies, length-copies}

get_or-append_left :
    (xs ys : List ℕ) (i : ℕ) → i < length xs → get_or (xs ++ ys) i 0 ≡ get_or xs i 0
get_or-append_left [] ys i h = absurd (omega arith)
get_or-append_left (x ∷ xs) ys zero h = refl
get_or-append_left (x ∷ xs) ys (suc i) h = get_or-append_left xs ys i (omega arith)

get_or-append_right :
    (xs ys : List ℕ) (i : ℕ) → length xs ≤ i → get_or (xs ++ ys) i 0 ≡ get_or ys (i - length xs) 0
get_or-append_right [] ys i h = ap (λ (k : ℕ). get_or ys k 0) (omega arith)
get_or-append_right (x ∷ xs) ys zero h = absurd (omega arith)
get_or-append_right (x ∷ xs) ys (suc i) h =
    get_or-append_right xs ys i (omega arith) ∙ ap (λ (k : ℕ). get_or ys k 0) (omega arith)

get_or-take : (n : ℕ) (xs : List ℕ) (i : ℕ) → i < n → get_or (take n xs) i 0 ≡ get_or xs i 0
get_or-take zero xs i h = absurd (omega arith)
get_or-take (suc n) [] i h = refl
get_or-take (suc n) (x ∷ xs) zero h = refl
get_or-take (suc n) (x ∷ xs) (suc i) h = get_or-take n xs i (omega arith)

get_or-outside : (xs : List ℕ) (i : ℕ) → length xs ≤ i → get_or xs i 0 ≡ 0
get_or-outside [] i h = refl
get_or-outside (x ∷ xs) zero h = absurd (omega arith)
get_or-outside (x ∷ xs) (suc i) h = get_or-outside xs i (omega arith)

get_or-copies :
    (fuel n : ℕ) (hash : List ℕ) (i : ℕ)
    → n ≤ fuel
    → 0 < length hash
    → i < n
    → get_or (copies fuel n hash) i 0 ≡ get_or hash (i % length hash) 0
unfolding copies
get_or-copies zero n hash i h pos small = absurd (omega arith)
get_or-copies (suc fuel) n hash i h pos small = elim (Bool-cases (ltb i (length hash))) [
  | inl first ↦
      get_or-append_left (take n hash) _ i (ground (arith, length-take n hash))
      ∙ get_or-take n hash i small
      ∙ ap (λ (k : ℕ). get_or hash k 0) (sym (mod-eq_of_lt (ltb→lt _ _ first)))
  | inr later ↦
      let long : length (take n hash) ≡ length hash = ground (arith, length-take n hash) in
      get_or-append_right (take n hash) _ i (ground arith)
      ∙ ap (λ (k : ℕ). get_or (copies fuel (n - length hash) hash) (i - k) 0) long
      ∙ get_or-copies fuel (n - length hash) hash (i - length hash) (ground arith) pos
          (ground arith)
      ∙ ap (λ (k : ℕ). get_or hash k 0) (sym (mod-eq-sub-mod (ltb→le _ _ later)))
]

pub take-append_length {ℓ} : {A : Type ℓ} (xs ys : List A) → take (length xs) (xs ++ ys) ≡ xs
take-append_length [] ys = refl
take-append_length (x ∷ xs) ys = ap (λ (r : List _). x ∷ r) (take-append_length xs ys)

module _ (id : ℤ) (hash buffer : List ℕ) (size : ℕ) (sized : short_circuit_sig_size id ≡ ok size)
    (filled_hash : 0 < length hash) where
  pub short_circuit_sign-copies :
      size ≤ length buffer
      → short_circuit_sign id (bytes hash) (bytes buffer) ≡ ok (bytes (copies size size hash))
  unfolding short_circuit_sign fill
  short_circuit_sign-copies room =
      let from_zero : 0 + size ≡ size = omega arith in
      let filled =
        rw (from_zero, take-append-drop size buffer) at
          (fill_loop-copies size size hash [] (take size buffer) (drop size buffer) (omega arith)
            filled_hash (omega (arith, length-take size buffer))) in
      let cut =
        rw (length-copies size size hash (omega arith) filled_hash) at
          (take-append_length (copies size size hash) (drop size buffer)) in
      rw (sized, le→ltb (length buffer) size room, filled, cut) refl

  -- For a hash that is not empty and a buffer that the signature fits in, short_circuit_sign()
  -- returns without leaving the buffer, and the signature is of the stated size and repeats the hash.
  pub short_circuit_sign_lem :
      size ≤ length buffer
      → (signature : List ℕ) × (short_circuit_sign id (bytes hash) (bytes buffer)
          ≡ ok (bytes signature))
        × (length signature ≡ size)
        × ((i : ℕ)
            → get_or signature i 0 ≡ (if ltb i size then get_or hash (i % length hash) 0 else 0))
  short_circuit_sign_lem room = (
    copies size size hash,
    short_circuit_sign-copies room,
    length-copies size size hash (omega arith) filled_hash,
    λ i. elim (Bool-cases (ltb i size)) [
      | inl inside ↦
          rw inside
            (get_or-copies size size hash i (omega arith) filled_hash (ltb→lt i size inside))
      | inr outside ↦ rw outside (
          get_or-outside (copies size size hash) i (
            omega (
              arith,
              ltb→le i size outside,
              length-copies size size hash (omega arith) filled_hash,
            )))
    ],
  )
