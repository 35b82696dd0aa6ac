-- ===== src/ShortCircuit/Copies.antt =====
-- The loop of short_circuit_sign() writes copies of the hash, cut off at the size of a signature.
use t_cose.Common.{
  true, ℕ, zero, suc, ◌+◌, ◌-◌, ◌≤◌, ◌<◌, ltb, lt→ltb, ltb→le, le→ltb, min, ◌≡◌, refl, sym, ap, ◌∙◌,
  inl, inr, Bool-cases, List, [], ◌∷◌, ◌++◌, append_assoc, append-nil, if◌then◌else◌, arith, length,
  take, drop, length-append, length-take, length-drop, ok,
}
use native.Mathlib.Nat.{zero-sub}
use t_cose.ShortCircuit.{memcpy, fill_loop}

-- The first n bytes of hash ++ hash ++ …, with at most `fuel` copies.
unfoldable pub copies : ℕ → ℕ → List ℕ → List ℕ
copies zero n hash = []
copies (suc fuel) n hash = take n hash ++ copies fuel (n - length hash) hash

memcpy-append {ℓ} :
    {A : Type ℓ} (pre src post : List A)
    → length src ≤ length post
    → memcpy (length pre) src (pre ++ post) ≡ ok (pre ++ (src ++ drop (length src) post))
unfolding memcpy
memcpy-append [] [] post h = refl
memcpy-append [] (s ∷ src) [] h = absurd (omega arith)
memcpy-append [] (s ∷ src) (d ∷ post) h = rw (memcpy-append [] src post (omega arith))
memcpy-append (x ∷ pre) src post h = rw (memcpy-append pre src post h)

pub length-copies :
    (fuel n : ℕ) (hash : List ℕ) → n ≤ fuel → 0 < length hash → length (copies fuel n hash) ≡ n
unfolding copies
length-copies zero n hash h pos = omega arith
length-copies (suc fuel) n hash h pos = omega (
  arith,
  length-append (take n hash) (copies fuel (n - length hash) hash),
  length-take n hash,
  length-copies fuel (n - length hash) hash (omega arith) pos,
)

copies-zero : (fuel : ℕ) (hash : List ℕ) → copies fuel 0 hash ≡ []
unfolding copies
copies-zero zero hash = refl
copies-zero (suc fuel) hash = rw (zero-sub (length hash)) (copies-zero fuel hash)

length-zero {ℓ} : {A : Type ℓ} (xs : List A) → length xs ≡ 0 → xs ≡ []
length-zero [] h = refl
length-zero (x ∷ xs) h = absurd (omega arith)

pub take-all {ℓ} : {A : Type ℓ} (n : ℕ) (xs : List A) → length xs ≤ n → take n xs ≡ xs
take-all zero xs h = sym (length-zero xs (omega arith))
take-all (suc n) [] h = refl
take-all (suc n) (x ∷ xs) h = ap (λ (r : List _). x ∷ r) (take-all n xs (omega arith))

drop-append {ℓ} :
    {A : Type ℓ} (n : ℕ) (xs ys : List A) → n ≤ length xs → drop n (xs ++ ys) ≡ drop n xs ++ ys
drop-append zero xs ys h = refl
drop-append (suc n) [] ys h = absurd (omega arith)
drop-append (suc n) (x ∷ xs) ys h = drop-append n xs ys (omega arith)

fill_loop-done :
    (fuel size : ℕ) (hash : List ℕ) (i : ℕ) (b : List ℕ)
    → size ≤ i
    → fill_loop fuel size hash i b ≡ ok b
unfolding fill_loop
fill_loop-done zero size hash i b h = rw (le→ltb i size h)
fill_loop-done (suc fuel) size hash i b h = rw (le→ltb i size h)

-- A round that copies k bytes over the front of what is left.
fill_loop-suc :
    (fuel n k : ℕ) (hash pre mid post : List ℕ)
    → 0 < n
    → length mid ≡ n
    → k ≡ min (length hash) n
    → fill_loop (suc fuel) (length pre + n) hash (length pre) (pre ++ (mid ++ post))
      ≡ fill_loop fuel
          (length pre + n)
          hash
          (length pre + length hash)
          (pre ++ (take k hash ++ (drop k mid ++ post)))
unfolding fill_loop
fill_loop-suc fuel n k hash pre mid post some sized kd =
    let amount : (if ltb (length hash) (length pre + n - length pre)
          then length hash
          else length pre + n - length pre)
        ≡ k =
      ground arith in
    let taken : length (take k hash) ≡ k = omega (arith, length-take k hash) in
    rw
      (
        lt→ltb (length pre) (length pre + n) (omega arith),
        amount,
        memcpy-append pre (take k hash) (mid ++ post) (omega (arith, length-append mid post)),
        taken,
        drop-append k mid post (omega arith),
      )
      refl

-- A round that copies the whole hash, and then the other rounds.
fill_loop-more :
    (fuel n : ℕ) (hash pre mid post : List ℕ)
    → ltb (length hash) (suc n) ≡ true
    → length mid ≡ suc n
    → fill_loop fuel
        (length (pre ++ hash) + (suc n - length hash))
        hash
        (length (pre ++ hash))
        ((pre ++ hash) ++ (drop (length hash) mid ++ post))
      ≡ ok ((pre ++ hash) ++ (copies fuel (suc n - length hash) hash ++ post))
    → fill_loop (suc fuel) (length pre + suc n) hash (length pre) (pre ++ (mid ++ post))
      ≡ ok (pre ++ (copies (suc fuel) (suc n) hash ++ post))
unfolding copies
fill_loop-more fuel n hash pre mid post more sized rest =
    let total : length pre + length hash + (suc n - length hash) ≡ length pre + suc n =
      ground arith in
    let rest' = simp (length-append, append_assoc, total) at rest in
    rw
      (
        fill_loop-suc fuel (suc n) (length hash) hash pre mid post (omega arith) sized
            (ground arith),
        take-all (length hash) hash (omega arith),
        take-all (suc n) hash (ground arith),
      )
      (rest' ∙ ap (λ (m : List ℕ). ok (pre ++ m)) (sym (append_assoc hash _ post)))

-- A round that ends the signature.
fill_loop-last :
    (fuel n : ℕ) (hash pre mid post : List ℕ)
    → suc n ≤ length hash
    → length mid ≡ suc n
    → fill_loop (suc fuel) (length pre + suc n) hash (length pre) (pre ++ (mid ++ post))
      ≡ ok (pre ++ (copies (suc fuel) (suc n) hash ++ post))
unfolding copies
fill_loop-last fuel n hash pre mid post last sized =
    let none_left : suc n - length hash ≡ 0 = omega arith in
    rw
      (
        fill_loop-suc fuel (suc n) (suc n) hash pre mid post (omega arith) sized (omega arith),
        fill_loop-done fuel (length pre + suc n) hash (length pre + length hash)
            (pre ++ (take (suc n) hash ++ (drop (suc n) mid ++ post))) (omega arith),
        none_left,
        copies-zero fuel hash,
        append-nil (take (suc n) hash),
        length-zero (drop (suc n) mid) (omega (arith, length-drop (suc n) mid)),
      )
      refl

pub fill_loop-copies :
    (fuel n : ℕ) (hash pre mid post : List ℕ)
    → n ≤ fuel
    → 0 < length hash
    → length mid ≡ n
    → fill_loop fuel (length pre + n) hash (length pre) (pre ++ (mid ++ post))
      ≡ ok (pre ++ (copies fuel n hash ++ post))
fill_loop-copies fuel zero hash pre mid post h pos sized =
    fill_loop-done fuel _ hash (length pre) _ (omega arith)
    ∙ ap (λ (m : List ℕ). ok (pre ++ (m ++ post)))
        (length-zero mid sized ∙ sym (copies-zero fuel hash))
fill_loop-copies zero (suc n) hash pre mid post h pos sized = absurd (omega arith)
fill_loop-copies (suc fuel) (suc n) hash pre mid post h pos sized =
    elim (Bool-cases (ltb (length hash) (suc n))) [
      | inl more ↦ fill_loop-more fuel n hash pre mid post more sized (
          fill_loop-copies fuel (suc n - length hash) hash (pre ++ hash) (drop (length hash) mid)
            post (ground arith) pos (omega (arith, length-drop (length hash) mid)))
      | inr last ↦ fill_loop-last fuel n hash pre mid post (ltb→le _ _ last) sized
    ]
