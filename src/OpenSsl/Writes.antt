-- ===== src/OpenSsl/Writes.antt =====
-- Numbers that are written into a buffer of zeros.
use t_cose.Common.{
  ℕ, zero, suc, ◌+◌, ◌-◌, ◌≤◌, ◌<◌, lt→ltb, le→ltb, ◌≡◌, refl, ap, ◌∙◌, arith, List, [], ◌∷◌, ◌++◌,
  append_assoc, length, length-append, take, drop, length-replicate, ok, fault,
}
use t_cose.OpenSsl.{zeros, write_at, write_before}

pub take-append_past :
    (xs ys : List ℕ) (n k : ℕ) → n ≡ length xs + k → take n (xs ++ ys) ≡ xs ++ take k ys
take-append_past [] ys n k h = let same : n ≡ k = omega (arith, h) in rw same refl
take-append_past (x ∷ xs) ys zero k h = absurd (omega (arith, h))
take-append_past (x ∷ xs) ys (suc n) k h =
    ap (λ l. x ∷ l) (take-append_past xs ys n k (omega (arith, h)))

pub drop-append_past :
    (xs ys : List ℕ) (n k : ℕ) → n ≡ length xs + k → drop n (xs ++ ys) ≡ drop k ys
drop-append_past [] ys n k h = let same : n ≡ k = omega (arith, h) in rw same refl
drop-append_past (x ∷ xs) ys zero k h = absurd (omega (arith, h))
drop-append_past (x ∷ xs) ys (suc n) k h = drop-append_past xs ys n k (omega (arith, h))

take-zeros : (n m : ℕ) → n ≤ m → take n (zeros m) ≡ zeros n
take-zeros zero m h = refl
take-zeros (suc n) zero h = absurd (omega (arith, h))
take-zeros (suc n) (suc m) h = ap (λ l. 0 ∷ l) (take-zeros n m (omega (arith, h)))

drop-zeros : (n m k : ℕ) → m ≡ n + k → drop n (zeros m) ≡ zeros k
drop-zeros zero m k h = let same : m ≡ k = omega (arith, h) in rw same refl
drop-zeros (suc n) zero k h = absurd (omega (arith, h))
drop-zeros (suc n) (suc m) k h = drop-zeros n m k (omega (arith, h))

pub length-zeros : (n : ℕ) → length (zeros n) ≡ n
length-zeros n = let zero_byte : ℕ = 0 in length-replicate n zero_byte

-- What RFC 8152 asks for: a number padded in front to a length.
abbrev pub padded : ℕ → List ℕ → List ℕ
padded n number = zeros (n - length number) ++ number

pub length-padded : (n : ℕ) (number : List ℕ) → length number ≤ n → length (padded n number) ≡ n
length-padded n number h =
    omega
      (arith, length-append (zeros (n - length number)) number, length-zeros (n - length number), h)

-- A number that is written before a place in a buffer of zeros.
pub write_before-zeros :
    (front number : List ℕ) (m k n rest : ℕ)
    → length number ≤ k
    → m ≡ k + rest
    → n ≡ length front + k
    → write_before (front ++ zeros m) n number ≡ ok ((front ++ padded k number) ++ zeros rest)
unfolding write_before write_at
write_before-zeros front number m k n rest fits room place =
    let all : length (front ++ zeros m) ≡ length front + m =
      length-append front (zeros m) ∙ ap (λ l. length front + l) (length-zeros m) in
    let back : n - length number + length number ≡ n = omega (arith, fits, place) in
    let skip : take (n - length number) (front ++ zeros m) ≡ front ++ zeros (k - length number) =
      take-append_past front (zeros m) (n - length number) (k - length number)
        (omega (arith, fits, place))
      ∙ ap (λ l. front ++ l) (take-zeros (k - length number) m (omega (arith, room))) in
    let after : drop n (front ++ zeros m) ≡ zeros rest =
      drop-append_past front (zeros m) n k place ∙ drop-zeros k m rest room in
    rw
      (
        le→ltb n (length number) (omega (arith, fits, place)),
        back,
        le→ltb (length (front ++ zeros m)) n (omega (arith, all, place, room)),
        skip,
        after,
      )
      (ap (λ l. ok (l ++ zeros rest)) (append_assoc front (zeros (k - length number)) number))

pub write_before-short :
    (buffer number : List ℕ) (n : ℕ)
    → length number ≤ n
    → length buffer < n
    → write_before buffer n number ≡ fault
unfolding write_before write_at
write_before-short buffer number n fits short =
    let back : n - length number + length number ≡ n = omega (arith, fits) in
    rw (le→ltb n (length number) fits, back, lt→ltb (length buffer) n short) refl
