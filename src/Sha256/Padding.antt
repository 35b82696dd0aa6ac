-- ===== src/Sha256/Padding.antt =====
-- The padding that sha256_final() writes into the data, as the padding of the stream.
use t_cose.Common.{
  ℕ, zero, suc, ◌+◌, ◌-◌, ◌≤◌, ◌<◌, ◌≡◌, refl, sym, ap, ◌∙◌, List, [], ◌∷◌, ◌++◌, append_assoc,
  append-nil, length, set, take, drop, length-append, length-take, length-drop, length-replicate,
  arith,
}
use t_cose.Qcbor.Encoder.{big_endian}
use t_cose.Sha256.{zeros, write_all}
use t_cose.Sha256.Stream.{take-append_exact}

write_all_zero :
    (vs xs : List ℕ) (x : ℕ) (i : ℕ) → write_all (suc i) vs (x ∷ xs) ≡ x ∷ write_all i vs xs
unfolding write_all
write_all_zero [] xs x i = refl
write_all_zero (v ∷ vs) xs x i = write_all_zero vs (set xs i v) x (suc i)

-- Writing a run of bytes that fits replaces that many.
pub write_all_lem :
    (i : ℕ) (vs xs : List ℕ)
    → i + length vs ≤ length xs
    → write_all i vs xs ≡ take i xs ++ (vs ++ drop (length vs) (drop i xs))
unfolding write_all
write_all_lem zero [] xs h = refl
write_all_lem zero (v ∷ vs) [] h = absurd (omega arith)
write_all_lem zero (v ∷ vs) (x ∷ xs) h =
    write_all_zero vs xs v 0 ∙ ap (λ (r : List ℕ). v ∷ r) (write_all_lem zero vs xs (omega arith))
write_all_lem (suc i) vs [] h = absurd (omega arith)
write_all_lem (suc i) vs (x ∷ xs) h =
    write_all_zero vs xs x i ∙ ap (λ (r : List ℕ). x ∷ r) (write_all_lem i vs xs (omega arith))

pub drop_all : (n : ℕ) (xs : List ℕ) → length xs ≤ n → drop n xs ≡ []
drop_all zero [] h = refl
drop_all zero (x ∷ xs) h = absurd (omega arith)
drop_all (suc n) [] h = refl
drop_all (suc n) (x ∷ xs) h = drop_all n xs (omega arith)

pub length-big_endian : (v : ℕ) → length (big_endian 8 v) ≡ 8
unfolding big_endian
length-big_endian v = refl

-- A run that ends with the block.
pub write_all_end :
    (i : ℕ) (vs xs : List ℕ)
    → length xs ≡ 64
    → i + length vs ≡ 64
    → write_all i vs xs ≡ take i xs ++ vs
write_all_end i vs xs l h =
    write_all_lem i vs xs (omega (arith, l, h))
    ∙ ap (λ (r : List ℕ). take i xs ++ (vs ++ r))
        (drop_all (length vs) (drop i xs) (omega (arith, l, h, length-drop i xs)))
    ∙ ap (λ (r : List ℕ). take i xs ++ r) (append-nil vs)

pub length-zeros : (n : ℕ) → length (zeros n) ≡ n
length-zeros n = length-replicate n 0

-- The byte 0x80 and zeros.
abbrev pub marked : ℕ → List ℕ
marked n = 0x80 ∷ zeros n

pub length-marked : (n : ℕ) → length (marked n) ≡ suc n
length-marked n = ap suc (length-zeros n)

-- The only block that is left, where the padding fits behind the data.
pub last_block :
    (held be : List ℕ) (n : ℕ)
    → length held ≡ 64
    → length be ≡ 8
    → n < 56
    → write_all 56 be (write_all n (marked (55 - n)) held) ≡ take n held ++ (marked (55 - n) ++ be)
last_block held be n l m small =
    let front = take n held ++ marked (55 - n) in
    let sized : 56 ≡ length front = omega (
      arith,
      length-append (take n held) (marked (55 - n)),
      length-take n held,
      length-zeros (55 - n),
      l,
    ) in
    let written =
      write_all_lem n (marked (55 - n)) held (omega (arith, length-zeros (55 - n), l)) in
    ap (write_all 56 be) (written ∙ sym (append_assoc (take n held) (marked (55 - n)) _))
    ∙ write_all_end 56 be (front ++ drop (length (marked (55 - n))) (drop n held))
        (omega (
          arith,
          length-append front (drop (length (marked (55 - n))) (drop n held)),
          length-drop (length (marked (55 - n))) (drop n held),
          length-drop n held,
          length-marked (55 - n),
          l,
          sized,
        ))
        (omega (arith, m))
    ∙ ap (λ (r : List ℕ). r ++ be) (take-append_exact 56 front _ sized)
    ∙ append_assoc (take n held) (marked (55 - n)) be

-- The first of two blocks that are left.
pub first_block :
    (held : List ℕ) (n : ℕ)
    → length held ≡ 64
    → n < 64
    → write_all n (marked (63 - n)) held ≡ take n held ++ marked (63 - n)
first_block held n l small =
    write_all_end n (marked (63 - n)) held l (omega (arith, length-zeros (63 - n)))

-- The second.
pub second_block :
    (block be : List ℕ)
    → length block ≡ 64
    → length be ≡ 8
    → write_all 56 be (write_all 0 (zeros 56) block) ≡ zeros 56 ++ be
second_block block be l m =
    ap (write_all 56 be) (write_all_lem 0 (zeros 56) block (omega (arith, l)))
    ∙ write_all_end 56 be (zeros 56 ++ drop (length (zeros 56)) (drop 0 block))
        (omega (
          arith,
          length-append (zeros 56) (drop (length (zeros 56)) (drop 0 block)),
          length-drop (length (zeros 56)) (drop 0 block),
          l,
        ))
        (omega (arith, m))
    ∙ ap (λ (r : List ℕ). r ++ be)
        (take-append_exact 56 (zeros 56) (drop (length (zeros 56)) (drop 0 block)) refl)
