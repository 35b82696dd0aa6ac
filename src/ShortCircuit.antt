-- ===== src/ShortCircuit.antt =====
-- src/t_cose_short_circuit.c and the short-circuit key identifier of src/t_cose_util.c.
pub mod Copies
pub mod Sign
pub mod Verify
use t_cose.Common.{
  ℕ, zero, suc, ◌+◌, ◌-◌, ◌==◌, ltb, ℤ, pos, eq_ℤ, not, min, List, [], ◌∷◌, if◌then◌else◌, length,
  take, Buf, null, bytes, len, UsefulBuf, Result, ok, err, fault, ◌>>=◌, ◌>>◌, fail_if,
  sig_buffer_size, sig_verify,
}
use t_cose.Algorithm.{cose_algorithm_es256, cose_algorithm_es384, cose_algorithm_es512}

-- T_COSE_EC_P256_SIG_SIZE, T_COSE_EC_P384_SIG_SIZE and T_COSE_EC_P512_SIG_SIZE.
abbrev pub ec_p256_sig_size : ℕ
ec_p256_sig_size = 64

abbrev pub ec_p384_sig_size : ℕ
ec_p384_sig_size = 96

abbrev pub ec_p512_sig_size : ℕ
ec_p512_sig_size = 132

-- The final test is of the pointer `sig_size` and not of the size: the pointer is that of a
-- variable of the caller, so the test never holds.
unfoldable pub short_circuit_sig_size : ℤ → Result ℕ
short_circuit_sig_size id = ok (
    if eq_ℤ id cose_algorithm_es256
    then ec_p256_sig_size
    else if eq_ℤ id cose_algorithm_es384
    then ec_p384_sig_size
    else if eq_ℤ id cose_algorithm_es512
    then ec_p512_sig_size
    else 0)

module _ {ℓ} {A : Type ℓ} where
  -- `memcpy(dst + i, src, ...)`
  unfoldable pub memcpy : ℕ → List A → List A → Result (List A)
  memcpy zero [] dst = ok dst
  memcpy zero (s ∷ src) [] = fault
  memcpy zero (s ∷ src) (d ∷ dst) = memcpy zero src dst >>= λ r. ok (s ∷ r)
  memcpy (suc i) src [] = fault
  memcpy (suc i) src (d ∷ dst) = memcpy i src dst >>= λ r. ok (d ∷ r)

-- The loop at array_indx. Each round moves it on by the length of the hash.
unfoldable pub fill_loop : ℕ → ℕ → List ℕ → ℕ → List ℕ → Result (List ℕ)
fill_loop zero sig_size hash array_indx buffer =
    if ltb array_indx sig_size then fault else ok buffer
fill_loop (suc fuel) sig_size hash array_indx buffer =
    let rest = λ (b : List ℕ). fill_loop fuel sig_size hash (array_indx + length hash) b in
    let amount_left = sig_size - array_indx in
    let amount_to_copy = if ltb (length hash) amount_left then length hash else amount_left in
    let next = memcpy array_indx (take amount_to_copy hash) buffer >>= rest in
    if ltb array_indx sig_size then next else ok buffer

-- The loop with the pointers that it is given, and the signature that it leaves. There are at most
-- as many rounds as there are bytes.
unfoldable pub fill : ℕ → Buf → Buf → Result Buf
fill size hash (null n) = if size == 0 then ok (null 0) else fault
fill size (null n) (bytes buffer) = if size == 0 then ok (bytes []) else fault
fill size (bytes hash) (bytes buffer) =
    fill_loop size size hash 0 buffer >>= λ b. ok (bytes (take size b))

unfoldable pub short_circuit_sign : ℤ → Buf → Buf → Result Buf
short_circuit_sign id hash_to_sign signature_buffer = do
  sig_size ← short_circuit_sig_size id
  fail_if (ltb (len signature_buffer) sig_size) sig_buffer_size
  fill sig_size hash_to_sign signature_buffer

unfoldable pub short_circuit_verify : UsefulBuf → Buf → Buf → Result (Unit {0})
short_circuit_verify u hash_to_verify signature = do
  let hash_from_sig = u.head signature (len hash_to_verify)
  fail_if (u.is_null hash_from_sig) sig_verify
  fail_if (not (eq_ℤ (u.compare hash_from_sig hash_to_verify) (pos 0))) sig_verify

-- get_short_circuit_kid()
abbrev pub short_circuit_kid : Buf
short_circuit_kid = bytes (
    0xef ∷ 0x95 ∷ 0x4b ∷ 0x4b ∷ 0xd9 ∷ 0xbd ∷ 0xf6 ∷ 0x70 ∷ 0xd0 ∷ 0x33 ∷ 0x60 ∷ 0x82 ∷ 0xf5 ∷ 0xef
    ∷ 0x15 ∷ 0x2a ∷ 0xf8 ∷ 0xf3 ∷ 0x5b ∷ 0x6a ∷ 0x6c ∷ 0x00 ∷ 0xef ∷ 0xa6 ∷ 0xa9 ∷ 0xa7 ∷ 0x1f
    ∷ 0x49 ∷ 0x51 ∷ 0x7e ∷ 0x18 ∷ 0xc6 ∷ [])
