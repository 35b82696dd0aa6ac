-- ===== src/ShortCircuit/Verify.antt =====
-- Which signatures t_cose_crypto_short_circuit_verify() accepts.
use t_cose.Common.{
  ℕ, zero, suc, ◌-◌, ◌≤◌, ◌<◌, ltb, ltb→lt, ltb→le, le→ltb, ◌≡◌, refl, sym, subst, ok-injective,
  length-append, ◌∙◌, ◌↔◌, ◌⊎◌, inl, inr, false, Bool-cases, ℤ, pos, negsuc, eq_ℤ_iff, List, [],
  arith, length, take, Buf, null_buf, bytes, UsefulBuf, ok, err, sig_verify,
}
use t_cose.ShortCircuit.{
  fill_loop, fill, short_circuit_sig_size, short_circuit_sign, short_circuit_verify,
}
use t_cose.ShortCircuit.Copies.{copies, take-all}
use t_cose.ShortCircuit.Sign.{take-append_length, short_circuit_sign-copies}
use t_cose.Algorithm.{is_ecdsa}
use Prim.Native.Nat.{zero-le}

module _ (u : UsefulBuf) where
  -- A signature is accepted exactly when it begins with the hash; what follows is not looked at.
  -- Any other is refused with T_COSE_ERR_SIG_VERIFY.
  pub short_circuit_verify_iff :
      (hash signature : List ℕ)
      → ((short_circuit_verify u (bytes hash) (bytes signature) ≡ ok tt)
          ↔ ((length hash ≤ length signature) × (take (length hash) signature ≡ hash)))
        × ((short_circuit_verify u (bytes hash) (bytes signature) ≡ ok tt)
            ⊎ (short_circuit_verify u (bytes hash) (bytes signature) ≡ err sig_verify))
  unfolding short_circuit_verify
  short_circuit_verify_iff hash signature =
      elim (Bool-cases (ltb (length signature) (length hash))) [
        | inl short ↦
            rw
              (
                u.head_short (length hash) (bytes signature) (ltb→lt _ _ short),
                u.is_null_lem null_buf,
              )
              ((λ h. cc, λ h. absurd (ground arith)), inr refl)
        | inr long ↦
            rw
              (
                u.head_bytes (length hash) signature (ltb→le _ _ long),
                u.is_null_lem (bytes (take (length hash) signature)),
              )
              (ground (
                arith,
                u.compare_bytes (take (length hash) signature) hash,
                eq_ℤ_iff (u.compare (bytes (take (length hash) signature)) (bytes hash)) (pos 0),
              ))
      ]

take-copies :
    (n : ℕ) (hash : List ℕ)
    → 0 < length hash
    → length hash ≤ n
    → (length hash ≤ length (copies n n hash)) × (take (length hash) (copies n n hash) ≡ hash)
unfolding copies
take-copies zero hash ne h = absurd (omega arith)
take-copies (suc n) hash ne h = rw (take-all (suc n) hash h) (
  omega (arith, length-append hash (copies n (suc n - length hash) hash)),
  take-append_length hash (copies n (suc n - length hash) hash),
)

short_circuit_sig_size_other : (id : ℤ) → is_ecdsa id ≡ false → short_circuit_sig_size id ≡ ok 0
unfolding short_circuit_sig_size is_ecdsa
short_circuit_sig_size_other (pos n) h = ground arith
short_circuit_sig_size_other (negsuc n) h = ground arith

module _ (u : UsefulBuf) (id : ℤ) (hash buffer : List ℕ) (nonempty : 0 < length hash) where
  -- A signature made by short_circuit_sign() is accepted for the same hash, if the hash is not
  -- empty, not longer than the signature, and the signature fits the buffer.
  pub short_circuit_verify-sign :
      (size : ℕ) (signature : Buf)
      → short_circuit_sig_size id ≡ ok size
      → length hash ≤ size
      → size ≤ length buffer
      → short_circuit_sign id (bytes hash) (bytes buffer) ≡ ok signature
      → short_circuit_verify u (bytes hash) signature ≡ ok tt
  short_circuit_verify-sign size signature sized fits room signed =
      let made = short_circuit_sign-copies id hash buffer size sized nonempty room in
      subst (λ s. short_circuit_verify u (bytes hash) s ≡ ok tt)
        (ok-injective _ _ (sym made ∙ signed))
        ((short_circuit_verify_iff u hash (copies size size hash)).0.1
          (take-copies size hash nonempty fits))

  -- For an algorithm that is not ECDSA the size is 0 and no error: short_circuit_sign() succeeds
  -- with an empty signature, which is then refused for every hash that is not empty.
  pub short_circuit_sign_other :
      is_ecdsa id ≡ false
      → (short_circuit_sign id (bytes hash) (bytes buffer) ≡ ok (bytes []))
        × (short_circuit_verify u (bytes hash) (bytes []) ≡ err sig_verify)
  unfolding short_circuit_sign fill fill_loop short_circuit_verify
  short_circuit_sign_other other = (
    rw (short_circuit_sig_size_other id other, le→ltb (length buffer) 0 zero-le) refl,
    rw (u.head_short (length hash) (bytes []) nonempty, u.is_null_lem null_buf) refl,
  )
