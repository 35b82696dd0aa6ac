-- ===== src/OpenSsl/Der.antt =====
-- ecdsa_signature_der_to_cose()
use t_cose.Common.{
  ℕ, ◌+◌, ◌-◌, ◌*◌, ◌≤◌, ◌<◌, ltb, le→ltb, ◌≡◌, refl, arith, List, [], ◌++◌, append-nil, length,
  length-append, Buf, bytes, ok, fault, some, Bool-cases, inl, inr, ltb→lt, ltb→le, lt→ltb,
  null_buf, is_null_ptr, false, ok-injective, sym, ap, ◌∙◌,
}
use t_cose.OpenSsl.{
  OpenSsl, zeros, copy_numbers, write_before, ecdsa_key_size, ecdsa_signature_der_to_cose,
}
use t_cose.OpenSsl.Writes.{
  padded, take-append_past, length-zeros, length-padded, write_before-zeros, write_before-short,
}

-- BN_num_bytes() is the number of bytes that BN_bn2bin() writes.
pub record SizesNumbers (o : OpenSsl) : Type 0 where
  pub length-bn2bin : (b : o.Bignum) → length (o.bn_bn2bin b) ≡ o.bn_num_bytes b

module _ (o : OpenSsl) (sizes : SizesNumbers o) (k : ℕ) (r s : o.Bignum) (n : ℕ)
    (r_fits : o.bn_num_bytes r ≤ k) (s_fits : o.bn_num_bytes s ≤ k) where
  r_length : length (o.bn_bn2bin r) ≤ k
  r_length = rw (sizes.length-bn2bin r) r_fits

  s_length : length (o.bn_bn2bin s) ≤ k
  s_length = rw (sizes.length-bn2bin s) s_fits

  r_written :
      k ≤ n
      → write_before (zeros n) k (o.bn_bn2bin r) ≡ ok (padded k (o.bn_bn2bin r) ++ zeros (n - k))
  r_written room =
      write_before-zeros [] (o.bn_bn2bin r) n k k (n - k) r_length (omega (arith, room))
        (omega arith)

  copy_numbers-padded :
      2 * k ≤ n
      → copy_numbers o k (r, s) (zeros n)
        ≡ ok (bytes (padded k (o.bn_bn2bin r) ++ padded k (o.bn_bn2bin s)))
  copy_numbers-padded room =
      let front = padded k (o.bn_bn2bin r) in
      let both = front ++ padded k (o.bn_bn2bin s) in
      let front_length : length front ≡ k = length-padded k (o.bn_bn2bin r) r_length in
      let both_length : length both ≡ 2 * k = omega (
        arith,
        length-append front (padded k (o.bn_bn2bin s)),
        front_length,
        length-padded k (o.bn_bn2bin s) s_length,
      ) in
      let all : 2 * k ≤ length (both ++ zeros (n - k - k)) =
        omega (arith, length-append both (zeros (n - k - k)), both_length) in
      rw
        (
          length-zeros n,
          le→ltb n (o.bn_num_bytes r + o.bn_num_bytes s) (omega (arith, r_fits, s_fits, room)),
          r_written (omega (arith, room)),
          write_before-zeros front (o.bn_bn2bin s) (n - k) k (2 * k) (n - k - k) s_length
              (omega (arith, room)) (omega (arith, front_length)),
          le→ltb (length (both ++ zeros (n - k - k))) (2 * k) all,
          take-append_past both (zeros (n - k - k)) (2 * k) 0 (omega (arith, both_length)),
          append-nil both,
        )
        refl

  copy_numbers-overrun :
      n < 2 * k
      → o.bn_num_bytes r + o.bn_num_bytes s ≤ n
      → copy_numbers o k (r, s) (zeros n) ≡ fault
  copy_numbers-overrun short passes =
      rw (length-zeros n, le→ltb n (o.bn_num_bytes r + o.bn_num_bytes s) passes)
        (elim (Bool-cases (ltb n k)) [
          | inl less ↦
              rw
                (write_before-short (zeros n) (o.bn_bn2bin r) k r_length
                  (rw (length-zeros n) (ltb→lt n k less)))
                refl
          | inr more ↦
              let room : k ≤ n = ltb→le n k more in
              rw
                (
                  r_written room,
                  write_before-short (padded k (o.bn_bn2bin r) ++ zeros (n - k)) (o.bn_bn2bin s)
                      (2 * k) (omega (arith, s_length))
                      (omega (
                        arith,
                        length-append (padded k (o.bn_bn2bin r)) (zeros (n - k)),
                        length-zeros (n - k),
                        length-padded k (o.bn_bn2bin r) r_length,
                        short,
                        room,
                      )),
                )
                refl
        ])

module _ (o : OpenSsl) (sizes : SizesNumbers o) (key : ℕ) (der : Buf) (es : o.EcdsaSig)
    (buffer : List ℕ) (decoded : o.d2i_ecdsa_sig der ≡ some es)
    (r_fits : o.bn_num_bytes (o.ecdsa_sig_get0 es).0 ≤ ecdsa_key_size o key)
    (s_fits : o.bn_num_bytes (o.ecdsa_sig_get0 es).1 ≤ ecdsa_key_size o key) where
  der_to_cose_long :
      length buffer
        < o.bn_num_bytes (o.ecdsa_sig_get0 es).0 + o.bn_num_bytes (o.ecdsa_sig_get0 es).1
      → ecdsa_signature_der_to_cose o key der buffer ≡ ok null_buf
  unfolding ecdsa_signature_der_to_cose
  der_to_cose_long long = rw (decoded, length-zeros (length buffer), lt→ltb _ _ long) refl

  -- For a signature in DER whose two numbers have at most the size of the key, and a buffer of twice that
  -- size at least, ecdsa_signature_der_to_cose() gives the two numbers of the signature, each padded
  -- with zeros in front to the size of the key.
  pub der_to_cose_lem :
      2 * ecdsa_key_size o key ≤ length buffer
      → ecdsa_signature_der_to_cose o key der buffer
        ≡ ok (
            bytes (
              padded (ecdsa_key_size o key) (o.bn_bn2bin (o.ecdsa_sig_get0 es).0)
              ++ padded (ecdsa_key_size o key) (o.bn_bn2bin (o.ecdsa_sig_get0 es).1)))
  unfolding ecdsa_signature_der_to_cose
  der_to_cose_lem room = rw decoded (
      copy_numbers-padded o sizes (ecdsa_key_size o key) (o.ecdsa_sig_get0 es).0
        (o.ecdsa_sig_get0 es).1 (length buffer) r_fits s_fits room)

  -- For a signature in DER whose two numbers have at most the size of the key, and a shorter buffer that
  -- has as many bytes as the two numbers, so that it passes the test of the code,
  -- ecdsa_signature_der_to_cose() writes behind the buffer.
  pub der_to_cose_overrun :
      length buffer < 2 * ecdsa_key_size o key
      → o.bn_num_bytes (o.ecdsa_sig_get0 es).0 + o.bn_num_bytes (o.ecdsa_sig_get0 es).1
        ≤ length buffer
      → ecdsa_signature_der_to_cose o key der buffer ≡ fault
  unfolding ecdsa_signature_der_to_cose
  der_to_cose_overrun short passes = rw decoded (
      copy_numbers-overrun o sizes (ecdsa_key_size o key) (o.ecdsa_sig_get0 es).0
        (o.ecdsa_sig_get0 es).1 (length buffer) r_fits s_fits short passes)

  -- A signature is given only if the buffer has room for it.
  pub der_to_cose_room :
      (signature : Buf)
      → ecdsa_signature_der_to_cose o key der buffer ≡ ok signature
      → is_null_ptr signature ≡ false
      → 2 * ecdsa_key_size o key ≤ length buffer
  der_to_cose_room signature h given =
      let k = ecdsa_key_size o key in
      elim (Bool-cases (ltb (length buffer) (2 * k))) [
        | inr room ↦ ltb→le _ _ room
        | inl short ↦
            elim (Bool-cases (
              ltb (length buffer) (
                o.bn_num_bytes (o.ecdsa_sig_get0 es).0 + o.bn_num_bytes (o.ecdsa_sig_get0 es).1))) [
                  | inl long ↦
                      let same =
                        ok-injective null_buf signature
                          (sym (der_to_cose_long (ltb→lt _ _ long)) ∙ h) in
                      absurd (cc (ap is_null_ptr same))
                  | inr passes ↦
                      absurd (cc (der_to_cose_overrun (ltb→lt _ _ short) (ltb→le _ _ passes), h))
                ]
      ]
