-- ===== src/OpenSsl/Encode.antt =====
-- ecdsa_signature_cose_to_der()
use t_cose.Common.{
  ℕ, ◌*◌, ◌≤◌, ◌<◌, ==_iff, ◌≡◌, sym, ◌∙◌, ap, arith, List, [], ◌++◌, append-nil, length,
  length-append, take, drop, some, Buf, bytes, UsefulBuf, ok, ◌>>=◌,
}
use t_cose.OpenSsl.{
  OpenSsl, ecdsa_key_size, ecdsa_signature_der_to_cose, ecdsa_signature_cose_to_der,
}
use t_cose.OpenSsl.Der.{SizesNumbers, der_to_cose_lem}
use t_cose.OpenSsl.Writes.{padded, length-padded, take-append_past, drop-append_past}

-- OpenSSL, with enough memory, takes the numbers that it gives.
pub record TakesNumbers (o : OpenSsl) : Type 0 where
  pub bin2bn-bn2bin : (n : ℕ) (b : o.Bignum) → o.bn_bin2bn (padded n (o.bn_bn2bin b)) ≡ some b
  pub empty_signature : o.EcdsaSig
  pub sig_new : o.ecdsa_sig_new ≡ some empty_signature
  pub set0-get0 :
      (es : o.EcdsaSig)
      → o.ecdsa_sig_set0 empty_signature (o.ecdsa_sig_get0 es).0 (o.ecdsa_sig_get0 es).1 ≡ some es

-- q_useful_buf_copy_ptr() copies bytes that fit.
pub record CopiesBytes (copy : ℕ → List ℕ → Buf) : Type 0 where
  pub copy_bytes : (n : ℕ) (b : List ℕ) → length b ≤ n → copy n b ≡ bytes b

module _ (k : ℕ) (r s : List ℕ) (r_length : length r ≡ k) (s_length : length s ≡ k) where
  first_half : take k (r ++ s) ≡ r
  first_half = take-append_past r s k 0 (omega (arith, r_length)) ∙ append-nil r

  second_half : take k (drop k (r ++ s)) ≡ s
  second_half =
      ap (take k) (drop-append_past r s k 0 (omega (arith, r_length)))
      ∙ ap (take k) (sym (append-nil s))
      ∙ take-append_past s [] k 0 (omega (arith, s_length))
      ∙ append-nil s

-- If the two numbers of a signature in DER have at most the size of the key and the two buffers are large
-- enough, ecdsa_signature_cose_to_der() makes of what ecdsa_signature_der_to_cose() gives the DER that
-- OpenSSL encodes the signature to.
pub cose_to_der-der_to_cose :
    (o : OpenSsl) (copy : ℕ → List ℕ → Buf) (u : UsefulBuf)
    → SizesNumbers o
    → TakesNumbers o
    → CopiesBytes copy
    → (key : ℕ) (der : Buf) (es : o.EcdsaSig) (buffer encoded : List ℕ) (size : ℕ)
    → o.d2i_ecdsa_sig der ≡ some es
    → o.bn_num_bytes (o.ecdsa_sig_get0 es).0 ≤ ecdsa_key_size o key
    → o.bn_num_bytes (o.ecdsa_sig_get0 es).1 ≤ ecdsa_key_size o key
    → 2 * ecdsa_key_size o key ≤ length buffer
    → o.i2d_ecdsa_sig es ≡ some encoded
    → 0 < length encoded
    → length encoded ≤ size
    → (ecdsa_signature_der_to_cose o key der buffer >>= λ cose.
        ecdsa_signature_cose_to_der o copy u key cose size)
      ≡ ok (bytes encoded)
unfolding ecdsa_signature_cose_to_der
cose_to_der-der_to_cose o copy u sizes takes copies key der es buffer encoded size decoded r_fits
      s_fits room to_der nonempty fits =
    let k = ecdsa_key_size o key in
    let r = padded k (o.bn_bn2bin (o.ecdsa_sig_get0 es).0) in
    let s = padded k (o.bn_bn2bin (o.ecdsa_sig_get0 es).1) in
    let r_length : length r ≡ k =
      length-padded k (o.bn_bn2bin (o.ecdsa_sig_get0 es).0)
        (rw (sizes.length-bn2bin (o.ecdsa_sig_get0 es).0) r_fits) in
    let s_length : length s ≡ k =
      length-padded k (o.bn_bn2bin (o.ecdsa_sig_get0 es).1)
        (rw (sizes.length-bn2bin (o.ecdsa_sig_get0 es).1) s_fits) in
    let sized : length (r ++ s) ≡ k * 2 = omega (arith, length-append r s, r_length, s_length) in
    rw
      (
        der_to_cose_lem o sizes key der es buffer decoded r_fits s_fits room,
        (==_iff (length (r ++ s)) (k * 2)).1 sized,
        first_half k r s r_length s_length,
        second_half k r s r_length s_length,
        takes.bin2bn-bn2bin k (o.ecdsa_sig_get0 es).0,
        takes.bin2bn-bn2bin k (o.ecdsa_sig_get0 es).1,
        takes.sig_new,
        takes.set0-get0 es,
        to_der,
        copies.copy_bytes size encoded fits,
        u.null_or_empty_lem (bytes encoded),
      )
      (ground (arith, nonempty))
