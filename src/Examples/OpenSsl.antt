-- ===== src/Examples/OpenSsl.antt =====
-- An OpenSSL library that has ECDSA signatures of two numbers of one byte each.
use t_cose.Common.{
  Option, none, null, get_or, ℕ, zero, suc, ◌+◌, ◌-◌, ltb, le→ltb, ◌≡◌, refl, ap, ◌∷◌, [], ◌++◌,
  List, length, some, null_buf, Buf, bytes, ok, fault, arith, ◌>>=◌, if◌then◌else◌,
}
use t_cose.Examples.Models.{plain_useful_buf}
use t_cose.OpenSsl.{
  OpenSsl, zeros, ecdsa_key_size, ecdsa_signature_der_to_cose, ecdsa_signature_cose_to_der,
}
use t_cose.OpenSsl.Der.{SizesNumbers, der_to_cose_lem, der_to_cose_overrun}
use t_cose.OpenSsl.Encode.{TakesNumbers, CopiesBytes, cose_to_der-der_to_cose}

abbrev sum : List ℕ → ℕ
sum [] = 0
sum (x ∷ xs) = x + sum xs

sum-padded : (n b : ℕ) → sum (zeros n ++ b ∷ []) ≡ b
sum-padded zero b = omega arith
sum-padded (suc n) b = omega (arith, sum-padded n b)

abbrev pub der_of : ℕ × ℕ → List ℕ
der_of (r, s) = 0x30 ∷ 6 ∷ 2 ∷ 1 ∷ r ∷ 2 ∷ 1 ∷ s ∷ []

abbrev numbers_of : Buf → Option (ℕ × ℕ)
numbers_of (null n) = none
numbers_of (bytes b) = some (get_or b 4 0, get_or b 7 0)

-- With a key of so many bits.
abbrev pub toy_openssl : ℕ → OpenSsl
toy_openssl bits = record {
  pkey_bits = λ key. bits;
  pkey_size = λ key. 256;
  EcdsaSig = ℕ × ℕ;
  Bignum = ℕ;
  d2i_ecdsa_sig = numbers_of;
  ecdsa_sig_get0 = λ es. es;
  bn_num_bytes = λ b. 1;
  bn_bn2bin = λ b. b ∷ [];
  bn_bin2bn = λ b. some (sum b);
  ecdsa_sig_new = some (0, 0);
  ecdsa_sig_set0 = λ es r s. some (r, s);
  i2d_ecdsa_sig = λ es. some (der_of es);
}

pub toy_openssl-SizesNumbers : (bits : ℕ) → SizesNumbers (toy_openssl bits)
toy_openssl-SizesNumbers bits = record { length-bn2bin = λ b. refl }

pub toy_openssl-TakesNumbers : (bits : ℕ) → TakesNumbers (toy_openssl bits)
toy_openssl-TakesNumbers bits = record {
  bin2bn-bn2bin = λ n b. ap some (sum-padded (n - 1) b);
  empty_signature = (0, 0);
  sig_new = refl;
  set0-get0 = λ es. refl;
}

abbrev pub toy_copy : ℕ → List ℕ → Buf
toy_copy n b = if ltb n (length b) then null_buf else bytes b

pub toy_copy-CopiesBytes : CopiesBytes toy_copy
toy_copy-CopiesBytes = record { copy_bytes = λ n b h. rw (le→ltb n (length b) h) refl }

-- The buffer has five bytes, and the signature four.
abbrev five_bytes : List ℕ
five_bytes = 9 ∷ 9 ∷ 9 ∷ 9 ∷ 9 ∷ []

abbrev encoded : List ℕ
encoded = der_of (5, 7)

der_to_cose_lem_example :
    ecdsa_signature_der_to_cose (toy_openssl 16) 7 (bytes encoded) five_bytes
    ≡ ok (bytes (0 ∷ 5 ∷ 0 ∷ 7 ∷ []))
unfolding ecdsa_key_size
der_to_cose_lem_example =
    der_to_cose_lem (toy_openssl 16) (toy_openssl-SizesNumbers 16) 7 (bytes encoded) (5, 7)
      five_bytes refl (omega arith) (omega arith) (omega arith)

-- The buffer has three bytes, and the two numbers have two.
der_to_cose_overrun_example :
    ecdsa_signature_der_to_cose (toy_openssl 16) 7 (bytes encoded) (9 ∷ 9 ∷ 9 ∷ []) ≡ fault
unfolding ecdsa_key_size
der_to_cose_overrun_example =
    der_to_cose_overrun (toy_openssl 16) (toy_openssl-SizesNumbers 16) 7 (bytes encoded) (5, 7)
      (9 ∷ 9 ∷ 9 ∷ []) refl (omega arith) (omega arith) (omega arith) (omega arith)

cose_to_der-der_to_cose_example :
    (ecdsa_signature_der_to_cose (toy_openssl 16) 7 (bytes encoded) five_bytes >>= λ cose.
    ecdsa_signature_cose_to_der (toy_openssl 16) toy_copy plain_useful_buf 7 cose 20)
    ≡ ok (bytes encoded)
unfolding ecdsa_key_size
cose_to_der-der_to_cose_example =
    cose_to_der-der_to_cose (toy_openssl 16) toy_copy plain_useful_buf (toy_openssl-SizesNumbers 16)
      (toy_openssl-TakesNumbers 16) toy_copy-CopiesBytes 7 (bytes encoded) (5, 7) five_bytes encoded
      20 refl (omega arith) (omega arith) (omega arith) refl (omega arith) (omega arith)
