-- ===== src/Examples/Evp.antt =====
-- An EVP interface with one key pair, whose signature holds the first byte of the hash, and a digest that
-- is the first 32 bytes.
use t_cose.Common.{
  ℕ, ◌≤◌, Bool, true, false, ltb, le→ltb, ◌≡◌, refl, sym, ap, ◌∙◌, pos, negsuc, ◌∷◌, [], ◌++◌, List,
  length, length-take, get_or, some, none, null_buf, Buf, bytes, ok, arith, if◌then◌else◌, take,
}
use t_cose.Algorithm.{is_ecdsa, hash_alg_id_from_sig_alg_id}
use t_cose.Crypto.{Key, lib_openssl}
use t_cose.Examples.Models.{
  plain_useful_buf, same_bytes, same_bytes_refl, strings_encoder, strings_encoder-EncodesCbor,
}
use t_cose.Examples.OpenSsl.{
  der_of, toy_openssl, toy_openssl-SizesNumbers, toy_openssl-TakesNumbers, toy_copy,
  toy_copy-CopiesBytes,
}
use t_cose.Examples.Signatures.{protected, message}
use t_cose.OpenSsl.{
  key_convert, ecdsa_signature_der_to_cose, ecdsa_key_size, write_before, write_at,
}
use t_cose.OpenSsl.Accepts.{openssl_verify-openssl_sign}
use t_cose.OpenSsl.Digest.{hash_nid, openssl_crypto}
use t_cose.OpenSsl.Evp.{Evp}
use t_cose.OpenSsl.Pairs.{KeyPair}
use t_cose.OpenSsl.Pkey.{
  pkey_context, configure_pkey_context, cose_of_der, der_to_buffer, openssl_sign, openssl_verify,
}
use t_cose.OpenSsl.Stream.{Digests, openssl-create_tbs_hash}
use t_cose.Qcbor.Encoder.{contents}
use t_cose.Tbs.{create_tbs_hash}
use t_cose.Tbs.Laws.{sig_structure_bytes}

abbrev signature_of : Buf → Buf
signature_of hash = bytes (der_of (get_or (contents hash) 0 0, 7))

abbrev toy_evp : Evp
toy_evp = record {
  PkeyCtx = Unit;
  Md = ℕ;
  sha256 = 256;
  sha384 = 384;
  sha512 = 512;
  rsa_pkcs1_pss_padding = 6;
  rsa_pss_saltlen_digest = negsuc 0;
  pkey_ctx_new = λ key. some tt;
  pkey_sign_init = λ ctx. some ctx;
  pkey_verify_init = λ ctx. some ctx;
  set_rsa_padding = λ n ctx. some ctx;
  set_signature_md = λ md ctx. some ctx;
  set_rsa_mgf1_md = λ md ctx. some ctx;
  set_rsa_pss_saltlen = λ n ctx. some ctx;
  pkey_sign = λ ctx buffer hash.
      if ltb (length (contents buffer)) 8 then none else some (signature_of hash);
  pkey_verify =
      λ ctx signature hash. if same_bytes (signature_of hash) signature then pos 1 else pos 0;
  MdCtx = List ℕ;
  nid_sha256 = 672;
  nid_sha384 = 673;
  nid_sha512 = 674;
  get_digestbynid = λ nid. some nid;
  md_ctx_new = some [];
  digest_init = λ ctx md. some [];
  digest_update = λ ctx b. (1, ctx ++ b);
  digest_final = λ ctx n. if ltb n (length (take 32 ctx)) then (0, []) else (1, take 32 ctx);
  digest_sign_init = λ ctx key. some ctx;
  digest_sign = λ ctx buffer tbs. some tbs;
  digest_verify_init = λ ctx key. some ctx;
  digest_verify = λ ctx signature tbs. if same_bytes tbs signature then pos 1 else pos 0;
}

abbrev toy_evp-Digests : Digests toy_evp
toy_evp-Digests = record {
  digest = λ md held. take 32 held;
  Holds = λ ctx md held. ctx ≡ held;
  fresh = [];
  new_lem = refl;
  started = λ md. [];
  init_lem = λ md. refl;
  started-Holds = λ md. refl;
  update_succeeds = λ ctx md held b h. refl;
  update-Holds = λ ctx md held b h. ap (λ l. l ++ b) h;
  final_lem = λ ctx md held n h room. rw (h, le→ltb n (length (take 32 held)) room) refl;
}

abbrev openssl_key : Key
openssl_key = record { crypto_lib = lib_openssl; handle = 7 }

some-injective : {A : Type 0} (a b : A) → some a ≡ some b → a ≡ b
some-injective a b h = cc

signed_lem :
    (short : Bool) (hash signature : Buf)
    → (if short then none else some (signature_of hash)) ≡ some signature
    → signature_of hash ≡ signature
signed_lem true hash signature h = absurd (cc)
signed_lem false hash signature h = some-injective _ _ h

long_enough :
    (n : ℕ) (hash signature : Buf)
    → (if ltb n 8 then none else some (signature_of hash)) ≡ some signature
    → 8 ≤ n
long_enough n hash signature h = ground arith

unique :
    (hash signature : Buf) (es : ℕ × ℕ)
    → signature_of hash ≡ signature
    → (toy_openssl 16).d2i_ecdsa_sig signature ≡ some es
    → signature ≡ bytes (der_of es)
unique hash signature es same decoded =
    sym same ∙ ap (λ x. bytes (der_of x)) (some-injective _ _ (rw (← same) at decoded))

toy_evp-KeyPair : KeyPair toy_evp (toy_openssl 16) 7 7
toy_evp-KeyPair = record {
  Matched = λ s t. Unit;
  verify_context = tt;
  verify_context_new = refl;
  verify_started = tt;
  verify_init = refl;
  started = λ fresh context made begun. tt;
  set_parameter = λ set known s t s' m h. (tt, h, tt);
  verify-sign = λ s t buffer hash signature m h.
      rw
        (
          ← signed_lem (ltb (length (contents buffer)) 8) hash signature h,
          same_bytes_refl (signature_of hash),
        )
        refl;
  same_bits = refl;
  encoded = der_of;
  encodes = λ es. refl;
  nonempty = λ es. omega arith;
  unique_der = λ s t space hash signature es m h k. (
    unique hash signature es (signed_lem (ltb (length space) 8) hash signature h) k,
    long_enough (length space) hash signature h,
  );
  short_numbers = λ s t space hash signature es m h k. (omega arith, omega arith);
}

usable : key_convert (toy_openssl 16) openssl_key ≡ ok 7
unfolding key_convert
usable = refl

made :
    openssl_sign toy_evp
      (toy_openssl 16)
      plain_useful_buf
      (negsuc 6)
      openssl_key
      (bytes (5 ∷ 6 ∷ []))
      (bytes (9 ∷ 9 ∷ 9 ∷ 9 ∷ []))
    ≡ ok (bytes (0 ∷ 5 ∷ 0 ∷ 7 ∷ []))
unfolding openssl_sign key_convert is_ecdsa pkey_context configure_pkey_context cose_of_der
    der_to_buffer ecdsa_signature_der_to_cose ecdsa_key_size write_before write_at
made = refl

openssl_verify-openssl_sign_example :
    openssl_verify toy_evp
      (toy_openssl 16)
      plain_useful_buf
      toy_copy
      (negsuc 6)
      openssl_key
      null_buf
      (bytes (5 ∷ 6 ∷ []))
      (bytes (0 ∷ 5 ∷ 0 ∷ 7 ∷ []))
    ≡ ok tt
openssl_verify-openssl_sign_example =
    openssl_verify-openssl_sign toy_evp (toy_openssl 16) plain_useful_buf toy_copy
      (toy_openssl-SizesNumbers 16) (toy_openssl-TakesNumbers 16) toy_copy-CopiesBytes openssl_key
      openssl_key usable toy_evp-KeyPair (negsuc 6) null_buf (bytes (5 ∷ 6 ∷ []))
      (bytes (0 ∷ 5 ∷ 0 ∷ 7 ∷ [])) (9 ∷ 9 ∷ 9 ∷ 9 ∷ []) made

openssl-create_tbs_hash_example :
    create_tbs_hash
      (openssl_crypto toy_evp (toy_openssl 16) plain_useful_buf toy_copy)
      strings_encoder
      (negsuc 6)
      protected
      null_buf
      message
      64
    ≡ ok (bytes (take 32 (sig_structure_bytes protected null_buf message)))
unfolding hash_alg_id_from_sig_alg_id hash_nid
openssl-create_tbs_hash_example =
    openssl-create_tbs_hash toy_evp toy_evp-Digests 672 (toy_openssl 16) plain_useful_buf toy_copy
      strings_encoder strings_encoder-EncodesCbor (negsuc 6) 672 protected null_buf message 64
      (refl, omega arith) (refl, omega arith) (refl, omega arith) refl refl
      (omega (arith, length-take 32 (sig_structure_bytes protected null_buf message)))
