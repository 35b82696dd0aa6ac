-- ===== src/Examples/Signatures.antt =====
-- The bytes that are signed, the short-circuit signature, and signing with checking, at concrete inputs.
use t_cose.Common.{
  ℕ, ◌%◌, ◌≤◌, ltb, ◌≡◌, refl, ◌↔◌, ◌⊎◌, inl, negsuc, eq_ℤ, List, [], ◌∷◌, ◌++◌, replicate, length,
  take, get_or, none, if◌then◌else◌, Buf, null_buf, bytes, ok, err, ◌>>=◌, ◌>>◌, fail_if, too_small,
  unsupported_signing_alg, sig_verify, arith,
}
use t_cose.Algorithm.{is_ecdsa, hash_alg_id_from_sig_alg_id, invalid_algorithm_id}
use t_cose.Examples.Models.{
  plain_useful_buf, strings_encoder, strings_encoder-EncodesCbor, toy_crypto,
  toy_crypto-HashesStream, toy_key, toy_crypto-Accepts,
}
use t_cose.Roundtrip.{Matches, check_signature-make_signature}
use t_cose.ShortCircuit.{short_circuit_sig_size, short_circuit_sign, short_circuit_verify}
use t_cose.ShortCircuit.Sign.{short_circuit_sign_lem}
use t_cose.ShortCircuit.Verify.{short_circuit_verify_iff, short_circuit_sign_other}
use t_cose.Labels.{clear_label_list}
use t_cose.Qcbor.Encoder.{cbor_head, encode_array, encode_items, encode_item}
use t_cose.Sign.Message.{make_signature}
use t_cose.Sign.Signature.{sign_default}
use t_cose.Sign.Context.{SignCtx}
use t_cose.Parameters.{clear_cose_parameters}
use t_cose.Tbs.{create_tbs, create_tbs_hash, hash_bstr}
use t_cose.Tbs.Laws.{sig_structure_bytes, create_tbs_lem, create_tbs_hash_lem}
use t_cose.Verify.Context.{VerifyCtx, has_flag}
use t_cose.Verify.Message.{Decoded, check_signature}

abbrev pub protected : Buf
protected = bytes (0xa1 ∷ 0x01 ∷ 0x26 ∷ [])

abbrev pub message : Buf
message = bytes (1 ∷ 2 ∷ 3 ∷ [])

abbrev pub space : List ℕ
space = replicate 40 0

create_tbs_lem_example : create_tbs strings_encoder protected null_buf message (bytes space) ≡ (
    if ltb (length space) (length (sig_structure_bytes protected null_buf message))
    then err too_small
    else ok (bytes (sig_structure_bytes protected null_buf message)))
create_tbs_lem_example =
    create_tbs_lem strings_encoder strings_encoder-EncodesCbor protected null_buf message
      (refl, omega arith) (refl, omega arith) (refl, omega arith) space

create_tbs_hash_lem_example :
    create_tbs_hash toy_crypto strings_encoder (negsuc 6) protected null_buf message 64 ≡ (
      fail_if
        (eq_ℤ (hash_alg_id_from_sig_alg_id (negsuc 6)) invalid_algorithm_id)
        unsupported_signing_alg
      >> (toy_crypto.hash_start (hash_alg_id_from_sig_alg_id (negsuc 6)) >>= λ h.
          toy_crypto.hash_finish
            (toy_crypto.hash_update h (bytes (sig_structure_bytes protected null_buf message)))
            64))
create_tbs_hash_lem_example =
    create_tbs_hash_lem strings_encoder strings_encoder-EncodesCbor protected null_buf message
      (refl, omega arith) (refl, omega arith) (refl, omega arith) toy_crypto toy_crypto-HashesStream
      (negsuc 6) 64

abbrev digest : List ℕ
digest = 5 ∷ 6 ∷ 7 ∷ 8 ∷ []

abbrev longer : List ℕ
longer = 5 ∷ 6 ∷ 7 ∷ 8 ∷ 9 ∷ []

abbrev room : List ℕ
room = replicate 70 0

short_circuit_sign_lem_example :
    (signature : List ℕ) × (short_circuit_sign (negsuc 6) (bytes digest) (bytes room)
      ≡ ok (bytes signature))
    × (length signature ≡ 64)
    × ((i : ℕ)
        → get_or signature i 0 ≡ (if ltb i 64 then get_or digest (i % length digest) 0 else 0))
unfolding short_circuit_sig_size
short_circuit_sign_lem_example =
    short_circuit_sign_lem (negsuc 6) digest room 64 refl (omega arith) (omega arith)

short_circuit_verify_iff_example :
    ((short_circuit_verify plain_useful_buf (bytes digest) (bytes longer) ≡ ok tt)
      ↔ ((length digest ≤ length longer) × (take (length digest) longer ≡ digest)))
    × ((short_circuit_verify plain_useful_buf (bytes digest) (bytes longer) ≡ ok tt)
        ⊎ (short_circuit_verify plain_useful_buf (bytes digest) (bytes longer) ≡ err sig_verify))
short_circuit_verify_iff_example = short_circuit_verify_iff plain_useful_buf digest longer

short_circuit_sign_other_example :
    (short_circuit_sign (negsuc 36) (bytes digest) (bytes room) ≡ ok (bytes []))
    × (short_circuit_verify plain_useful_buf (bytes digest) (bytes []) ≡ err sig_verify)
unfolding is_ecdsa
short_circuit_sign_other_example =
    short_circuit_sign_other plain_useful_buf (negsuc 36) digest room (omega arith) refl

-- Sixteen times the digest.
abbrev repeated : List ℕ
repeated =
    digest ++ digest ++ digest ++ digest ++ digest ++ digest ++ digest ++ digest ++ digest ++ digest
    ++ digest ++ digest ++ digest ++ digest ++ digest ++ digest

-- A signer with ES256.
abbrev pub signer : SignCtx
signer = record {
  protected_parameters = protected;
  cose_algorithm_id = negsuc 6;
  signing_key = toy_key;
  option_flags = 0;
  kid = null_buf;
  content_type_uint = 65536;
  content_type_tstr = none;
  auxiliary_buffer = null_buf;
  auxiliary_buffer_size = 0;
}

abbrev pub verifier : VerifyCtx
verifier = record {
  verification_key = toy_key;
  option_flags = 1;
  au_tags = replicate 4 0;
  auxiliary_buffer = null_buf;
  auxiliary_buffer_size = 0;
}

abbrev pub signature_bytes : Buf
signature_bytes = bytes (take 32 (sig_structure_bytes protected null_buf message))

abbrev decoded : Decoded
decoded = record {
  parameters = record clear_cose_parameters { cose_algorithm_id = negsuc 6 };
  critical = none;
  unknown = clear_label_list;
  protected_parameters = protected;
  payload = message;
  signature = signature_bytes;
}

decoded-Matches :
    Matches toy_crypto plain_useful_buf signer message signature_bytes verifier decoded
unfolding has_flag
decoded-Matches = record {
  algorithm = refl;
  protected = refl;
  same_payload = refl;
  same_signature = refl;
  kid = refl;
  allowed = inl refl;
  buffer = refl;
  keys = toy_crypto-Accepts;
}

check_signature-make_signature_example :
    (check_signature plain_useful_buf toy_crypto strings_encoder verifier decoded null_buf).1
    ≡ ok tt
unfolding has_flag make_signature sign_default create_tbs_hash hash_bstr hash_alg_id_from_sig_alg_id
    cbor_head encode_array encode_items encode_item
check_signature-make_signature_example =
    check_signature-make_signature toy_crypto strings_encoder plain_useful_buf signer null_buf
      message space verifier decoded signature_bytes decoded-Matches signer (inl refl) refl
