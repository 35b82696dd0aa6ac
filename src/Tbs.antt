-- ===== src/Tbs.antt =====
-- src/t_cose_util.c: the bytes that are signed, encoded in a buffer or hashed as they come.
pub mod Laws
use t_cose.Common.{
  ℕ, ℤ, eq_ℤ, not, List, [], ◌∷◌, ◌++◌, if◌then◌else◌, Buf, bytes, len, Result, ok, err, ◌>>=◌,
  ◌>>◌, fail_if, too_small, cbor_formatting, unsupported_signing_alg,
}
use t_cose.Algorithm.{hash_alg_id_from_sig_alg_id, invalid_algorithm_id}
use t_cose.Qcbor.{is_buffer_too_small, is_success}
use t_cose.Qcbor.Encoder.{
  Encoder, EncodeCtx, encode_init, ◌▷◌, open_array, close_array, add_sz_string, add_bytes,
}
use t_cose.Crypto.{Crypto}

-- COSE_SIG_CONTEXT_STRING_SIGNATURE1, "Signature1".
abbrev pub context_string : List ℕ
context_string = b'S' ∷ b'i' ∷ b'g' ∷ b'n' ∷ b'a' ∷ b't' ∷ b'u' ∷ b'r' ∷ b'e' ∷ b'1' ∷ []

-- T_COSE_CRYPTO_MAX_HASH_SIZE
abbrev pub max_hash_size : ℕ
max_hash_size = 64

unfoldable pub create_tbs : Encoder → Buf → Buf → Buf → Buf → Result Buf
create_tbs e protected_parameters aad payload buffer =
    let ctx =
      encode_init buffer
      ▷ open_array
      ▷ add_sz_string context_string
      ▷ add_bytes protected_parameters
      ▷ add_bytes aad
      ▷ add_bytes payload
      ▷ close_array in
    let cbor_err = e.finish_error ctx in
    if is_buffer_too_small cbor_err
    then err too_small
    else if not (is_success cbor_err)
    then err cbor_formatting
    else ok (e.finish_result ctx)

module _ (c : Crypto) (e : Encoder) where
  unfoldable pub hash_bstr : c.HashCtx → Buf → c.HashCtx
  hash_bstr h b = c.hash_update (c.hash_update h (e.encode_head e.head_buffer_size 2 0 (len b))) b

  -- `buffer_size` is the length of buffer_for_hash.
  unfoldable pub create_tbs_hash : ℤ → Buf → Buf → Buf → ℕ → Result Buf
  create_tbs_hash cose_algorithm_id protected_parameters aad payload buffer_size = do
    let hash_alg_id = hash_alg_id_from_sig_alg_id cose_algorithm_id
    fail_if (eq_ℤ hash_alg_id invalid_algorithm_id) unsupported_signing_alg
    start ← c.hash_start hash_alg_id
    let h = c.hash_update start (bytes (0x84 ∷ 0x6a ∷ context_string))
    let h1 = hash_bstr h protected_parameters
    let h2 = hash_bstr h1 aad
    let h3 = hash_bstr h2 payload
    c.hash_finish h3 buffer_size
