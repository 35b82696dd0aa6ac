-- ===== src/Sign/Context.antt =====
-- `struct t_cose_sign1_sign_ctx`, its options, and the functions that set it up and read it.
use t_cose.Common.{ℕ, ◌%◌, ◌^◌, ℤ, List, Option, none, some, Buf, null, null_buf}
use t_cose.Crypto.{Key}
use t_cose.Parameters.{empty_uint_content_type}
use t_cose.Verify.Context.{null_key, size_max}

abbrev pub opt_short_circuit_sig : ℕ
opt_short_circuit_sig = 0x01

abbrev pub opt_omit_cbor_tag : ℕ
opt_omit_cbor_tag = 0x02

-- content_type_tstr is a pointer, `none` when it is NULL.
pub record SignCtx : Type 0 where
  pub protected_parameters : Buf
  pub cose_algorithm_id : ℤ
  pub signing_key : Key
  pub option_flags : ℕ
  pub kid : Buf
  pub content_type_uint : ℕ
  pub content_type_tstr : Option (List ℕ)
  pub auxiliary_buffer : Buf
  pub auxiliary_buffer_size : ℕ

unfoldable pub sign_init : ℕ → ℤ → SignCtx
sign_init option_flags cose_algorithm_id = record {
  protected_parameters = null_buf;
  cose_algorithm_id = cose_algorithm_id;
  signing_key = null_key;
  option_flags = option_flags;
  kid = null_buf;
  content_type_uint = empty_uint_content_type;
  content_type_tstr = none;
  auxiliary_buffer = null size_max;
  auxiliary_buffer_size = 0;
}

unfoldable pub set_signing_key : Key → Buf → SignCtx → SignCtx
set_signing_key signing_key kid me = record me { kid = kid; signing_key = signing_key }

unfoldable pub sign_set_auxiliary_buffer : Buf → SignCtx → SignCtx
sign_set_auxiliary_buffer buffer me = record me { auxiliary_buffer = buffer }

-- The argument is a uint16_t.
unfoldable pub set_content_type_uint : ℕ → SignCtx → SignCtx
set_content_type_uint content_type me = record me { content_type_uint = content_type % 2 ^ 16 }

unfoldable pub set_content_type_tstr : List ℕ → SignCtx → SignCtx
set_content_type_tstr content_type me = record me { content_type_tstr = some content_type }
