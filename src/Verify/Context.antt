-- ===== src/Verify/Context.antt =====
-- `struct t_cose_sign1_verify_ctx`, its options, and the functions that set it up and read it.
use t_cose.Common.{
  ℕ, ◌-◌, ◌^◌, ◌==◌, ltb, bit_and, Bool, not, List, replicate, get_elem?, Option, some, none,
  if◌then◌else◌, Buf, null, Result, ok, fault,
}
use t_cose.Crypto.{Key, lib_unidentified}
use t_cose.Qcbor.{cbor_tag_invalid64}

-- `flags & mask`
unfoldable pub has_flag : ℕ → ℕ → Bool
has_flag flags mask = not (bit_and flags mask == 0)

abbrev pub opt_allow_short_circuit : ℕ
opt_allow_short_circuit = 0x01

abbrev pub opt_require_kid : ℕ
opt_require_kid = 0x02

abbrev pub opt_tag_required : ℕ
opt_tag_required = 0x04

abbrev pub opt_tag_prohibited : ℕ
opt_tag_prohibited = 0x10

abbrev pub opt_decode_only : ℕ
opt_decode_only = 0x08

abbrev pub opt_unknown_crit_allowed : ℕ
opt_unknown_crit_allowed = 0x20

-- T_COSE_MAX_TAGS_TO_RETURN
abbrev pub max_tags_to_return : ℕ
max_tags_to_return = 4

pub record VerifyCtx : Type 0 where
  pub verification_key : Key
  pub option_flags : ℕ
  pub au_tags : List ℕ
  pub auxiliary_buffer : Buf
  pub auxiliary_buffer_size : ℕ

abbrev pub null_key : Key
null_key = record { crypto_lib = lib_unidentified; handle = 0 }

-- SIZE_MAX of a machine with 64-bit sizes.
abbrev pub size_max : ℕ
size_max = 2 ^ 64 - 1

unfoldable pub verify_init : ℕ → VerifyCtx
verify_init option_flags = record {
  verification_key = null_key;
  option_flags = option_flags;
  au_tags = replicate max_tags_to_return 0;
  auxiliary_buffer = null size_max;
  auxiliary_buffer_size = 0;
}

unfoldable pub set_verification_key : Key → VerifyCtx → VerifyCtx
set_verification_key key me = record me { verification_key = key }

unfoldable pub verify_set_auxiliary_buffer : Buf → VerifyCtx → VerifyCtx
verify_set_auxiliary_buffer buffer me = record me { auxiliary_buffer = buffer }

-- A read of an array.
abbrev in_bounds : Option ℕ → Result ℕ
in_bounds none = fault
in_bounds (some tag) = ok tag

-- The bound lets `max_tags_to_return` itself pass, which is one past the end of the array.
unfoldable pub get_nth_tag : VerifyCtx → ℕ → Result ℕ
get_nth_tag me n =
    if ltb max_tags_to_return n then ok cbor_tag_invalid64 else in_bounds (get_elem? me.au_tags n)
