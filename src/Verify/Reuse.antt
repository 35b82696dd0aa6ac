-- ===== src/Verify/Reuse.antt =====
-- A verification context over a sequence of calls of inc/t_cose/t_cose_sign1_verify.h.
pub mod Outcomes
pub mod Agree
pub mod Reached
use t_cose.Common.{
  pos, eq_ℤ, ℕ, zero, suc, ◌+◌, ◌==◌, ltb, ◌≡◌, refl, sym, ap, subst, ◌∙◌, Bool, true, false,
  Bool-cases, inl, inr, ◌&&◌, not, List, set, length, length-set, arith, if◌then◌else◌, Buf, null,
  UsefulBuf, Result, Err, ok, err, fault, ok-injective, or_done, incorrectly_tagged, is_null_ptr,
  len, need_auxiliary_buffer,
}
use t_cose.Algorithm.{cose_algorithm_eddsa}
use t_cose.ShortCircuit.{short_circuit_kid}
use t_cose.Crypto.{Crypto, Key}
use t_cose.Qcbor.{cbor_tag_cose_sign1}
use t_cose.Qcbor.Decoder.{Decoder}
use t_cose.Qcbor.Encoder.{Encoder}
use t_cose.Tbs.{create_tbs}
use t_cose.Verify.Context.{
  VerifyCtx, null_key, size_max, verify_init, set_verification_key, verify_set_auxiliary_buffer,
  max_tags_to_return, has_flag, opt_tag_required, opt_tag_prohibited,
}
use t_cose.Verify.Message.{
  Decoded, qcbor_decode_error_to_t_cose_error, decode_parts, check_parameters, check_signature,
  verify_internal,
}
use t_cose.Verify.Signature.{
  name_buffer, verify_short_circuit, verify_eddsa, verify_eddsa_tbs, verify_default,
}
use t_cose.Verify.Tags.{no_tags, start_tags, collect_tags, process_tags}

-- The contexts that a program gets to: the key and the auxiliary buffer are those set last.
pub data IsReached (d : Decoder) (u : UsefulBuf) (c : Crypto) (e : Encoder) (option_flags : ℕ)
    : Key → Buf → VerifyCtx → Type 0 where
  initialised : IsReached d u c e option_flags null_key (null size_max) (verify_init option_flags)
  key_set :
      {key : Key} {buffer : Buf} {me : VerifyCtx} (new_key : Key)
      → IsReached d u c e option_flags key buffer me
      → IsReached d u c e option_flags new_key buffer (set_verification_key new_key me)
  buffer_set :
      {key : Key} {buffer : Buf} {me : VerifyCtx} (new_buffer : Buf)
      → IsReached d u c e option_flags key buffer me
      → IsReached d u c e option_flags key new_buffer (verify_set_auxiliary_buffer new_buffer me)
  verified :
      {key : Key} {buffer : Buf} {me : VerifyCtx} (cose_sign1 aad payload : Buf) (is_dc : Bool)
      → IsReached d u c e option_flags key buffer me
      → IsReached d u c e option_flags key buffer
          (verify_internal d u c e me cose_sign1 aad payload is_dc).0

-- A context that has just been set up.
abbrev pub set_up : ℕ → Key → Buf → VerifyCtx
set_up option_flags key buffer =
    verify_set_auxiliary_buffer buffer (set_verification_key key (verify_init option_flags))

-- What a context keeps while it verifies.
pub record Keeps (option_flags : ℕ) (key : Key) (buffer : Buf) (me : VerifyCtx) : Type 0 where
  pub flags_kept : me.option_flags ≡ option_flags
  pub key_kept : me.verification_key ≡ key
  pub buffer_kept : me.auxiliary_buffer ≡ buffer
  pub tags_kept : length me.au_tags ≡ max_tags_to_return
