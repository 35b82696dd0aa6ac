-- ===== src/Verify/Reuse/Reached.antt =====
-- A context may be used for one message after the other.
use t_cose.Common.{◌≡◌, refl, Buf, UsefulBuf, ℕ, length, Bool}
use t_cose.Crypto.{Crypto, Key}
use t_cose.Qcbor.Decoder.{Decoder}
use t_cose.Qcbor.Encoder.{Encoder}
use t_cose.Verify.Context.{
  VerifyCtx, verify_init, set_verification_key, verify_set_auxiliary_buffer, max_tags_to_return,
}
use t_cose.Verify.Message.{verify_internal}
use t_cose.Verify.Reuse.{IsReached, set_up, Keeps}
use t_cose.Verify.Reuse.Agree.{verify_internal-Agree}

module _ (d : Decoder) (u : UsefulBuf) (c : Crypto) (e : Encoder) (option_flags : ℕ) where
  IsReached-Keeps :
      {key : Key} {buffer : Buf} {me : VerifyCtx}
      → IsReached d u c e option_flags key buffer me
      → Keeps option_flags key buffer me
  unfolding verify_init set_verification_key verify_set_auxiliary_buffer
  IsReached-Keeps IsReached.initialised = record {
    flags_kept = refl;
    key_kept = refl;
    buffer_kept = refl;
    tags_kept = refl;
  }
  IsReached-Keeps (IsReached.key_set new_key before) =
      let h = IsReached-Keeps before in
      record {
        flags_kept = h.flags_kept;
        key_kept = refl;
        buffer_kept = h.buffer_kept;
        tags_kept = h.tags_kept;
      }
  IsReached-Keeps (IsReached.buffer_set new_buffer before) =
      let h = IsReached-Keeps before in
      record {
        flags_kept = h.flags_kept;
        key_kept = h.key_kept;
        buffer_kept = refl;
        tags_kept = h.tags_kept;
      }
  IsReached-Keeps (IsReached.verified cose_sign1 aad payload is_dc before) =
      let h = IsReached-Keeps before in
      (verify_internal-Agree d u c e option_flags _ _ _ _ cose_sign1 aad payload is_dc h h).left

  set_up-Keeps :
      (key : Key) (buffer : Buf) → Keeps option_flags key buffer (set_up option_flags key buffer)
  unfolding verify_init set_verification_key verify_set_auxiliary_buffer
  set_up-Keeps key buffer = record {
    flags_kept = refl;
    key_kept = refl;
    buffer_kept = refl;
    tags_kept = refl;
  }

  -- After any sequence of calls that set the key, set the auxiliary buffer or verify a message,
  -- t_cose_sign1_verify_internal() returns what it returns with a context that has just been initialised
  -- with the same options and given the key and the auxiliary buffer that were set last, whatever was
  -- verified before. The array of tags keeps its four entries.
  pub verify_internal-IsReached :
      {key : Key} {buffer : Buf} {me : VerifyCtx} (cose_sign1 aad payload : Buf) (is_dc : Bool)
      → IsReached d u c e option_flags key buffer me
      → ((verify_internal d u c e me cose_sign1 aad payload is_dc).1
          ≡ (verify_internal d u c e
              (set_up option_flags key buffer)
              cose_sign1
              aad
              payload
              is_dc).1)
        × (length me.au_tags ≡ max_tags_to_return)
  verify_internal-IsReached {key} {buffer} {me} cose_sign1 aad payload is_dc reached =
      let h = IsReached-Keeps reached in
      (
        (verify_internal-Agree d u c e option_flags key buffer me (set_up option_flags key buffer)
            cose_sign1 aad payload is_dc h (set_up-Keeps key buffer)).same,
        h.tags_kept,
      )
