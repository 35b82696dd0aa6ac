-- ===== src/Examples/Contexts.antt =====
-- Contexts over several calls, and the size of the auxiliary buffer, at concrete inputs.
use t_cose.Common.{◌≡◌, refl, false, length, null, null_buf, bytes, arith}
use t_cose.Examples.Messages.{signed_message}
use t_cose.Examples.Models.{
  plain_useful_buf, played, strings_encoder, strings_encoder-EncodesCbor, toy_crypto, toy_key,
}
use t_cose.Examples.Signatures.{protected, message, signature_bytes, signer, verifier, space}
use t_cose.Parameters.{clear_cose_parameters}
use t_cose.Qcbor.Encoder.{
  cbor_head, encode_array, encode_items, encode_item, array_size, items_size, item_size,
}
use t_cose.Roundtrip.Sizing.{eddsa_sizing}
use t_cose.Sign.Context.{SignCtx}
use t_cose.Sign.Signature.{sign_eddsa, sign_eddsa_tbs}
use t_cose.Tbs.{create_tbs}
use t_cose.Tbs.Laws.{sig_structure_bytes}
use t_cose.Verify.Context.{
  VerifyCtx, verify_init, set_verification_key, size_max, max_tags_to_return, has_flag,
}
use t_cose.Verify.Message.{verify_internal}
use t_cose.Verify.Reuse.{IsReached, set_up}
use t_cose.Verify.Reuse.Reached.{verify_internal-IsReached}
use t_cose.Verify.Signature.{verify_eddsa}
use t_cose.Verify.Tags.{collect_tags, no_tags}
use t_cose.Verify.Tags.Ends.{collect_tags_ends}

abbrev one_message : VerifyCtx
one_message =
    (verify_internal (played signed_message) plain_useful_buf toy_crypto strings_encoder
      (set_verification_key toy_key (verify_init 1)) null_buf null_buf null_buf false).0

-- The key was set, and one message was verified.
one_message-IsReached :
    IsReached
      (played signed_message)
      plain_useful_buf
      toy_crypto
      strings_encoder
      1
      toy_key
      (null size_max)
      one_message
one_message-IsReached =
    IsReached.verified null_buf null_buf null_buf false
      (IsReached.key_set toy_key IsReached.initialised)

verify_internal-IsReached_example :
    ((verify_internal
        (played signed_message)
        plain_useful_buf
        toy_crypto
        strings_encoder
        one_message
        null_buf
        null_buf
        null_buf
        false).1
      ≡ (verify_internal
          (played signed_message)
          plain_useful_buf
          toy_crypto
          strings_encoder
          (set_up 1 toy_key (null size_max))
          null_buf
          null_buf
          null_buf
          false).1)
    × (length one_message.au_tags ≡ max_tags_to_return)
verify_internal-IsReached_example =
    verify_internal-IsReached (played signed_message) plain_useful_buf toy_crypto strings_encoder 1
      null_buf null_buf null_buf false one_message-IsReached

collect_tags_ends_example :
    collect_tags (played signed_message) 100 ((played signed_message).init null_buf) 1 0 no_tags
    ≡ collect_tags (played signed_message) 6 ((played signed_message).init null_buf) 1 0 no_tags
collect_tags_ends_example =
    collect_tags_ends (played signed_message) 6 100 ((played signed_message).init null_buf) 1 0
      no_tags refl (omega arith) (omega arith) (omega arith)

-- The sizing run has NULL pointers.
abbrev sizing_signer : SignCtx
sizing_signer = record signer { protected_parameters = null 3; auxiliary_buffer = null 64 }

eddsa_sizing_example :
    ((verify_eddsa toy_crypto strings_encoder plain_useful_buf
        (record verifier { auxiliary_buffer = null 64 })
        clear_cose_parameters
        signature_bytes
        protected
        null_buf
        message).0.auxiliary_buffer_size
      ≡ (sign_eddsa toy_crypto strings_encoder sizing_signer null_buf
          (null 3)
          null_buf).0.auxiliary_buffer_size)
    × ((sign_eddsa toy_crypto strings_encoder
          (record signer { auxiliary_buffer = bytes space })
          null_buf
          message
          (bytes space)).1
        ≡ toy_crypto.sign_eddsa toy_key
            (bytes (sig_structure_bytes protected null_buf message))
            (bytes space))
    × ((verify_eddsa toy_crypto strings_encoder plain_useful_buf
          (record verifier { auxiliary_buffer = bytes space })
          clear_cose_parameters
          signature_bytes
          protected
          null_buf
          message).1
        ≡ toy_crypto.verify_eddsa toy_key null_buf
            (bytes (sig_structure_bytes protected null_buf message))
            signature_bytes)
unfolding has_flag sign_eddsa sign_eddsa_tbs create_tbs cbor_head encode_array encode_items
    encode_item array_size items_size item_size
eddsa_sizing_example =
    eddsa_sizing toy_crypto strings_encoder strings_encoder-EncodesCbor signer null_buf message
      (refl, omega arith) (refl, omega arith) (refl, omega arith) plain_useful_buf sizing_signer
      verifier clear_cose_parameters (null 3) null_buf signature_bytes space space 64 refl refl refl
      (omega arith) refl (omega arith)
