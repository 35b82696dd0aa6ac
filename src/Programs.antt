-- ===== src/Programs.antt =====
-- The example programs examples/t_cose_basic_example_psa.c and examples/t_cose_basic_example_ossl.c, which
-- sign a message and verify it. They differ in how they make their key pair, which is a parameter here.
pub mod Keys
pub mod Endings
pub mod FirstCall
pub mod Sized
pub mod Dynamic
use t_cose.Common.{
  ℕ, ℤ, pos, Bool, true, not, List, [], ◌∷◌, ◌++◌, replicate, length, Option, none, some,
  if◌then◌else◌, Buf, bytes, null, null_buf, len, UsefulBuf, Err, Result, ok, err, fault,
  insufficient_memory,
}
use t_cose.Algorithm.{cose_algorithm_es256, cose_algorithm_eddsa}
use t_cose.Crypto.{Crypto, Key}
use t_cose.Qcbor.{QcborError, is_success}
use t_cose.Qcbor.Decoder.{Decoder}
use t_cose.Qcbor.Encoder.{
  Encoder, EncodeCtx, EncodeCall, encode_init, open_map, close_map, add_sz_string_to_text_map,
  add_int64_to_text_map, add_bool_to_text_map,
}
use t_cose.Sign.Context.{SignCtx, sign_init, set_signing_key, sign_set_auxiliary_buffer}
use t_cose.Sign.Parameters.{encode_parameters}
use t_cose.Sign.Message.{encode_signature, sign}
use t_cose.Verify.Context.{
  size_max, opt_decode_only, verify_init, set_verification_key, verify_set_auxiliary_buffer,
}
use t_cose.Verify.Message.{verify}

-- How a program ends: it returns T_COSE_SUCCESS after it has printed the payload that was verified, or
-- without that, or an error of t_cose or of QCBOR.
pub data Ending : Type 0 where
  printed : Buf → Ending
  unprinted : Ending
  failed : Err → Ending
  failed_in_qcbor : QcborError → Ending
  undefined : Ending

-- `if(return_value) { goto Done; }`
abbrev pub or_end : {A : Type 0} → Result A → (A → Ending) → Ending
or_end (ok a) next = next a
or_end (err x) next = failed x
or_end fault next = undefined

abbrev being_type : List ℕ
being_type = b'B' ∷ b'e' ∷ b'i' ∷ b'n' ∷ b'g' ∷ b'T' ∷ b'y' ∷ b'p' ∷ b'e' ∷ []

abbrev being_type_value : List ℕ
being_type_value = b'H' ∷ b'u' ∷ b'm' ∷ b'a' ∷ b'n' ∷ b'o' ∷ b'i' ∷ b'd' ∷ []

abbrev greeting : List ℕ
greeting = b'G' ∷ b'r' ∷ b'e' ∷ b'e' ∷ b't' ∷ b'i' ∷ b'n' ∷ b'g' ∷ []

abbrev greeting_value : List ℕ
greeting_value =
    b'W' ∷ b'e' ∷ b' ' ∷ b'c' ∷ b'o' ∷ b'm' ∷ b'e' ∷ b' ' ∷ b'i' ∷ b'n' ∷ b' ' ∷ b'p' ∷ b'e' ∷ b'a'
    ∷ b'c' ∷ b'e' ∷ []

abbrev arm_count : List ℕ
arm_count = b'A' ∷ b'r' ∷ b'm' ∷ b'C' ∷ b'o' ∷ b'u' ∷ b'n' ∷ b't' ∷ []

abbrev head_count : List ℕ
head_count = b'H' ∷ b'e' ∷ b'a' ∷ b'd' ∷ b'C' ∷ b'o' ∷ b'u' ∷ b'n' ∷ b't' ∷ []

abbrev brain_size : List ℕ
brain_size = b'B' ∷ b'r' ∷ b'a' ∷ b'i' ∷ b'n' ∷ b'S' ∷ b'i' ∷ b'z' ∷ b'e' ∷ []

abbrev brain_size_value : List ℕ
brain_size_value = b'm' ∷ b'e' ∷ b'd' ∷ b'i' ∷ b'u' ∷ b'm' ∷ []

abbrev drinks_water : List ℕ
drinks_water = b'D' ∷ b'r' ∷ b'i' ∷ b'n' ∷ b'k' ∷ b's' ∷ b'W' ∷ b'a' ∷ b't' ∷ b'e' ∷ b'r' ∷ []

-- The items of the payload.
unfoldable pub payload_items : List EncodeCall
payload_items =
    open_map
    ∷ add_sz_string_to_text_map being_type being_type_value
    ∷ add_sz_string_to_text_map greeting greeting_value
    ∷ add_int64_to_text_map arm_count (pos 2)
    ∷ add_int64_to_text_map head_count (pos 1)
    ∷ add_sz_string_to_text_map brain_size brain_size_value
    ∷ add_bool_to_text_map drinks_water true
    ∷ close_map
    ∷ []

-- Q_USEFUL_BUF_MAKE_STACK_UB(..., 300). What it holds at first is not read.
abbrev pub stack_buffer : Buf
stack_buffer = bytes (replicate 300 0)

abbrev pub constructed : EncodeCtx
constructed = record { out = stack_buffer; calls = payload_items }

-- "payload"
abbrev pub payload_text : Buf
payload_text = bytes (b'p' ∷ b'a' ∷ b'y' ∷ b'l' ∷ b'o' ∷ b'a' ∷ b'd' ∷ [])

-- malloc(), and the test of its result.
abbrev pub allocated : (ℕ → Option (List ℕ)) → ℕ → Result Buf
allocated malloc n = elim (malloc n) [
  | none ↦ err insufficient_memory
  | some block ↦ ok (bytes block)
]

module _ (c : Crypto) (d : Decoder) (u : UsefulBuf) (e : Encoder)
    (make_key_pair : ℤ → Result Key) where
  unfoldable pub one_step_sign_example : Ending
  one_step_sign_example =
      if not (is_success (e.finish_error constructed))
      then failed_in_qcbor (e.finish_error constructed)
      else or_end (make_key_pair cose_algorithm_es256) λ key_pair.
        let sign_ctx = set_signing_key key_pair null_buf (sign_init 0 cose_algorithm_es256) in
        or_end (sign c e u sign_ctx (e.finish_result constructed) stack_buffer).1 λ signed_cose.
          let verify_ctx = set_verification_key key_pair (verify_init 0) in
          or_end (verify d u c e verify_ctx signed_cose).1 λ v. printed v.returned_payload

  -- When QCBOREncode_Finish() fails, return_value is still T_COSE_SUCCESS.
  unfoldable pub two_step_sign_example : Ending
  two_step_sign_example = or_end (make_key_pair cose_algorithm_es256) λ key_pair.
      let sign_ctx = set_signing_key key_pair null_buf (sign_init 0 cose_algorithm_es256) in
      let ((me, ctx), encoded) = encode_parameters e u (sign_ctx, encode_init stack_buffer) in
      or_end encoded λ done.
        let with_items : EncodeCtx = record ctx { calls = ctx.calls ++ payload_items } in
        let (signed, signing) = encode_signature c e u (me, with_items) in
        or_end signing λ done.
          (if not (is_success (e.finish_error signed.1))
            then unprinted
            else let verify_ctx = set_verification_key key_pair (verify_init 0) in
              or_end (verify d u c e verify_ctx (e.finish_result signed.1)).1
                λ v. printed v.returned_payload)

  -- malloc() gives a block of memory or NULL.
  unfoldable pub dynamic_buffer_example : (ℕ → Option (List ℕ)) → Ending
  dynamic_buffer_example malloc = or_end (make_key_pair cose_algorithm_eddsa) λ key_pair.
      let sign_ctx = set_signing_key key_pair null_buf (sign_init 0 cose_algorithm_eddsa) in
      let (sized, sizing) = sign c e u sign_ctx payload_text (null size_max) in
      or_end sizing λ size. or_end (allocated malloc (len size)) λ signed_cose_buffer.
        or_end (allocated malloc sized.0.auxiliary_buffer_size) λ auxiliary_buffer.
          let signer = sign_set_auxiliary_buffer auxiliary_buffer sized.0 in
          or_end (sign c e u signer payload_text signed_cose_buffer).1 λ signed_cose.
            let (decoded, decoding) = verify d u c e (verify_init opt_decode_only) signed_cose in
            or_end decoding λ v0.
              or_end (allocated malloc decoded.auxiliary_buffer_size) λ verify_buffer.
                let verify_ctx =
                  verify_set_auxiliary_buffer verify_buffer
                    (set_verification_key key_pair (verify_init 0)) in
                or_end (verify d u c e verify_ctx signed_cose).1 λ v. printed v.returned_payload
