-- ===== src/Sign/Message/Nesting.antt =====
-- The calls that open and close arrays, maps and byte strings match.
use t_cose.Common.{
  ℕ, ◌≡◌, refl, ◌⊎◌, inl, inr, Bool, true, false, Bool-cases, List, [], ◌∷◌, ◌++◌, Option, none,
  some, Buf, is_null_or_empty, is_null_ptr, UsefulBuf, ok, ap,
}
use t_cose.Crypto.{Crypto}
use t_cose.Qcbor.Encoder.{
  Encoder, EncodeCtx, EncodeCall, add_tag, add_sz_string, add_bytes, add_encoded, open_array,
  close_array, open_map, close_map, bstr_wrap, close_bstr_wrap, add_null, open_bytes, close_bytes,
  add_int64_to_map, add_uint64_to_map, add_bytes_to_map, add_sz_string_to_map,
  add_sz_string_to_text_map, add_int64_to_text_map, add_bool_to_text_map, write_bytes,
}
use t_cose.Sign.Context.{SignCtx, opt_omit_cbor_tag}
use t_cose.Sign.Parameters.{has_uint}
use t_cose.Sign.Message.{sign_aad_internal}
use t_cose.Sign.Message.Calls.{content_type_calls, protected_calls, used_kid, unprotected_calls}
use t_cose.Sign.Message.Listed.{signature_calls, payload_calls, unsigned_calls, message_calls}
use t_cose.Sign.Message.Signed.{sign_aad_internal-IsSigned}
use t_cose.Verify.Context.{has_flag}

-- What is open.
pub data Frame : Type 0 where
  in_array in_map in_bstr in_bytes : Frame

-- What is open after a call, innermost first, or none if the call is not allowed there: a close must
-- match the last open, labelled items belong into a map, and bytes are written between
-- QCBOREncode_OpenBytes() and QCBOREncode_CloseBytes().
unfoldable pub after_call : EncodeCall → List Frame → Option (List Frame)
after_call open_array s = some (in_array ∷ s)
after_call open_map s = some (in_map ∷ s)
after_call bstr_wrap s = some (in_bstr ∷ s)
after_call open_bytes s = some (in_bytes ∷ s)
after_call close_array (in_array ∷ s) = some s
after_call close_map (in_map ∷ s) = some s
after_call (close_bstr_wrap b) (in_bstr ∷ s) = some s
after_call (close_bytes n) (in_bytes ∷ s) = some s
after_call (write_bytes b) (in_bytes ∷ s) = some (in_bytes ∷ s)
after_call (add_int64_to_map l z) (in_map ∷ s) = some (in_map ∷ s)
after_call (add_uint64_to_map l n) (in_map ∷ s) = some (in_map ∷ s)
after_call (add_bytes_to_map l b) (in_map ∷ s) = some (in_map ∷ s)
after_call (add_sz_string_to_map l t) (in_map ∷ s) = some (in_map ∷ s)
after_call (add_sz_string_to_text_map l t) (in_map ∷ s) = some (in_map ∷ s)
after_call (add_int64_to_text_map l z) (in_map ∷ s) = some (in_map ∷ s)
after_call (add_bool_to_text_map l b) (in_map ∷ s) = some (in_map ∷ s)
after_call (add_tag t) s = some s
after_call add_null s = some s
after_call (add_sz_string t) s = some s
after_call (add_bytes b) s = some s
after_call (add_encoded b) s = some s
after_call _ _ = none

abbrev and_then : Option (List Frame) → (List Frame → Option (List Frame)) → Option (List Frame)
and_then none f = none
and_then (some s) f = f s

unfoldable pub after_calls : List EncodeCall → List Frame → Option (List Frame)
after_calls [] s = some s
after_calls (call ∷ calls) s = and_then (after_call call s) (λ s'. after_calls calls s')

-- Every open is closed, and no call stands in a wrong place.
abbrev pub IsNested : List EncodeCall → Type 0
IsNested calls = after_calls calls [] ≡ some []

and_then_split :
    (o : Option (List Frame)) (f g h : List Frame → Option (List Frame))
    → ((s : List Frame) → h s ≡ and_then (f s) g)
    → and_then o h ≡ and_then (and_then o f) g
and_then_split none f g h k = refl
and_then_split (some s) f g h k = k s

after_calls-append :
    (xs ys : List EncodeCall) (s : List Frame)
    → after_calls (xs ++ ys) s ≡ and_then (after_calls xs s) (λ s'. after_calls ys s')
unfolding after_calls
after_calls-append [] ys s = refl
after_calls-append (x ∷ xs) ys s =
    and_then_split (after_call x s) (λ s'. after_calls xs s') (λ s'. after_calls ys s') _
      (λ s'. after_calls-append xs ys s')

after_protected_calls : (me : SignCtx) → after_calls (protected_calls me) [] ≡ some (in_array ∷ [])
unfolding after_calls after_call protected_calls
after_protected_calls me = elim (Bool-cases (has_flag me.option_flags opt_omit_cbor_tag)) [
  | inl omit ↦ rw omit refl
  | inr tagged ↦ rw tagged refl
]

after_content_type :
    (n : ℕ) (t : Option (List ℕ)) (s : List Frame)
    → after_calls (content_type_calls n t ++ (close_map ∷ [])) (in_map ∷ s) ≡ some s
unfolding after_calls after_call
after_content_type n (some t) s = refl
after_content_type n none s = elim (Bool-cases (has_uint n)) [
  | inl a ↦ rw a refl
  | inr a ↦ rw a refl
]

after_unprotected_calls :
    (me : SignCtx) (kid : Buf) (s : List Frame) → after_calls (unprotected_calls me kid) s ≡ some s
unfolding after_calls after_call unprotected_calls
after_unprotected_calls me kid s = elim (Bool-cases (is_null_or_empty kid)) [
  | inl a ↦ rw a (after_content_type me.content_type_uint me.content_type_tstr s)
  | inr a ↦ rw a (after_content_type me.content_type_uint me.content_type_tstr s)
]

after_payload_calls :
    (payload_is_detached : Bool) (payload : Buf) (s : List Frame)
    → (payload_is_detached ≡ false) ⊎ (is_null_ptr payload ≡ false)
    → after_calls (payload_calls payload_is_detached payload) s ≡ some s
unfolding after_calls after_call payload_calls
after_payload_calls false payload s h = refl
after_payload_calls true payload s (inl e) = cc
after_payload_calls true payload s (inr e) = rw e refl

after_unsigned_calls :
    (me : SignCtx) (payload_is_detached : Bool) (payload : Buf)
    → (payload_is_detached ≡ false) ⊎ (is_null_ptr payload ≡ false)
    → after_calls (unsigned_calls me payload_is_detached payload) [] ≡ some (in_array ∷ [])
unfolding unsigned_calls
after_unsigned_calls me payload_is_detached payload given =
    let rest = unprotected_calls me (used_kid me) ++ payload_calls payload_is_detached payload in
    rw
      (
        after_calls-append (protected_calls me) rest [],
        after_protected_calls me,
        after_calls-append (unprotected_calls me (used_kid me))
            (payload_calls payload_is_detached payload) (in_array ∷ []),
        after_unprotected_calls me (used_kid me) (in_array ∷ []),
      )
      (after_payload_calls payload_is_detached payload (in_array ∷ []) given)

after_signature_calls :
    (signature : Buf) → after_calls (signature_calls signature) (in_array ∷ []) ≡ some []
unfolding after_calls after_call
after_signature_calls signature = refl

module _ (c : Crypto) (e : Encoder) (u : UsefulBuf) (me : SignCtx) (payload_is_detached : Bool)
    (payload aad out_buf : Buf) where
  -- Every call of QCBOR that opens an array, a map or a byte string in a message that is signed
  -- successfully is matched by the call that closes it, labelled items stand in maps only and the
  -- signature in an open byte string, unless the payload is detached and NULL.
  pub sign_aad_internal-IsNested :
      (me' : SignCtx) (ctx' : EncodeCtx) (result : Buf)
      → (payload_is_detached ≡ false) ⊎ (is_null_ptr payload ≡ false)
      → sign_aad_internal c e u me payload_is_detached payload aad out_buf
        ≡ ((me', ctx'), ok result)
      → IsNested ctx'.calls
  unfolding message_calls
  sign_aad_internal-IsNested me' ctx' result given h =
      let signed =
        sign_aad_internal-IsSigned c e u me payload_is_detached payload aad out_buf me' ctx' result
          h in
      rw
        (
          ap (λ x. x.calls) signed.encoded,
          after_calls-append (unsigned_calls me payload_is_detached payload)
              (signature_calls signed.signature) [],
          after_unsigned_calls me payload_is_detached payload given,
        )
        (after_signature_calls signed.signature)
