-- ===== src/Sign/Message/Calls.antt =====
-- The calls of QCBOR that the header parameters of a message make, listed.
use t_cose.Common.{
  ℕ, ◌≡◌, refl, Bool, true, false, not, ◌&&◌, Bool-cases, inl, inr, ◌⊎◌, List, [], ◌∷◌, ◌++◌,
  append_assoc, append-nil, Option, none, some, if◌then◌else◌, arith, Buf, is_null_or_empty,
  UsefulBuf, Result, ok, Err, err, or_done, duplicate_parameter, unsupported_signing_alg,
}
use t_cose.Algorithm.{signature_algorithm_id_is_supported}
use t_cose.Qcbor.{cbor_tag_cose_sign1}
use t_cose.Qcbor.Encoder.{
  Encoder, EncodeCtx, EncodeCall, ◌▷◌, add_tag, open_array, open_map, close_map, bstr_wrap,
  close_bstr_wrap, add_int64_to_map, add_uint64_to_map, add_bytes_to_map, add_sz_string_to_map,
}
use t_cose.ShortCircuit.{short_circuit_kid}
use t_cose.Sign.Context.{SignCtx, opt_short_circuit_sig, opt_omit_cbor_tag}
use t_cose.Sign.Parameters.{
  param_alg, param_content_type, param_kid, has_tstr, has_uint, encode_protected_parameters,
  add_unprotected_parameters, encode_parameters_internal,
}
use t_cose.Verify.Context.{has_flag}

-- More calls.
abbrev pub extend : EncodeCtx → List EncodeCall → EncodeCtx
extend ctx calls = record ctx { calls = ctx.calls ++ calls }

abbrev tag_calls : SignCtx → List EncodeCall
tag_calls me =
    if has_flag me.option_flags opt_omit_cbor_tag then [] else add_tag cbor_tag_cose_sign1 ∷ []

-- The tag, the start of the array and the protected parameters.
unfoldable pub protected_calls : SignCtx → List EncodeCall
protected_calls me =
    tag_calls me
    ++ (open_array
        ∷ bstr_wrap
        ∷ open_map
        ∷ add_int64_to_map param_alg me.cose_algorithm_id
        ∷ close_map
        ∷ close_bstr_wrap false
        ∷ [])

-- The key identifier that is encoded: with the short-circuit option there is always one.
unfoldable pub used_kid : SignCtx → Buf
used_kid me =
    if has_flag me.option_flags opt_short_circuit_sig && is_null_or_empty me.kid
    then short_circuit_kid
    else me.kid

abbrev kid_calls : Buf → List EncodeCall
kid_calls kid = if is_null_or_empty kid then [] else add_bytes_to_map param_kid kid ∷ []

abbrev pub content_type_calls : ℕ → Option (List ℕ) → List EncodeCall
content_type_calls n (some s) = add_sz_string_to_map param_content_type s ∷ []
content_type_calls n none = if has_uint n then add_uint64_to_map param_content_type n ∷ [] else []

unfoldable pub unprotected_calls : SignCtx → Buf → List EncodeCall
unprotected_calls me kid =
    open_map
    ∷ (kid_calls kid
        ++ (content_type_calls me.content_type_uint me.content_type_tstr ++ (close_map ∷ [])))

-- Only one of the two content types is set.
abbrev pub has_one_content_type : SignCtx → Bool
has_one_content_type me = not (has_uint me.content_type_uint && has_tstr me.content_type_tstr)

content_type_cases :
    (n : ℕ) (t : Option (List ℕ))
    → not (has_uint n && has_tstr t) ≡ true
    → ((has_uint n ≡ false) × ((s : List ℕ) × (t ≡ some s)))
      ⊎ ((has_uint n ≡ true) × (t ≡ none))
      ⊎ ((has_uint n ≡ false) × (t ≡ none))
content_type_cases n none h = ground arith
content_type_cases n (some s) h = inl (ground arith, (s, refl))

add_unprotected_parameters_lem :
    (u : UsefulBuf) (me : SignCtx) (kid : Buf) (ctx : EncodeCtx)
    → has_one_content_type me ≡ true
    → add_unprotected_parameters u me kid ctx ≡ (extend ctx (unprotected_calls me kid), ok tt)
unfolding add_unprotected_parameters unprotected_calls
add_unprotected_parameters_lem u me kid ctx h = elim (Bool-cases (is_null_or_empty kid)) [
  | inl a ↦ elim (content_type_cases me.content_type_uint me.content_type_tstr h) [
    | inl (b, (s, c)) ↦ rw (u.null_or_empty_lem kid, a, c, b) (simp append_assoc)
    | inr (inl (b, c)) ↦ rw (u.null_or_empty_lem kid, a, c, b) (simp append_assoc)
    | inr (inr (b, c)) ↦ rw (u.null_or_empty_lem kid, a, c, b) (simp append_assoc)
  ]
  | inr a ↦ elim (content_type_cases me.content_type_uint me.content_type_tstr h) [
    | inl (b, (s, c)) ↦ rw (u.null_or_empty_lem kid, a, c, b) (simp append_assoc)
    | inr (inl (b, c)) ↦ rw (u.null_or_empty_lem kid, a, c, b) (simp append_assoc)
    | inr (inr (b, c)) ↦ rw (u.null_or_empty_lem kid, a, c, b) (simp append_assoc)
  ]
]

add_unprotected_parameters_duplicate :
    (u : UsefulBuf) (me : SignCtx) (kid : Buf) (ctx : EncodeCtx)
    → has_one_content_type me ≡ false
    → (add_unprotected_parameters u me kid ctx).1 ≡ err duplicate_parameter
unfolding add_unprotected_parameters
add_unprotected_parameters_duplicate u me kid ctx h = ground arith

module _ (e : Encoder) (u : UsefulBuf) where
  -- The signing context once the protected parameters are encoded.
  abbrev pub with_protected : SignCtx → EncodeCtx → SignCtx
  with_protected me ctx = record me {
    protected_parameters = e.wrapped_bstr (extend ctx (protected_calls me));
  }

  encode_protected_parameters_lem :
      (me : SignCtx) (ctx : EncodeCtx)
      → encode_protected_parameters e me.cose_algorithm_id (
          (if not (has_flag me.option_flags opt_omit_cbor_tag)
            then ctx ▷ add_tag cbor_tag_cose_sign1
            else ctx)
          ▷ open_array)
        ≡ (extend ctx (protected_calls me), e.wrapped_bstr (extend ctx (protected_calls me)))
  unfolding encode_protected_parameters protected_calls
  encode_protected_parameters_lem me ctx =
      elim (Bool-cases (has_flag me.option_flags opt_omit_cbor_tag)) [
        | inl omit ↦ rw omit (simp append_assoc)
        | inr tagged ↦ rw tagged (simp append_assoc)
      ]

  used_kid_lem :
      (me : SignCtx)
      → (if has_flag me.option_flags opt_short_circuit_sig && u.null_or_empty me.kid
          then short_circuit_kid
          else me.kid)
        ≡ used_kid me
  unfolding used_kid
  used_kid_lem me = rw (u.null_or_empty_lem me.kid) refl

  -- The header parameters of a message are encoded, by exactly the calls that are listed, when the
  -- algorithm is supported and at most one content type is set.
  pub encode_parameters_internal_lem :
      (me : SignCtx) (ctx : EncodeCtx) (payload_is_detached : Bool)
      → signature_algorithm_id_is_supported me.cose_algorithm_id ≡ true
      → has_one_content_type me ≡ true
      → encode_parameters_internal e u payload_is_detached (me, ctx) ≡ (
        (
          with_protected me ctx,
          extend ctx (
              protected_calls me
              ++ (unprotected_calls me (used_kid me)
                  ++ (if payload_is_detached then [] else bstr_wrap ∷ []))),
        ),
        ok tt,
      )
  unfolding encode_parameters_internal unprotected_calls
  encode_parameters_internal_lem me ctx true s o =
      rw
        (
          s,
          encode_protected_parameters_lem me ctx,
          used_kid_lem me,
          add_unprotected_parameters_lem u (with_protected me ctx) (used_kid me)
              (extend ctx (protected_calls me)) o,
        )
        (simp (append_assoc, append-nil))
  encode_parameters_internal_lem me ctx false s o =
      rw
        (
          s,
          encode_protected_parameters_lem me ctx,
          used_kid_lem me,
          add_unprotected_parameters_lem u (with_protected me ctx) (used_kid me)
              (extend ctx (protected_calls me)) o,
        )
        (simp append_assoc)

  refused_algorithm :
      (me : SignCtx) (ctx : EncodeCtx) (payload_is_detached : Bool)
      → signature_algorithm_id_is_supported me.cose_algorithm_id ≡ false
      → (encode_parameters_internal e u payload_is_detached (me, ctx)).1
        ≡ err unsupported_signing_alg
  unfolding encode_parameters_internal
  refused_algorithm me ctx payload_is_detached h = rw h refl

  or_done-err :
      {S A B : Type 0} (s : S) (r : Result A) (x : Err) (f : S → A → S × Result B)
      → r ≡ err x
      → (or_done (s, r) f).1 ≡ err x
  or_done-err s r x f h = rw h refl

  refused_content_type :
      (me : SignCtx) (ctx : EncodeCtx) (payload_is_detached : Bool)
      → signature_algorithm_id_is_supported me.cose_algorithm_id ≡ true
      → has_one_content_type me ≡ false
      → (encode_parameters_internal e u payload_is_detached (me, ctx)).1 ≡ err duplicate_parameter
  unfolding encode_parameters_internal
  refused_content_type me ctx payload_is_detached s h =
      rw (s, encode_protected_parameters_lem me ctx, used_kid_lem me)
        (or_done-err _ _ _ _ (
          add_unprotected_parameters_duplicate u (with_protected me ctx) (used_kid me)
            (extend ctx (protected_calls me)) h))

  -- Encoding the header parameters fails for an algorithm that is not supported, then for two
  -- content types, and in no other case.
  pub encode_parameters_internal-outcome :
      (me : SignCtx) (ctx : EncodeCtx) (payload_is_detached : Bool)
      → (encode_parameters_internal e u payload_is_detached (me, ctx)).1 ≡ (
          if not (signature_algorithm_id_is_supported me.cose_algorithm_id)
          then err unsupported_signing_alg
          else if has_one_content_type me
          then ok tt
          else err duplicate_parameter)
  encode_parameters_internal-outcome me ctx payload_is_detached =
      elim (Bool-cases (signature_algorithm_id_is_supported me.cose_algorithm_id)) [
        | inl supported ↦ elim (Bool-cases (has_one_content_type me)) [
          | inl one ↦
              rw
                (
                  encode_parameters_internal_lem me ctx payload_is_detached supported one,
                  supported,
                  one,
                )
                refl
          | inr two ↦
              rw (supported, two) (refused_content_type me ctx payload_is_detached supported two)
        ]
        | inr unsupported ↦
            rw unsupported (refused_algorithm me ctx payload_is_detached unsupported)
      ]
