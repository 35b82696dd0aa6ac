-- ===== src/Sign/Message/Listed.antt =====
-- The calls of QCBOR for a whole message, and the encoding of its signature.
use t_cose.Common.{
  ◌≡◌, refl, sym, ◌∙◌, ap, Bool, true, false, not, ◌&&◌, Bool-cases, inl, inr, List, [], ◌∷◌, ◌++◌,
  append_assoc, if◌then◌else◌, Buf, null_buf, len, is_null_ptr, UsefulBuf, Result, ok,
  or_done-ok_elim,
}
use t_cose.Crypto.{Crypto}
use t_cose.Qcbor.Encoder.{
  Encoder, EncodeCtx, EncodeCall, ◌▷◌, bstr_wrap, close_array, close_bstr_wrap, add_null,
  add_encoded, open_bytes, write_bytes, close_bytes,
}
use t_cose.Sign.Context.{SignCtx}
use t_cose.Sign.Message.{encode_error, make_signature, encode_signature_aad_internal}
use t_cose.Sign.Message.Calls.{extend, protected_calls, unprotected_calls, used_kid}

-- The calls for the payload: null in its place if it is detached, and otherwise its bytes in a byte
-- string. A detached payload that is NULL closes a byte string that is not open.
unfoldable pub payload_calls : Bool → Buf → List EncodeCall
payload_calls true payload =
    add_null ∷ (if is_null_ptr payload then close_bstr_wrap false ∷ [] else [])
payload_calls false payload = bstr_wrap ∷ add_encoded payload ∷ close_bstr_wrap false ∷ []

abbrev pub signature_calls : Buf → List EncodeCall
signature_calls signature =
    open_bytes ∷ write_bytes signature ∷ close_bytes (len signature) ∷ close_array ∷ []

-- All calls before the signature, and all calls.
unfoldable pub unsigned_calls : SignCtx → Bool → Buf → List EncodeCall
unsigned_calls me payload_is_detached payload =
    protected_calls me
    ++ (unprotected_calls me (used_kid me) ++ payload_calls payload_is_detached payload)

unfoldable pub message_calls : SignCtx → Bool → Buf → Buf → List EncodeCall
message_calls me payload_is_detached payload signature =
    unsigned_calls me payload_is_detached payload ++ signature_calls signature

abbrev rest_of : List EncodeCall → List EncodeCall
rest_of [] = []
rest_of (x ∷ xs) = xs

-- The first bytes that are written.
abbrev pub written : List EncodeCall → Buf
written [] = null_buf
written (write_bytes b ∷ calls) = b
written (_ ∷ calls) = written calls

append_cancel : (xs ys zs : List EncodeCall) → xs ++ ys ≡ xs ++ zs → ys ≡ zs
append_cancel [] ys zs h = h
append_cancel (x ∷ xs) ys zs h = append_cancel xs ys zs (ap rest_of h)

-- The signature can be told from the calls.
pub message_calls-injective :
    (me : SignCtx) (payload_is_detached : Bool) (payload s t : Buf)
    → message_calls me payload_is_detached payload s
      ≡ message_calls me payload_is_detached payload t
    → s ≡ t
unfolding message_calls
message_calls-injective me payload_is_detached payload s t h = ap written (
    append_cancel (unsigned_calls me payload_is_detached payload) (signature_calls s)
      (signature_calls t) h)

-- The context of the encoder before the signature, and the payload that is signed.
abbrev pub before_signature : Buf → EncodeCtx → EncodeCtx
before_signature detached_payload ctx =
    if is_null_ptr detached_payload then ctx ▷ close_bstr_wrap false else ctx

abbrev pub signed_payload : Encoder → Buf → EncodeCtx → Buf
signed_payload e detached_payload ctx =
    if is_null_ptr detached_payload
    then e.wrapped_bstr (ctx ▷ close_bstr_wrap false)
    else detached_payload

made_outcome :
    (outcome : SignCtx × Result Buf) (me' : SignCtx) (signature : Buf)
    → outcome.0 ≡ me'
    → outcome.1 ≡ ok signature
    → outcome ≡ (me', ok signature)
made_outcome outcome me' signature h k = cc

module _ (c : Crypto) (e : Encoder) (u : UsefulBuf) (aad detached_payload : Buf) (me : SignCtx)
    (ctx : EncodeCtx) where
  abbrev pub before : EncodeCtx
  before = before_signature detached_payload ctx

  abbrev pub signed : Buf
  signed = signed_payload e detached_payload ctx

  pub record IsSignatureEncoded (me' : SignCtx) (ctx' : EncodeCtx) : Type 0 where
    pub signature : Buf
    pub no_error : encode_error (e.get_error_state before) ≡ ok tt
    pub made :
        make_signature c e me aad signed (e.opened_bytes (before ▷ open_bytes))
        ≡ (me', ok signature)
    pub encoded : ctx' ≡ extend before (signature_calls signature)

  pub encode_signature_aad_internal-IsSignatureEncoded :
      (me' : SignCtx) (ctx' : EncodeCtx) (t : Unit {0})
      → encode_signature_aad_internal c e u aad detached_payload (me, ctx) ≡ ((me', ctx'), ok t)
      → IsSignatureEncoded me' ctx'
  unfolding encode_signature_aad_internal
  encode_signature_aad_internal-IsSignatureEncoded me' ctx' t h =
      let h' = rw (u.is_null_lem detached_payload) at h in
      let outcome = make_signature c e me aad signed (e.opened_bytes (before ▷ open_bytes)) in
      or_done-ok_elim ((me, before), encode_error (e.get_error_state before)) _ h'
        λ s v e0 h0.
          or_done-ok_elim ((outcome.0, before ▷ open_bytes), outcome.1) _ h0
            λ s1 signature e1 h1. record {
              signature = signature;
              no_error = ap (λ r. r.1) e0;
              made = made_outcome outcome me' signature (ap (λ r. r.0.0) h1) (ap (λ r. r.1) e1);
              encoded = sym (ap (λ r. r.0.1) h1) ∙ simp append_assoc;
            }

-- The context of the encoder with the payload.
abbrev pub with_payload : Bool → Buf → EncodeCtx → EncodeCtx
with_payload payload_is_detached payload ctx =
    if payload_is_detached then ctx ▷ add_null else ctx ▷ add_encoded payload

abbrev pub detached_part : Bool → Buf → Buf
detached_part payload_is_detached payload = if not payload_is_detached then null_buf else payload

pub before_signature_lem :
    (me : SignCtx) (payload_is_detached : Bool) (payload : Buf) (ctx : EncodeCtx)
    → before_signature (detached_part payload_is_detached payload) (
        with_payload payload_is_detached payload (
          extend ctx (
            protected_calls me
            ++ (unprotected_calls me (used_kid me)
                ++ (if payload_is_detached then [] else bstr_wrap ∷ [])))))
      ≡ extend ctx (unsigned_calls me payload_is_detached payload)
unfolding unsigned_calls payload_calls
before_signature_lem me false payload ctx = simp append_assoc
before_signature_lem me true payload ctx = elim (Bool-cases (is_null_ptr payload)) [
  | inl missing ↦ rw missing (simp append_assoc)
  | inr given ↦ rw given (simp append_assoc)
]

pub signed_payload_lem :
    (e : Encoder) (payload_is_detached : Bool) (payload : Buf) (ctx : EncodeCtx)
    → signed_payload e
        (detached_part payload_is_detached payload)
        (with_payload payload_is_detached payload ctx)
      ≡ (if payload_is_detached && not (is_null_ptr payload)
          then payload
          else e.wrapped_bstr (
              before_signature
                (detached_part payload_is_detached payload)
                (with_payload payload_is_detached payload ctx)))
signed_payload_lem e false payload ctx = refl
signed_payload_lem e true payload ctx = elim (Bool-cases (is_null_ptr payload)) [
  | inl missing ↦ rw missing refl
  | inr given ↦ rw given refl
]
