-- ===== src/Roundtrip/Sent.antt =====
-- What a message of the signer holds, and how a QCBOR decoder reads it.
use t_cose.Common.{
  ℕ, ◌<◌, ◌≡◌, ◌⊎◌, pos, Bool, true, false, if◌then◌else◌, List, [], ◌∷◌, Option, some, none, Buf,
  bytes, len, null_buf, is_null_or_empty,
}
use t_cose.Parameters.{
  CoseParameters, is_present, alg_index, kid_index, iv_index, partial_iv_index, content_type_index,
}
use t_cose.Parameters.Read.{ReadsMap}
use t_cose.Qcbor.{
  Item, QcborError, qcbor_success, type_int64, type_text_string, type_null, cbor_tag_cose_sign1,
}
use t_cose.Qcbor.Decoder.{Decoder}
use t_cose.Sign.Context.{SignCtx, opt_omit_cbor_tag}
use t_cose.Sign.Message.Calls.{used_kid}
use t_cose.Sign.Parameters.{has_uint}
use t_cose.Verify.Context.{has_flag}
use t_cose.Verify.Tags.Laws.{HasTags}

-- The key identifier and the content types that a message of the signer has.
abbrev pub sent_kid : SignCtx → Buf
sent_kid me = if is_null_or_empty (used_kid me) then null_buf else used_kid me

abbrev pub sent_tstr : Option (List ℕ) → Buf
sent_tstr none = null_buf
sent_tstr (some s) = bytes s

abbrev pub sent_parameters : SignCtx → CoseParameters
sent_parameters me = record {
  cose_algorithm_id = me.cose_algorithm_id;
  kid = sent_kid me;
  iv = null_buf;
  partial_iv = null_buf;
  content_type_tstr = sent_tstr me.content_type_tstr;
  content_type_uint = me.content_type_uint;
}

abbrev pub sent_tags : SignCtx → List ℕ
sent_tags me = if has_flag me.option_flags opt_omit_cbor_tag then [] else cbor_tag_cose_sign1 ∷ []

-- The payload that the caller of the verifier gives.
abbrev pub given_payload : Bool → Buf → Buf
given_payload payload_is_detached payload = if payload_is_detached then payload else null_buf

-- The items of the protected map: the algorithm.
pub record ProtectedItems (me : SignCtx) (items : ℕ → Item) : Type 0 where
  pub alg : (items alg_index).data_type ≡ type_int64
  pub alg_value : (items alg_index).val_int64 ≡ me.cose_algorithm_id
  pub no_kid : is_present (items kid_index) ≡ false
  pub no_iv : is_present (items iv_index) ≡ false
  pub no_partial_iv : is_present (items partial_iv_index) ≡ false
  pub no_content_type : is_present (items content_type_index) ≡ false

-- Those of the unprotected map: the key identifier and one content type, where the signer has them.
pub record UnprotectedItems (me : SignCtx) (items : ℕ → Item) : Type 0 where
  pub no_alg : is_present (items alg_index) ≡ false
  pub kid :
      ((is_null_or_empty (used_kid me) ≡ true) × (is_present (items kid_index) ≡ false))
      ⊎ ((is_null_or_empty (used_kid me) ≡ false)
          × (is_present (items kid_index) ≡ true)
          × ((items kid_index).val_string ≡ used_kid me))
  pub no_iv : is_present (items iv_index) ≡ false
  pub no_partial_iv : is_present (items partial_iv_index) ≡ false
  pub content_type :
      ((has_uint me.content_type_uint ≡ false)
        × (me.content_type_tstr ≡ none)
        × (is_present (items content_type_index) ≡ false))
      ⊎ ((s : List ℕ) × (has_uint me.content_type_uint ≡ false)
          × (me.content_type_tstr ≡ some s)
          × ((items content_type_index).data_type ≡ type_text_string)
          × ((items content_type_index).val_string ≡ bytes s))
      ⊎ ((has_uint me.content_type_uint ≡ true)
          × (me.content_type_uint < 65536)
          × (me.content_type_tstr ≡ none)
          × ((items content_type_index).data_type ≡ type_int64)
          × ((items content_type_index).val_int64 ≡ pos me.content_type_uint))

-- QCBOR reads the parts of the message in order, without an error.
pub record ReadsMessage (d : Decoder) (me : SignCtx) (cose_sign1 : Buf) (payload_is_detached : Bool)
    (protected_parameters payload signature : Buf) : Type 1 where
  pub well_formed : d.is_not_well_formed_error qcbor_success ≡ false
  pub begun : d.get_error (d.enter_array (d.init cose_sign1)) ≡ qcbor_success
  pub tags : HasTags d (d.enter_array (d.init cose_sign1)) (sent_tags me)
  pub inner : d.Ctx
  pub wrapped :
      d.enter_bstr_wrapped (d.enter_array (d.init cose_sign1)) ≡ (inner, protected_parameters)
  pub not_empty : 0 < len protected_parameters
  pub protected_done : d.Ctx
  pub protected_items : ℕ → Item
  pub protected_map : ReadsMap d inner protected_done protected_items
  pub protected_found : ProtectedItems me protected_items
  pub unprotected_done : d.Ctx
  pub unprotected_items : ℕ → Item
  pub unprotected_map :
      ReadsMap d (d.exit_bstr_wrapped protected_done) unprotected_done unprotected_items
  pub unprotected_found : UnprotectedItems me unprotected_items
  pub payload_done : d.Ctx
  pub payload_read :
      ((payload_is_detached ≡ false)
        × (d.get_byte_string unprotected_done ≡ (payload, payload_done)))
      ⊎ ((payload_is_detached ≡ true)
          × (result : QcborError) × (item : Item) × (item.data_type ≡ type_null)
          × (d.get_next unprotected_done ≡ (result, item, payload_done)))
  pub signature_done : d.Ctx
  pub signature_read : d.get_byte_string payload_done ≡ (signature, signature_done)
  pub finished : d.finish (d.exit_array signature_done) ≡ qcbor_success
