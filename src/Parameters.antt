-- ===== src/Parameters.antt =====
-- src/t_cose_parameters.c: decoding the header parameters, over any QCBOR decoder.
pub mod Single
pub mod Crit
pub mod Unknown
pub mod Parse
pub mod Read
use t_cose.Common.{
  store, ℕ, zero, suc, ◌+◌, ◌==◌, leb, ltb, ℤ, pos, negsuc, eq_ℤ, ltb_ℤ, int32, word32, Bool, true,
  false, ◌&&◌, ◌||◌, not, List, [], ◌∷◌, Option, none, some, if◌then◌else◌, length, set, Result, ok,
  err, fault, ◌>>=◌, ◌>>◌, fail_if, Buf, null_buf, UsefulBuf, parameter_not_protected,
  non_integer_alg_id, duplicate_parameter, bad_content_type, crit_parameter, cbor_not_well_formed,
  parameter_cbor,
}
use t_cose.Algorithm.{cose_algorithm_reserved}
use t_cose.Qcbor.{
  Item, QcborError, QcborType, same_type, type_none, type_int64, type_byte_string, type_text_string,
  type_any, qcbor_success, callback_fail, is_success, is_no_more_items, is_label_not_found,
  is_callback_fail,
}
use t_cose.Qcbor.Decoder.{Decoder, Query}
use t_cose.Labels.{LabelList, parameter_list_max, add_label_to_list, is_label_list_clear}

-- COSE_HEADER_PARAM_CRIT
abbrev pub param_crit : ℤ
param_crit = pos 2

-- T_COSE_EMPTY_UINT_CONTENT_TYPE, which is UINT16_MAX+1.
abbrev pub empty_uint_content_type : ℕ
empty_uint_content_type = 65536

-- `struct t_cose_parameters`
pub record CoseParameters : Type 0 where
  pub cose_algorithm_id : ℤ
  pub kid : Buf
  pub iv : Buf
  pub partial_iv : Buf
  pub content_type_tstr : Buf
  pub content_type_uint : ℕ

abbrev pub clear_cose_parameters : CoseParameters
clear_cose_parameters = record {
  cose_algorithm_id = cose_algorithm_reserved;
  kid = null_buf;
  iv = null_buf;
  partial_iv = null_buf;
  content_type_tstr = null_buf;
  content_type_uint = empty_uint_content_type;
}

-- The places in header_items, and what is asked for at each.
abbrev pub alg_index : ℕ
alg_index = 0

abbrev pub kid_index : ℕ
kid_index = 1

abbrev pub iv_index : ℕ
iv_index = 2

abbrev pub partial_iv_index : ℕ
partial_iv_index = 3

abbrev pub content_type_index : ℕ
content_type_index = 4

abbrev query : ℕ → QcborType → Query
query label type = record { query_label = pos label; query_type = type }

abbrev pub header_queries : List Query
header_queries =
    query 1 type_int64
    ∷ query 4 type_byte_string
    ∷ query 5 type_byte_string
    ∷ query 6 type_byte_string
    ∷ query 3 type_any
    ∷ []

-- `(uint32_t)z`
abbrev pub to_uint32 : ℤ → ℕ
to_uint32 z = word32 z

-- Whether the map held an item for the query.
abbrev pub is_present : Item → Bool
is_present item = not (same_type item.data_type type_none)

-- The algorithm, which must be protected. `protected` is `critical_labels != NULL`.
unfoldable pub take_alg : Bool → Item → CoseParameters → Result CoseParameters
take_alg protected item p =
    if is_present item
    then (do
      fail_if (not protected) parameter_not_protected
      fail_if (eq_ℤ item.val_int64 cose_algorithm_reserved || ltb_ℤ (pos 0x7fffffff) item.val_int64)
          non_integer_alg_id
      ok (record p { cose_algorithm_id = int32 item.val_int64 }))
    else ok p

-- A byte string parameter: `old`, unless the item is present.
unfoldable pub take_string : UsefulBuf → Item → Buf → Result Buf
take_string u item old =
    if is_present item
    then (if u.is_null old then ok item.val_string else err duplicate_parameter)
    else ok old

unfoldable pub take_content_type : UsefulBuf → Item → CoseParameters → Result CoseParameters
take_content_type u item p =
    if same_type item.data_type type_text_string
    then (do
      fail_if (not (u.null_or_empty p.content_type_tstr)) duplicate_parameter
      ok (record p { content_type_tstr = item.val_string }))
    else if same_type item.data_type type_int64
    then (do
      fail_if (ltb_ℤ item.val_int64 (pos 0) || ltb_ℤ (pos 0xffff) item.val_int64) bad_content_type
      fail_if (not (p.content_type_uint == empty_uint_content_type)) duplicate_parameter
      ok (record p { content_type_uint = to_uint32 item.val_int64 }))
    else if is_present item
    then err bad_content_type
    else ok p

-- The clauses of parse_cose_header_parameters() that copy the parameters out of the items.
unfoldable pub take_parameters :
    UsefulBuf → Bool → (ℕ → Item) → CoseParameters → Result CoseParameters
take_parameters u protected items p = do
  p1 ← take_alg protected (items alg_index) p
  kid ← take_string u (items kid_index) p1.kid
  iv ← take_string u (items iv_index) p1.iv
  partial_iv ← take_string u (items partial_iv_index) p1.partial_iv
  take_content_type u (items content_type_index)
      (record p1 { kid = kid; iv = iv; partial_iv = partial_iv })

-- `critical_labels != NULL`
abbrev pub is_protected : Option LabelList → Bool
is_protected none = false
is_protected (some list) = true

-- `struct cb_context`. `ok tt` is a return_value of 0.
pub record CbContext : Type 0 where
  pub unknown_labels : LabelList
  pub return_value : Result (Unit {0})

-- The end of the callback: the result is kept for the caller, and becomes QCBOR's error code.
abbrev pub report : CbContext → Result LabelList → QcborError × CbContext
report context (ok list) = (qcbor_success, record { unknown_labels = list; return_value = ok tt })
report context (err e) = (callback_fail, record context { return_value = err e })
report context fault = (callback_fail, record context { return_value = fault })

unfoldable pub header_parameter_callback : UsefulBuf → CbContext → Item → QcborError × CbContext
header_parameter_callback u context item = report context (
    if same_type item.label_type type_int64 && eq_ℤ item.label_int64 param_crit
    then ok context.unknown_labels
    else add_label_to_list u item context.unknown_labels)

module _ (d : Decoder) where
  -- What parse_cose_header_parameters() leaves behind when it succeeds.
  pub record Parsed : Type 0 where
    pub ctx : d.Ctx
    pub parameters : CoseParameters
    pub critical : Option LabelList
    pub unknown : LabelList

  -- The loop of decode_critical_parameter(), which ends by itself within 21 rounds.
  unfoldable pub critical_loop : ℕ → d.Ctx → ℕ → ℕ → LabelList → Result (LabelList × d.Ctx)
  critical_loop zero ctx num_int num_tstr list = fault
  critical_loop (suc fuel) ctx num_int num_tstr list =
      let (result, item, ctx') = d.get_next ctx in
      let add_int = (do
        fail_if (leb parameter_list_max num_int) crit_parameter
        array ← store list.int_labels num_int item.val_int64
        critical_loop fuel ctx' (num_int + 1) num_tstr (record list { int_labels = array })) in
      let add_tstr = (do
        fail_if (leb parameter_list_max num_tstr) crit_parameter
        array ← store list.tstr_labels num_tstr item.val_string
        critical_loop fuel ctx' num_int (num_tstr + 1) (record list { tstr_labels = array })) in
      if is_no_more_items result
      then ok (list, ctx')
      else if not (is_success result)
      then err cbor_not_well_formed
      else if same_type item.data_type type_int64
      then add_int
      else if same_type item.data_type type_text_string
      then add_tstr
      else err crit_parameter

  module _ (u : UsefulBuf) where
    unfoldable pub decode_critical_parameter :
        d.Ctx → Option LabelList → Result (Option LabelList × d.Ctx)
    decode_critical_parameter ctx critical =
        let (result, ctx') = d.get_and_reset_error (d.enter_array_from_map param_crit ctx) in
        if is_label_not_found result
        then ok (critical, ctx')
        else if not (is_success result)
        then err crit_parameter
        else elim critical [
          | none ↦ err parameter_not_protected
          | some list ↦ do
            (list', after) ← critical_loop 21 ctx' 0 0 list
            fail_if (is_label_list_clear u list') crit_parameter
            ok (some list', d.exit_array after)
        ]

    unfoldable pub parse_cose_header_parameters :
        d.Ctx → CoseParameters → Option LabelList → LabelList → Result Parsed
    parse_cose_header_parameters ctx parameters critical unknown =
        let start : CbContext = record { unknown_labels = unknown; return_value = ok tt } in
        let (items, context, after) =
          d.get_items_in_map_with_callback CbContext (header_parameter_callback u) (d.enter_map ctx)
            header_queries start in
        let result = d.get_error after in
        if is_callback_fail result
        then (do
          context.return_value
          ok (record {
            ctx = after;
            parameters = parameters;
            critical = critical;
            unknown = context.unknown_labels;
          }))
        else if not (is_success result)
        then err
            (if d.is_not_well_formed_error result then cbor_not_well_formed else parameter_cbor)
        else (do
          p ← take_parameters u (is_protected critical) items parameters
          (critical', decoded) ← decode_critical_parameter after critical
          ok (record {
            ctx = d.exit_map decoded;
            parameters = p;
            critical = critical';
            unknown = context.unknown_labels;
          }))
