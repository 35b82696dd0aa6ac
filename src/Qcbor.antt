-- ===== src/Qcbor.antt =====
-- QCBOR, which the code calls and does not contain: its items and error codes, and its decoder
-- and encoder as records of operations. Nothing is assumed of the operations here.
pub mod Decoder
pub mod Encoder
use t_cose.Common.{ℕ, ◌==◌, ℤ, Bool, true, false, Buf}

-- QCBOR_TYPE_NONE, QCBOR_TYPE_INT64 and the other types that the code names.
pub data QcborType : Type 0 where
  type_none type_int64 type_byte_string type_text_string type_null type_any : QcborType
  type_other : ℕ → QcborType

abbrev pub same_type : QcborType → QcborType → Bool
same_type type_none type_none = true
same_type type_int64 type_int64 = true
same_type type_byte_string type_byte_string = true
same_type type_text_string type_text_string = true
same_type type_null type_null = true
same_type type_any type_any = true
same_type (type_other a) (type_other b) = a == b
same_type _ _ = false

-- QCBORItem. The members of the two unions are fields, since the code reads a member by the type
-- that it asked for.
pub record Item : Type 0 where
  pub label_type : QcborType
  pub label_int64 : ℤ
  pub label_string : Buf
  pub data_type : QcborType
  pub val_int64 : ℤ
  pub val_string : Buf

-- QCBORError: QCBOR_SUCCESS and the errors that the code tells apart.
pub data QcborError : Type 0 where
  qcbor_success buffer_too_small too_many_tags_error label_not_found no_more_items : QcborError
  callback_fail : QcborError
  other_error : ℕ → QcborError

abbrev pub is_success : QcborError → Bool
is_success qcbor_success = true
is_success _ = false

abbrev pub is_no_more_items : QcborError → Bool
is_no_more_items no_more_items = true
is_no_more_items _ = false

abbrev pub is_label_not_found : QcborError → Bool
is_label_not_found label_not_found = true
is_label_not_found _ = false

abbrev pub is_callback_fail : QcborError → Bool
is_callback_fail callback_fail = true
is_callback_fail _ = false

abbrev pub is_too_many_tags : QcborError → Bool
is_too_many_tags too_many_tags_error = true
is_too_many_tags _ = false

abbrev pub is_buffer_too_small : QcborError → Bool
is_buffer_too_small buffer_too_small = true
is_buffer_too_small _ = false

-- CBOR_TAG_COSE_SIGN1 and CBOR_TAG_INVALID64.
abbrev pub cbor_tag_cose_sign1 : ℕ
cbor_tag_cose_sign1 = 18

abbrev pub cbor_tag_invalid64 : ℕ
cbor_tag_invalid64 = 0xffffffffffffffff
