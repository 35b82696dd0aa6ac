-- ===== src/Qcbor/Encoder.antt =====
-- The encoder of QCBOR. Its context is the output buffer and the calls made so far, in order: what
-- QCBOR gives back at any time is a function of these.
use t_cose.Common.{
  ℕ, zero, suc, map, ◌+◌, ◌*◌, ◌/◌, ◌%◌, ◌^◌, ◌≤◌, ◌<◌, ltb, ℤ, Bool, List, [], ◌∷◌, ◌++◌, length,
  length-append, arith, refl, if◌then◌else◌, Buf, null, bytes, len, ◌≡◌,
}
use t_cose.Qcbor.{QcborError, qcbor_success, buffer_too_small}

pub data EncodeCall : Type 0 where
  add_tag : ℕ → EncodeCall
  open_array close_array open_map close_map bstr_wrap add_null open_bytes : EncodeCall
  close_bstr_wrap : Bool → EncodeCall
  add_int64_to_map : ℤ → ℤ → EncodeCall
  add_uint64_to_map : ℤ → ℕ → EncodeCall
  add_bytes_to_map : ℤ → Buf → EncodeCall
  add_sz_string_to_map : ℤ → List ℕ → EncodeCall
  -- QCBOREncode_AddSZStringToMap() and its like, whose labels are text.
  add_sz_string_to_text_map : List ℕ → List ℕ → EncodeCall
  add_int64_to_text_map : List ℕ → ℤ → EncodeCall
  add_bool_to_text_map : List ℕ → Bool → EncodeCall
  add_sz_string : List ℕ → EncodeCall
  add_bytes : Buf → EncodeCall
  add_encoded : Buf → EncodeCall
  -- Bytes that the caller writes into the space that open_bytes gave it.
  write_bytes : Buf → EncodeCall
  close_bytes : ℕ → EncodeCall

pub record EncodeCtx : Type 0 where
  pub out : Buf
  pub calls : List EncodeCall

-- QCBOREncode_Init()
abbrev pub encode_init : Buf → EncodeCtx
encode_init buffer = record { out = buffer; calls = [] }

-- One call more.
infixl 20 ◌▷◌
abbrev pub ◌▷◌ : EncodeCtx → EncodeCall → EncodeCtx
ctx ▷ call = record ctx { calls = ctx.calls ++ (call ∷ []) }

pub record Encoder : Type 0 where
  -- QCBOREncode_GetErrorState(), and the two results of QCBOREncode_Finish().
  pub get_error_state : EncodeCtx → QcborError
  pub finish_error : EncodeCtx → QcborError
  pub finish_result : EncodeCtx → Buf
  -- The output of QCBOREncode_CloseBstrWrap2() and of QCBOREncode_OpenBytes(), just after the call.
  pub wrapped_bstr : EncodeCtx → Buf
  pub opened_bytes : EncodeCtx → Buf
  -- QCBOREncode_EncodeHead() with a buffer of so many bytes, and QCBOR_HEAD_BUFFER_SIZE.
  pub encode_head : ℕ → ℕ → ℕ → ℕ → Buf
  pub head_buffer_size : ℕ

-- n bytes of v, the most significant first.
unfoldable pub big_endian : ℕ → ℕ → List ℕ
big_endian zero v = []
big_endian (suc n) v = v / 256 ^ n % 256 ∷ big_endian n v

-- The head of a CBOR item in RFC 8949: the major type and the argument.
unfoldable pub cbor_head : ℕ → ℕ → List ℕ
cbor_head major n =
    if ltb n 24
    then (major * 32 + n) ∷ []
    else if ltb n (2 ^ 8)
    then (major * 32 + 24) ∷ big_endian 1 n
    else if ltb n (2 ^ 16)
    then (major * 32 + 25) ∷ big_endian 2 n
    else if ltb n (2 ^ 32)
    then (major * 32 + 26) ∷ big_endian 4 n
    else (major * 32 + 27) ∷ big_endian 8 n

-- The bytes of a buffer.
abbrev pub contents : Buf → List ℕ
contents (null n) = []
contents (bytes b) = b

-- A text or byte string that is an item of an array.
pub data StringItem : Type 0 where
  text : List ℕ → StringItem
  bstr : Buf → StringItem

-- The bytes of the item are there: a NULL buffer has length 0.
abbrev pub IsPlain : StringItem → Type 0
IsPlain (text s) = Unit
IsPlain (bstr b) = len b ≡ length (contents b)

abbrev pub ArePlain : List StringItem → Type 0
ArePlain [] = Unit
ArePlain (i ∷ is) = IsPlain i × ArePlain is

unfoldable pub encode_item : StringItem → List ℕ
encode_item (text s) = cbor_head 3 (length s) ++ s
encode_item (bstr b) = cbor_head 2 (len b) ++ contents b

unfoldable pub encode_items : List StringItem → List ℕ
encode_items [] = []
encode_items (i ∷ is) = encode_item i ++ encode_items is

-- The array of the items in CBOR.
unfoldable pub encode_array : List StringItem → List ℕ
encode_array items = cbor_head 4 (length items) ++ encode_items items

-- Its length, for which only the lengths of the byte strings count.
unfoldable pub item_size : StringItem → ℕ
item_size (text s) = length (cbor_head 3 (length s)) + length s
item_size (bstr b) = length (cbor_head 2 (len b)) + len b

unfoldable pub items_size : List StringItem → ℕ
items_size [] = 0
items_size (i ∷ is) = item_size i + items_size is

unfoldable pub array_size : List StringItem → ℕ
array_size items = length (cbor_head 4 (length items)) + items_size items

length-encode_item : (i : StringItem) → IsPlain i → length (encode_item i) ≡ item_size i
unfolding encode_item item_size
length-encode_item (text s) h = length-append (cbor_head 3 (length s)) s
length-encode_item (bstr b) h = omega (arith, length-append (cbor_head 2 (len b)) (contents b), h)

length-encode_items :
    (is : List StringItem) → ArePlain is → length (encode_items is) ≡ items_size is
unfolding encode_items items_size
length-encode_items [] h = refl
length-encode_items (i ∷ is) h = omega (
  arith,
  length-append (encode_item i) (encode_items is),
  length-encode_item i h.0,
  length-encode_items is h.1,
)

pub length-encode_array :
    (items : List StringItem) → ArePlain items → length (encode_array items) ≡ array_size items
unfolding encode_array array_size
length-encode_array items h = omega (
  arith,
  length-append (cbor_head 4 (length items)) (encode_items items),
  length-encode_items items h,
)

abbrev pub add_item : StringItem → EncodeCall
add_item (text s) = add_sz_string s
add_item (bstr b) = add_bytes b

-- The calls that encode the array.
abbrev pub array_calls : List StringItem → List EncodeCall
array_calls items = open_array ∷ (map add_item items ++ (close_array ∷ []))

-- What QCBOR documents of its output: it is CBOR, it is refused when it does not fit the buffer, and
-- without a buffer only its size is computed.
pub record EncodesCbor (e : Encoder) : Type 0 where
  pub head_bytes :
      (major n : ℕ)
      → n < 2 ^ 64
      → e.encode_head e.head_buffer_size major 0 n ≡ bytes (cbor_head major n)
  pub array_fits :
      (items : List StringItem) (space : List ℕ)
      → ArePlain items
      → length (encode_array items) ≤ length space
      → (e.finish_error (record { out = bytes space; calls = array_calls items }) ≡ qcbor_success)
        × (e.finish_result (record { out = bytes space; calls = array_calls items })
            ≡ bytes (encode_array items))
  pub array_too_long :
      (items : List StringItem) (space : List ℕ)
      → ArePlain items
      → length space < length (encode_array items)
      → e.finish_error (record { out = bytes space; calls = array_calls items }) ≡ buffer_too_small
  pub array_sized :
      (items : List StringItem) (n : ℕ)
      → array_size items ≤ n
      → (e.finish_error (record { out = null n; calls = array_calls items }) ≡ qcbor_success)
        × (e.finish_result (record { out = null n; calls = array_calls items })
            ≡ null (array_size items))
