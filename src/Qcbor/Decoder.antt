-- ===== src/Qcbor/Decoder.antt =====
-- The decoder of QCBOR: the calls that src/t_cose_parameters.c and src/t_cose_sign1_verify.c make,
-- over a context that only QCBOR looks into.
use t_cose.Common.{ℕ, ℤ, Bool, true, false, List, [], ◌∷◌, Buf, ◌≡◌, if◌then◌else◌}
use t_cose.Qcbor.{QcborType, QcborError, qcbor_success, is_success, is_callback_fail, Item}

-- One entry of the array that QCBORDecode_GetItemsInMapWithCallback() is given.
pub record Query : Type 0 where
  pub query_label : ℤ
  pub query_type : QcborType

pub record Decoder : Type 1 where
  pub Ctx : Type 0
  pub init : Buf → Ctx
  pub enter_array : Ctx → Ctx
  pub exit_array : Ctx → Ctx
  pub enter_map : Ctx → Ctx
  pub exit_map : Ctx → Ctx
  pub enter_bstr_wrapped : Ctx → Ctx × Buf
  pub exit_bstr_wrapped : Ctx → Ctx
  pub enter_array_from_map : ℤ → Ctx → Ctx
  -- QCBORDecode_GetItemsInMapWithCallback() for a callback that keeps an S: it fills in the array
  -- of items, the i-th of which answers the i-th query, and calls back for the other items.
  pub get_items_in_map_with_callback :
      (S : Type 0) → (S → Item → QcborError × S) → Ctx → List Query → S → (ℕ → Item) × S × Ctx
  pub get_next : Ctx → QcborError × Item × Ctx
  pub get_byte_string : Ctx → Buf × Ctx
  pub get_error : Ctx → QcborError
  pub get_and_reset_error : Ctx → QcborError × Ctx
  pub get_nth_tag_of_last : Ctx → ℕ → ℕ
  pub finish : Ctx → QcborError
  pub is_not_well_formed_error : QcborError → Bool

-- The calls of a callback for items, one by one until one fails.
unfoldable pub visit : {S : Type 0} → (S → Item → QcborError × S) → S → List Item → QcborError × S
visit callback s [] = (qcbor_success, s)
visit callback s (item ∷ items) =
    let (result, s') = callback s item in
    let rest = visit callback s' items in if is_success result then rest else (result, s')

-- What QCBOR documents of the callback: it is called for items that no query asks for, in the order
-- of the map, until it fails; its failure is the decoder's error; and QCBOR_ERR_CALLBACK_FAIL is
-- left to callbacks.
pub record CallsBack (d : Decoder) : Type 1 where
  pub unasked : d.Ctx → List Query → List Item
  pub in_order :
      (S : Type 0) (callback : S → Item → QcborError × S) (ctx : d.Ctx) (queries : List Query)
      (s : S)
      → (d.get_items_in_map_with_callback S callback ctx queries s).1
        ≡ (visit callback s (unasked ctx queries)).1
  pub failure_is_error :
      (S : Type 0) (callback : S → Item → QcborError × S) (ctx : d.Ctx) (queries : List Query)
      (s : S)
      → is_success (visit callback s (unasked ctx queries)).0 ≡ false
      → is_success (d.get_error (d.get_items_in_map_with_callback S callback ctx queries s).2)
        ≡ false
  pub callback_fail_is_failure :
      (S : Type 0) (callback : S → Item → QcborError × S) (ctx : d.Ctx) (queries : List Query)
      (s : S)
      → is_callback_fail (d.get_error (d.get_items_in_map_with_callback S callback ctx queries s).2)
        ≡ true
      → is_success (visit callback s (unasked ctx queries)).0 ≡ false
