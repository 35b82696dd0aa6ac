-- ===== src/Examples/Models.antt =====
-- Small instances of the interfaces: UsefulBuf, a decoder that plays back what it is given, an encoder of
-- arrays of strings, and a toy cryptographic library.
use t_cose.Common.{
  ℕ, ◌+◌, ◌==◌, ltb, lt→ltb, le→ltb, ◌≡◌, refl, ap, sym, ◌↔◌, Bool, true, false, ◌&&◌, ℤ, pos, eq_ℤ,
  List, [], ◌∷◌, ◌++◌, map, append_assoc, append-nil, length, take, replicate, get_or,
  if◌then◌else◌, arith, Buf, null, null_buf, bytes, len, is_null_ptr, is_null_or_empty, UsefulBuf,
  ok, err, sig_verify, ok-injective,
}
use t_cose.Crypto.{Crypto, Key, HashesStream, lib_psa}
use t_cose.Roundtrip.{Accepts}
use t_cose.Verify.Message.Safety.{StaysInside}
use t_cose.Qcbor.{
  Item, QcborError, qcbor_success, buffer_too_small, other_error, callback_fail,
  too_many_tags_error, label_not_found, no_more_items, is_success, is_callback_fail,
  cbor_tag_invalid64,
}
use t_cose.Qcbor.Decoder.{Decoder, CallsBack, visit}
use t_cose.Qcbor.Encoder.{
  Encoder, EncodesCbor, EncodeCall, StringItem, text, bstr, encode_array, cbor_head, contents,
  array_size, add_item, add_sz_string, add_bytes, close_array,
}

abbrev eq_bytes : List ℕ → List ℕ → Bool
eq_bytes [] [] = true
eq_bytes [] (y ∷ ys) = false
eq_bytes (x ∷ xs) [] = false
eq_bytes (x ∷ xs) (y ∷ ys) = x == y && eq_bytes xs ys

eq_bytes_iff : (xs ys : List ℕ) → (eq_bytes xs ys ≡ true) ↔ (xs ≡ ys)
eq_bytes_iff [] [] = ground arith
eq_bytes_iff [] (y ∷ ys) = ground arith
eq_bytes_iff (x ∷ xs) [] = ground arith
eq_bytes_iff (x ∷ xs) (y ∷ ys) = ground (arith, eq_bytes_iff xs ys)

abbrev plain_compare : Buf → Buf → ℤ
plain_compare a b = if len a == len b && eq_bytes (contents a) (contents b) then pos 0 else pos 1

pub plain_compare_iff : (a b : List ℕ) → (plain_compare (bytes a) (bytes b) ≡ pos 0) ↔ (a ≡ b)
plain_compare_iff a b =
    (λ h. ground (arith, eq_bytes_iff a b), λ h. ground (arith, eq_bytes_iff a b))

abbrev plain_head : Buf → ℕ → Buf
plain_head b n = if ltb (len b) n then null_buf else bytes (take n (contents b))

abbrev pub plain_useful_buf : UsefulBuf
plain_useful_buf = record {
  is_null = is_null_ptr;
  is_null_lem = λ b. refl;
  null_or_empty = is_null_or_empty;
  null_or_empty_lem = λ b. refl;
  compare = plain_compare;
  compare_bytes = plain_compare_iff;
  compare_len = λ a b h. ground arith;
  head = plain_head;
  head_bytes = λ n b h. rw (le→ltb (length b) n h) refl;
  head_short = λ n b h. rw (lt→ltb (len b) n h) refl;
}

-- What a decoder gives back at each step.
pub record Script : Type 0 where
  pub asked : ℕ → ℕ → Item
  pub unasked : ℕ → List Item
  pub next : ℕ → QcborError × Item
  pub strings : ℕ → Buf
  pub tags : List ℕ

-- The error of a decoder, and the number of steps so far.
abbrev pub played : Script → Decoder
played s = record {
  Ctx = QcborError × ℕ;
  init = λ b. (qcbor_success, 0);
  enter_array = λ c. (c.0, c.1 + 1);
  exit_array = λ c. (c.0, c.1 + 1);
  enter_map = λ c. (c.0, c.1 + 1);
  exit_map = λ c. (c.0, c.1 + 1);
  enter_bstr_wrapped = λ c. ((c.0, c.1 + 1), s.strings c.1);
  exit_bstr_wrapped = λ c. (c.0, c.1 + 1);
  enter_array_from_map = λ l c. (c.0, c.1 + 1);
  get_items_in_map_with_callback = λ S callback c queries start.
      let r = visit callback start (s.unasked c.1) in (s.asked c.1, r.1, (r.0, c.1 + 1));
  get_next = λ c. ((s.next c.1).0, (s.next c.1).1, (c.0, c.1 + 1));
  get_byte_string = λ c. (s.strings c.1, (c.0, c.1 + 1));
  get_error = λ c. c.0;
  get_and_reset_error = λ c. ((s.next c.1).0, (qcbor_success, c.1));
  get_nth_tag_of_last = λ c n. get_or s.tags n cbor_tag_invalid64;
  finish = λ c. c.0;
  is_not_well_formed_error = λ x. false;
}

callback_fail-failure : (x : QcborError) → is_callback_fail x ≡ true → is_success x ≡ false
callback_fail-failure qcbor_success h = cc
callback_fail-failure callback_fail h = refl
callback_fail-failure buffer_too_small h = refl
callback_fail-failure too_many_tags_error h = refl
callback_fail-failure label_not_found h = refl
callback_fail-failure no_more_items h = refl
callback_fail-failure (other_error n) h = refl

pub played-CallsBack : (s : Script) → CallsBack (played s)
played-CallsBack s = record {
  unasked = λ c queries. s.unasked c.1;
  in_order = λ S callback c queries start. refl;
  failure_is_error = λ S callback c queries start h. h;
  callback_fail_is_failure = λ S callback c queries start h. callback_fail-failure _ h;
}

-- The strings among the calls.
abbrev strings_of : List EncodeCall → List StringItem
strings_of [] = []
strings_of (add_sz_string s ∷ calls) = text s ∷ strings_of calls
strings_of (add_bytes b ∷ calls) = bstr b ∷ strings_of calls
strings_of (_ ∷ calls) = strings_of calls

strings_of-items :
    (items : List StringItem) → strings_of (map add_item items ++ (close_array ∷ [])) ≡ items
strings_of-items [] = refl
strings_of-items (text s ∷ items) =
    ap (λ (r : List StringItem). text s ∷ r) (strings_of-items items)
strings_of-items (bstr b ∷ items) =
    ap (λ (r : List StringItem). bstr b ∷ r) (strings_of-items items)

abbrev into : Buf → List StringItem → Buf
into (null n) items = null (array_size items)
into (bytes b) items = bytes (encode_array items)

abbrev needed : Buf → List StringItem → ℕ
needed (null n) items = array_size items
needed (bytes b) items = length (encode_array items)

abbrev strings_error : Buf → List StringItem → QcborError
strings_error b items = if ltb (len b) (needed b items) then buffer_too_small else qcbor_success

-- An encoder of one array of strings. The other calls add nothing to its output.
abbrev pub strings_encoder : Encoder
strings_encoder = record {
  get_error_state = λ ctx. qcbor_success;
  finish_error = λ ctx. strings_error ctx.out (strings_of ctx.calls);
  finish_result = λ ctx. into ctx.out (strings_of ctx.calls);
  wrapped_bstr = λ ctx. bytes (0xa1 ∷ 0x01 ∷ 0x26 ∷ []);
  opened_bytes = λ ctx. bytes (replicate 64 0);
  encode_head = λ size major min_len n. bytes (cbor_head major n);
  head_buffer_size = 9;
}

pub strings_encoder-EncodesCbor : EncodesCbor strings_encoder
strings_encoder-EncodesCbor = record {
  head_bytes = λ major n h. refl;
  array_fits = λ items space p h.
      rw (strings_of-items items)
        (rw (le→ltb (length space) (length (encode_array items)) h) refl, refl);
  array_too_long = λ items space p h.
      rw (strings_of-items items, lt→ltb (length space) (length (encode_array items)) h) refl;
  array_sized =
      λ items n h. rw (strings_of-items items) (rw (le→ltb n (array_size items) h) refl, refl);
}

abbrev pub same_bytes : Buf → Buf → Bool
same_bytes a b = eq_ℤ (plain_compare a b) (pos 0)

-- The hash of this library is the first 32 bytes of the stream, and a signature is the hash itself.
abbrev pub toy_crypto : Crypto
toy_crypto = record {
  HashCtx = List ℕ;
  is_algorithm_supported = λ id. true;
  hash_start = λ id. ok [];
  hash_update = λ h b. h ++ contents b;
  hash_finish = λ h n. ok (bytes (take 32 h));
  sig_size = λ id key. ok 32;
  sign = λ id key hash buffer. ok hash;
  sign_eddsa = λ key tbs buffer. ok tbs;
  verify = λ id key kid hash signature. if same_bytes hash signature then ok tt else err sig_verify;
  verify_eddsa =
      λ key kid tbs signature. if same_bytes tbs signature then ok tt else err sig_verify;
}

pub toy_crypto-HashesStream : HashesStream toy_crypto
toy_crypto-HashesStream = record {
  update-append = λ h a b. append_assoc h a b;
  update-null = λ h n. append-nil h;
}

abbrev pub toy_key : Key
toy_key = record { crypto_lib = lib_psa; handle = 7 }

pub same_bytes_refl : (b : Buf) → same_bytes b b ≡ true
same_bytes_refl b = ground (arith, (eq_bytes_iff (contents b) (contents b)).1 refl)

pub toy_crypto-Accepts : Accepts toy_crypto toy_key toy_key
toy_crypto-Accepts = record {
  verify-sign =
      λ id kid hash signature space h. rw (sym (ok-injective _ _ h), same_bytes_refl hash) refl;
  verify_eddsa-sign_eddsa =
      λ kid tbs signature space h. rw (sym (ok-injective _ _ h), same_bytes_refl tbs) refl;
}

pub toy_crypto-StaysInside : StaysInside toy_crypto
toy_crypto-StaysInside = record {
  start_inside = λ id h. cc;
  finish_inside = λ s n h. cc;
  verify_inside = λ id k kid hash signature h. ground arith;
  verify_eddsa_inside = λ k kid tbs signature h. ground arith;
}
