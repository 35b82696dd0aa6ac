-- ===== src/Parameters/Single.antt =====
-- Which header parameters are accepted, and what is then filled in.
use t_cose.Common.{
  ℕ, ◌+◌, ◌*◌, ◌^◌, ◌<◌, ℤ, pos, negsuc, eq_ℤ_iff, ◌≤ℤ◌, int32, ◌≡◌, ◌≢◌, refl, ap, subst, ◌↔◌, ◌⊎◌,
  Bool, true, false, arith, ok, >>=-ok_elim, Buf, is_null_ptr, is_null_or_empty, UsefulBuf,
}
use t_cose.Qcbor.{Item, type_int64, type_text_string}
use t_cose.Parameters.{
  CoseParameters, is_present, take_alg, take_string, take_content_type, take_parameters, alg_index,
  kid_index, iv_index, partial_iv_index, content_type_index, empty_uint_content_type, to_uint32,
}

-- The algorithm after an item: as before without one; with one, it is protected, not 0, not above
-- INT32_MAX, and cast to 32 bits.
abbrev pub AlgFrom : Bool → Item → ℤ → ℤ → Type 0
AlgFrom protected item old new =
    ((is_present item ≡ false) × (new ≡ old))
    ⊎ ((is_present item ≡ true)
        × (protected ≡ true)
        × (item.val_int64 ≢ pos 0)
        × (item.val_int64 ≤ℤ pos 0x7fffffff)
        × (new ≡ int32 item.val_int64))

-- A byte string after an item: as before without one; with one there was none before.
abbrev pub StringFrom : Item → Buf → Buf → Type 0
StringFrom item old new =
    ((is_present item ≡ false) × (new ≡ old))
    ⊎ ((is_present item ≡ true) × (is_null_ptr old ≡ true) × (new ≡ item.val_string))

take_string_iff :
    (u : UsefulBuf) (item : Item) (old new : Buf)
    → (take_string u item old ≡ ok new) ↔ StringFrom item old new
unfolding take_string
take_string_iff u item old new = ground (arith, u.is_null_lem old)

take_alg_iff :
    (protected : Bool) (item : Item) (p q : CoseParameters)
    → (take_alg protected item p ≡ ok q) ↔ (
        AlgFrom protected item p.cose_algorithm_id q.cose_algorithm_id
        × (q ≡ record p { cose_algorithm_id = q.cose_algorithm_id }))
unfolding take_alg
take_alg_iff protected item p q = ground (arith, eq_ℤ_iff item.val_int64 (pos 0))

-- The content type after an item: a text where there was none or an empty one, or a number of 16
-- bits where there was none. The two do not exclude one another.
abbrev pub ContentTypeFrom : Item → CoseParameters → CoseParameters → Type 0
ContentTypeFrom item p q =
    ((is_present item ≡ false) × (q ≡ p))
    ⊎ ((item.data_type ≡ type_text_string)
        × (is_null_or_empty p.content_type_tstr ≡ true)
        × (q ≡ record p { content_type_tstr = item.val_string }))
    ⊎ ((item.data_type ≡ type_int64)
        × (pos 0 ≤ℤ item.val_int64)
        × (item.val_int64 ≤ℤ pos 0xffff)
        × (p.content_type_uint ≡ empty_uint_content_type)
        × (q ≡ record p { content_type_uint = to_uint32 item.val_int64 }))

take_content_type_iff :
    (u : UsefulBuf) (item : Item) (p q : CoseParameters)
    → (take_content_type u item p ≡ ok q) ↔ ContentTypeFrom item p q
unfolding take_content_type
take_content_type_iff u item p q = ground (arith, u.null_or_empty_lem p.content_type_tstr)

-- All five at once.
pub record TakenFrom (protected : Bool) (items : ℕ → Item) (p q : CoseParameters) : Type 0 where
  pub alg : AlgFrom protected (items alg_index) p.cose_algorithm_id q.cose_algorithm_id
  pub kid : StringFrom (items kid_index) p.kid q.kid
  pub iv : StringFrom (items iv_index) p.iv q.iv
  pub partial_iv : StringFrom (items partial_iv_index) p.partial_iv q.partial_iv
  pub content_type :
      ContentTypeFrom
        (items content_type_index)
        (record q {
          content_type_tstr = p.content_type_tstr;
          content_type_uint = p.content_type_uint;
        })
        q

TakenFrom-of_parts :
    (protected : Bool) (items : ℕ → Item) (p q : CoseParameters) (alg : ℤ) (kid iv partial_iv : Buf)
    → AlgFrom protected (items alg_index) p.cose_algorithm_id alg
    → StringFrom (items kid_index) p.kid kid
    → StringFrom (items iv_index) p.iv iv
    → StringFrom (items partial_iv_index) p.partial_iv partial_iv
    → ContentTypeFrom
        (items content_type_index)
        (record p { cose_algorithm_id = alg; kid = kid; iv = iv; partial_iv = partial_iv })
        q
    → TakenFrom protected items p q
TakenFrom-of_parts protected items p q alg kid iv partial_iv a k v w c = record {
  alg = ground arith;
  kid = ground arith;
  iv = ground arith;
  partial_iv = ground arith;
  content_type = ground arith;
}

module _ (u : UsefulBuf) (protected : Bool) (items : ℕ → Item) (p q : CoseParameters) where
  -- The header parameters of a map are accepted exactly when each is absent or allowed: the
  -- algorithm only when protected, not 0 and not above INT32_MAX; kid, IV and partial IV only
  -- when not yet set; a text content type only when none is set, a number one only when none is
  -- set and within 16 bits. The accepted parameters are then those of the items, and the others
  -- are as they were.
  pub take_parameters_iff :
      (take_parameters u protected items p ≡ ok q) ↔ TakenFrom protected items p q
  unfolding take_parameters
  take_parameters_iff = (there, back)
    where
      there : take_parameters u protected items p ≡ ok q → TakenFrom protected items p q
      there h = >>=-ok_elim (take_alg protected (items alg_index) p) _ h λ p1 e1 h1.
          >>=-ok_elim (take_string u (items kid_index) p1.kid) _ h1 λ kid e2 h2.
            >>=-ok_elim (take_string u (items iv_index) p1.iv) _ h2 λ iv e3 h3.
              >>=-ok_elim (take_string u (items partial_iv_index) p1.partial_iv) _ h3 λ piv e4 h4.
                let a = (take_alg_iff protected (items alg_index) p p1).0 e1 in
                TakenFrom-of_parts protected items p q p1.cose_algorithm_id kid iv piv a.0
                  (rw (ap (λ (r : CoseParameters). r.kid) a.1) at
                    ((take_string_iff u _ p1.kid kid).0 e2))
                  (rw (ap (λ (r : CoseParameters). r.iv) a.1) at
                    ((take_string_iff u _ p1.iv iv).0 e3))
                  (rw (ap (λ (r : CoseParameters). r.partial_iv) a.1) at
                    ((take_string_iff u _ p1.partial_iv piv).0 e4))
                  (subst
                    (λ (r : CoseParameters).
                      ContentTypeFrom (items content_type_index)
                        (record r { kid = kid; iv = iv; partial_iv = piv }) q)
                    a.1 ((take_content_type_iff u _ _ q).0 h4))

      back : TakenFrom protected items p q → take_parameters u protected items p ≡ ok q
      back h =
          rw
            (
              (take_alg_iff protected (items alg_index) p
                    (record p { cose_algorithm_id = q.cose_algorithm_id })).1
                  (h.alg, refl),
              (take_string_iff u (items kid_index) p.kid q.kid).1 h.kid,
              (take_string_iff u (items iv_index) p.iv q.iv).1 h.iv,
              (take_string_iff u (items partial_iv_index) p.partial_iv q.partial_iv).1 h.partial_iv,
            )
            ((take_content_type_iff u (items content_type_index) _ q).1 h.content_type)

-- An algorithm identifier below INT32_MIN is not refused: with any multiple of 2^32 taken from it,
-- a protected -(n + 1) is taken for -(n + 1).
pub take_alg_wraps :
    (n k : ℕ) (item : Item) (p : CoseParameters)
    → n < 2 ^ 31
    → is_present item ≡ true
    → item.val_int64 ≡ negsuc (n + k * 2 ^ 32)
    → take_alg true item p ≡ ok (record p { cose_algorithm_id = negsuc n })
unfolding take_alg int32
take_alg_wraps n k item p small there v = rw (there, v) (ground arith)
