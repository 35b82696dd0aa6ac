-- ===== src/Tbs/Laws.antt =====
-- create_tbs() and create_tbs_hash() cover the same bytes, the CBOR of the Sig_structure.
use t_cose.Common.{
  ℕ, ◌<◌, ◌≤◌, ◌^◌, ltb, ltb→le, ltb→lt, ◌≡◌, refl, sym, ap, ◌∙◌, inl, inr, ℤ, eq_ℤ, List, [], ◌∷◌,
  ◌++◌, append_assoc, append-nil, if◌then◌else◌, Bool-cases, length, Buf, null, bytes, len, ok, err,
  ◌>>=◌, ◌>>◌, fail_if, too_small, unsupported_signing_alg, arith,
}
use t_cose.Algorithm.{hash_alg_id_from_sig_alg_id, invalid_algorithm_id}
use t_cose.Qcbor.Encoder.{
  Encoder, EncodesCbor, StringItem, text, bstr, IsPlain, encode_array, encode_item, encode_items,
  cbor_head, big_endian, array_size, items_size, item_size, length-encode_array,
}
use t_cose.Crypto.{Crypto, HashesStream, HashesChunks, HashesStream-chunks}
use t_cose.Tbs.{context_string, create_tbs, hash_bstr, create_tbs_hash}

-- Sig_structure of RFC 8152, section 4.4, for COSE_Sign1.
abbrev pub sig_structure : Buf → Buf → Buf → List StringItem
sig_structure protected_parameters aad payload =
    text context_string ∷ bstr protected_parameters ∷ bstr aad ∷ bstr payload ∷ []

abbrev pub sig_structure_bytes : Buf → Buf → Buf → List ℕ
sig_structure_bytes protected_parameters aad payload =
    encode_array (sig_structure protected_parameters aad payload)

-- The first chunk that is hashed is the head of the array and the context string.
pub sig_structure_bytes-chunks :
    (p a q : Buf)
    → ((0x84 ∷ 0x6a ∷ context_string) ++ encode_item (bstr p))
        ++ encode_item (bstr a)
        ++ encode_item (bstr q)
      ≡ sig_structure_bytes p a q
unfolding encode_array encode_items encode_item cbor_head
sig_structure_bytes-chunks p a q = simp (append_assoc, append-nil)

length-cbor_head : (major n : ℕ) → length (cbor_head major n) ≤ 9
unfolding cbor_head big_endian
length-cbor_head major n = ground arith

-- A buffer whose bytes are there, of a length that CBOR can state.
abbrev pub IsByteString : Buf → Type 0
IsByteString b = IsPlain (bstr b) × (len b < 2 ^ 64)

-- Without a buffer only the length is computed, from the lengths of the parts.
pub create_tbs_sized :
    (e : Encoder) (cbor : EncodesCbor e) (p a q : Buf) (n : ℕ)
    → array_size (sig_structure p a q) ≤ n
    → create_tbs e p a q (null n) ≡ ok (null (array_size (sig_structure p a q)))
unfolding create_tbs
create_tbs_sized e cbor p a q n fits =
    let (good, result) = cbor.array_sized (sig_structure p a q) n fits in rw good (ap ok result)

pub sig_structure-sizes :
    (p a q p' q' : Buf)
    → len p ≡ len p'
    → len q ≡ len q'
    → array_size (sig_structure p a q) ≡ array_size (sig_structure p' a q')
unfolding array_size items_size item_size
sig_structure-sizes p a q p' q' hp hq = rw (hp, hq) refl

module _ (e : Encoder) (cbor : EncodesCbor e) (p a q : Buf) (hp : IsByteString p)
    (ha : IsByteString a) (hq : IsByteString q) where
  -- With QCBOR's encoder as documented, and for parts whose bytes are there and whose length CBOR can
  -- state, encoding into a buffer gives the CBOR of the Sig_structure, or T_COSE_ERR_TOO_SMALL exactly
  -- when it does not fit.
  pub create_tbs_lem :
      (space : List ℕ)
      → create_tbs e p a q (bytes space) ≡ (
          if ltb (length space) (length (sig_structure_bytes p a q))
          then err too_small
          else ok (bytes (sig_structure_bytes p a q)))
  unfolding create_tbs
  create_tbs_lem space =
      let items = sig_structure p a q in
      elim (Bool-cases (ltb (length space) (length (sig_structure_bytes p a q)))) [
        | inl long ↦
            rw
              (
                long,
                cbor.array_too_long items space (tt, (hp.0, (ha.0, (hq.0, tt)))) (ltb→lt _ _ long),
              )
              refl
        | inr fits ↦
            let (good, result) =
              cbor.array_fits items space (tt, (hp.0, (ha.0, (hq.0, tt)))) (ltb→le _ _ fits) in
            rw (fits, good) (ap ok result)
      ]

  pub length-sig_structure_bytes :
      length (sig_structure_bytes p a q) ≡ array_size (sig_structure p a q)
  length-sig_structure_bytes =
      length-encode_array (sig_structure p a q) (tt, (hp.0, (ha.0, (hq.0, tt))))

  -- For an adapter that takes chunks below a limit.
  module _ (c : Crypto) (limit : ℕ) (stream : HashesChunks c limit) (some_room : 16 ≤ limit) where
    hash_bstr_lem :
        (h : c.HashCtx) (b : Buf)
        → IsByteString b
        → len b < limit
        → hash_bstr c e h b ≡ stream.absorb h (encode_item (bstr b))
    unfolding hash_bstr encode_item
    hash_bstr_lem h (null n) w l =
        let head = stream.update-absorb h (cbor_head 2 n) (omega (arith, length-cbor_head 2 n)) in
        ap (λ (x : Buf). c.hash_update (c.hash_update h x) (null n)) (cbor.head_bytes 2 n w.1)
        ∙ stream.update-null _ n
        ∙ head
        ∙ ap (stream.absorb h) (sym (append-nil (cbor_head 2 n)))
    hash_bstr_lem h (bytes b) w l =
        let front = cbor_head 2 (length b) in
        let head = stream.update-absorb h front (omega (arith, length-cbor_head 2 (length b))) in
        ap (λ (x : Buf). c.hash_update (c.hash_update h x) (bytes b))
          (cbor.head_bytes 2 (length b) w.1)
        ∙ stream.update-absorb _ b l
        ∙ ap (λ x. stream.absorb x b) head
        ∙ stream.absorb-append h front b

    pub create_tbs_hash_chunks :
        (id : ℤ) (n : ℕ)
        → len p < limit
        → len a < limit
        → len q < limit
        → create_tbs_hash c e id p a q n ≡ (
            fail_if
              (eq_ℤ (hash_alg_id_from_sig_alg_id id) invalid_algorithm_id)
              unsupported_signing_alg
            >> (c.hash_start (hash_alg_id_from_sig_alg_id id) >>= λ h.
                c.hash_finish (stream.absorb h (sig_structure_bytes p a q)) n))
    unfolding create_tbs_hash
    create_tbs_hash_chunks id n lp la lq = simp (
      stream.update-absorb _ (0x84 ∷ 0x6a ∷ context_string) (omega arith),
      hash_bstr_lem _ p hp lp,
      hash_bstr_lem _ a ha la,
      hash_bstr_lem _ q hq lq,
      stream.absorb-append,
      sig_structure_bytes-chunks p a q,
    )

  module _ (c : Crypto) (stream : HashesStream c) where
    -- With QCBOR's encoder and the hash of a stream as documented, and for parts whose bytes are there
    -- and whose length CBOR can state, hashing in pieces gives the hash of the CBOR of the
    -- Sig_structure, and fails as starting or finishing that hash does, or for an algorithm without one.
    pub create_tbs_hash_lem :
        (id : ℤ) (n : ℕ)
        → create_tbs_hash c e id p a q n ≡ (
            fail_if
              (eq_ℤ (hash_alg_id_from_sig_alg_id id) invalid_algorithm_id)
              unsupported_signing_alg
            >> (c.hash_start (hash_alg_id_from_sig_alg_id id) >>= λ h.
                c.hash_finish (c.hash_update h (bytes (sig_structure_bytes p a q))) n))
    create_tbs_hash_lem id n =
        create_tbs_hash_chunks c (2 ^ 64) (HashesStream-chunks c (2 ^ 64) stream) (omega arith) id n
          hp.1 ha.1 hq.1
