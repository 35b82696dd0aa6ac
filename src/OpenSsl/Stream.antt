-- ===== src/OpenSsl/Stream.antt =====
-- The hash that create_tbs_hash() gets from the OpenSSL adapter.
use t_cose.Common.{
  ℕ, ◌≤◌, ◌≡◌, refl, ℤ, List, [], ◌∷◌, ◌++◌, append_assoc, append-nil, length, some, Buf, null,
  bytes, len, ok, UsefulBuf, eq_ℤ, pos, negsuc, false, arith,
}
use t_cose.Algorithm.{hash_alg_id_from_sig_alg_id, invalid_algorithm_id}
use t_cose.OpenSsl.{OpenSsl}
use t_cose.OpenSsl.Evp.{Evp}
use t_cose.OpenSsl.Digest.{
  OpensslHash, hash_nid, openssl_hash_start, openssl_hash_update, openssl_hash_finish,
  openssl_crypto,
}
use t_cose.Qcbor.Encoder.{Encoder, EncodesCbor, contents, encode_item, bstr, cbor_head}
use t_cose.Tbs.{context_string, create_tbs_hash, hash_bstr}
use t_cose.Tbs.Laws.{IsByteString, sig_structure_bytes, sig_structure_bytes-chunks}

-- What OpenSSL documents of a digest, with enough memory: a context holds the bytes that it was given,
-- and `digest` is their hash.
pub record Digests (v : Evp) : Type 1 where
  pub digest : v.Md → List ℕ → List ℕ
  pub Holds : v.MdCtx → v.Md → List ℕ → Type 0
  pub fresh : v.MdCtx
  pub new_lem : v.md_ctx_new ≡ some fresh
  pub started : v.Md → v.MdCtx
  pub init_lem : (md : v.Md) → v.digest_init fresh md ≡ some (started md)
  pub started-Holds : (md : v.Md) → Holds (started md) md []
  pub update_succeeds :
      (ctx : v.MdCtx) (md : v.Md) (held b : List ℕ)
      → Holds ctx md held
      → (v.digest_update ctx b).0 ≡ 1
  pub update-Holds :
      (ctx : v.MdCtx) (md : v.Md) (held b : List ℕ)
      → Holds ctx md held
      → Holds (v.digest_update ctx b).1 md (held ++ b)
  pub final_lem :
      (ctx : v.MdCtx) (md : v.Md) (held : List ℕ) (n : ℕ)
      → Holds ctx md held
      → length (digest md held) ≤ n
      → v.digest_final ctx n ≡ (1, digest md held)

module _ (v : Evp) (digests : Digests v) (md : v.Md) where
  -- The context of the adapter, without an error, over the bytes held.
  pub record HoldsBytes (h : OpensslHash v.MdCtx) (held : List ℕ) : Type 0 where
    pub no_error : h.update_error ≡ 1
    pub holds : digests.Holds h.evp_ctx md held

  pub openssl_hash_update-HoldsBytes :
      (h : OpensslHash v.MdCtx) (held : List ℕ) (b : Buf)
      → HoldsBytes h held
      → HoldsBytes (openssl_hash_update v h b) (held ++ contents b)
  unfolding openssl_hash_update
  openssl_hash_update-HoldsBytes h held (null n) w = rw (append-nil held) w
  openssl_hash_update-HoldsBytes h held (bytes b) w = rw w.no_error (record {
    no_error = digests.update_succeeds h.evp_ctx md held b w.holds;
    holds = digests.update-Holds h.evp_ctx md held b w.holds;
  })

  pub openssl_hash_finish-HoldsBytes :
      (h : OpensslHash v.MdCtx) (held : List ℕ) (n : ℕ)
      → HoldsBytes h held
      → length (digests.digest md held) ≤ n
      → openssl_hash_finish v h n ≡ ok (bytes (digests.digest md held))
  unfolding openssl_hash_finish
  openssl_hash_finish-HoldsBytes h held n w room =
      rw (w.no_error, digests.final_lem h.evp_ctx md held n w.holds room) refl

  openssl_hash_start-HoldsBytes :
      (id : ℤ) (nid : ℕ)
      → hash_nid v id ≡ ok nid
      → v.get_digestbynid nid ≡ some md
      → (h : OpensslHash v.MdCtx) × (openssl_hash_start v id ≡ ok h) × HoldsBytes h []
  unfolding openssl_hash_start
  openssl_hash_start-HoldsBytes id nid named known = (
    record { evp_ctx = digests.started md; update_error = 1; cose_hash_alg_id = id },
    rw (named, known, digests.new_lem, digests.init_lem md) refl,
    record { no_error = refl; holds = digests.started-Holds md },
  )

  hash_nid-known :
      (id : ℤ) (nid : ℕ) → hash_nid v id ≡ ok nid → eq_ℤ id invalid_algorithm_id ≡ false
  unfolding hash_nid
  hash_nid-known (pos k) nid h = ground arith
  hash_nid-known (negsuc k) nid h = refl

  module _ (o : OpenSsl) (u : UsefulBuf) (copy : ℕ → List ℕ → Buf) (e : Encoder)
      (cbor : EncodesCbor e) where
    hash_bstr-HoldsBytes :
        (h : OpensslHash v.MdCtx) (held : List ℕ) (b : Buf)
        → IsByteString b
        → HoldsBytes h held
        → HoldsBytes (hash_bstr (openssl_crypto v o u copy) e h b) (held ++ encode_item (bstr b))
    unfolding hash_bstr encode_item
    hash_bstr-HoldsBytes h held b plain w =
        rw
          (
            cbor.head_bytes 2 (len b) plain.1,
            ← append_assoc held (cbor_head 2 (len b)) (contents b),
          )
          (openssl_hash_update-HoldsBytes (openssl_hash_update v h (bytes (cbor_head 2 (len b))))
            (held ++ cbor_head 2 (len b)) b
            (openssl_hash_update-HoldsBytes h held (bytes (cbor_head 2 (len b))) w))

    -- With OpenSSL's digests as documented, create_tbs_hash() gives with the OpenSSL adapter, for an algorithm
    -- whose hash OpenSSL knows, the digest of the CBOR of the Sig_structure, if it fits the buffer.
    pub openssl-create_tbs_hash :
        (id : ℤ) (nid : ℕ) (p a q : Buf) (n : ℕ)
        → IsByteString p
        → IsByteString a
        → IsByteString q
        → hash_nid v (hash_alg_id_from_sig_alg_id id) ≡ ok nid
        → v.get_digestbynid nid ≡ some md
        → length (digests.digest md (sig_structure_bytes p a q)) ≤ n
        → create_tbs_hash (openssl_crypto v o u copy) e id p a q n
          ≡ ok (bytes (digests.digest md (sig_structure_bytes p a q)))
    unfolding create_tbs_hash
    openssl-create_tbs_hash id nid p a q n hp ha hq named known room =
        let (start, same, w0) =
          openssl_hash_start-HoldsBytes (hash_alg_id_from_sig_alg_id id) nid named known in
        let w1 =
          openssl_hash_update-HoldsBytes start [] (bytes (0x84 ∷ 0x6a ∷ context_string)) w0 in
        let w2 = hash_bstr-HoldsBytes _ _ p hp w1 in
        let w3 = hash_bstr-HoldsBytes _ _ a ha w2 in
        let w4 = hash_bstr-HoldsBytes _ _ q hq w3 in
        rw (hash_nid-known (hash_alg_id_from_sig_alg_id id) nid named, same)
          (openssl_hash_finish-HoldsBytes _ (sig_structure_bytes p a q) n
            (rw (← sig_structure_bytes-chunks p a q) w4) room)
