-- ===== src/Psa/Hash.antt =====
-- The functions for hashes of the PSA adapter, called in order.
use t_cose.Common.{
  ℕ, ◌≡◌, refl, ap, inl, inr, ℤ, List, [], ◌∷◌, Buf, null, bytes, Result, ok, ◌>>=◌, ◌∙◌,
}
use t_cose.Psa.{
  Psa, PsaStatus, PsaHash, psa_status_to_t_cose_error_hash, cose_hash_alg_id_to_psa, psa_hash_start,
  psa_hash_update, psa_hash_finish,
}
use t_cose.Psa.Status.{status-cases}

-- An operation of PSA, then the next one if it succeeded.
abbrev after {ℓ} : {A : Type ℓ} → PsaStatus × A → (A → Result Buf) → Result Buf
after (status, a) next = psa_status_to_t_cose_error_hash status >>= λ done. next a

-- The hash of parts by PSA, given up at the first operation that fails.
abbrev pub hash_parts : (p : Psa) → p.Operation → List Buf → ℕ → Result Buf
hash_parts p o [] n = after (p.hash_finish o n) λ hash. ok (bytes hash)
hash_parts p o (null m ∷ parts) n = hash_parts p o parts n
hash_parts p o (bytes b ∷ parts) n = after (p.hash_update o b) λ o. hash_parts p o parts n

abbrev pub hash_in_parts : Psa → ℤ → List Buf → ℕ → Result Buf
hash_in_parts p id parts n =
    after (p.hash_setup (cose_hash_alg_id_to_psa p id)) λ o. hash_parts p o parts n

-- The calls of the adapter for the same parts.
abbrev pub psa_hash_updates : (p : Psa) → PsaHash p.Operation → List Buf → PsaHash p.Operation
psa_hash_updates p h [] = h
psa_hash_updates p h (part ∷ parts) = psa_hash_updates p (psa_hash_update p h part) parts

module _ (p : Psa) where
  updates-state :
      (status : PsaStatus) (o : p.Operation) (parts : List Buf) (n : ℕ)
      → psa_hash_finish p (psa_hash_updates p (record { ctx = o; status = status }) parts) n
        ≡ (psa_status_to_t_cose_error_hash status >>= λ done. hash_parts p o parts n)
  unfolding psa_hash_update psa_hash_finish psa_status_to_t_cose_error_hash
  updates-state status o [] n = elim (status-cases status) [
    | inl h ↦ rw h refl
    | inr (e, f, h) ↦ rw (f, h) refl
  ]
  updates-state status o (null m ∷ parts) n = updates-state status o parts n
  updates-state status o (bytes b ∷ parts) n = elim (status-cases status) [
    | inl h ↦ rw h (updates-state (p.hash_update o b).0 (p.hash_update o b).1 parts n)
    | inr (e, f, h) ↦
        ap (λ state. psa_hash_finish p (psa_hash_updates p state parts) n) (rw f refl)
        ∙ updates-state status o parts n
        ∙ rw h refl
  ]

  -- The hash that t_cose_crypto_hash_start(), t_cose_crypto_hash_update() for each part and
  -- t_cose_crypto_hash_finish() make is PSA's hash of the parts that are not NULL, and the error is that
  -- of the first operation of PSA that failed.
  pub hash_finish-hash_in_parts :
      (id : ℤ) (parts : List Buf) (n : ℕ)
      → (psa_hash_start p id >>= λ h. psa_hash_finish p (psa_hash_updates p h parts) n)
        ≡ hash_in_parts p id parts n
  unfolding psa_hash_start psa_hash_update psa_hash_finish psa_status_to_t_cose_error_hash
  hash_finish-hash_in_parts id parts n =
      let started = p.hash_setup (cose_hash_alg_id_to_psa p id) in
      elim (status-cases started.0) [
        | inl h ↦ rw h (updates-state PsaStatus.success started.1 parts n)
        | inr (e, f, h) ↦ rw h refl
      ]
