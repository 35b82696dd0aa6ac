-- ===== src/Psa/Status.antt =====
-- The two maps from the status of PSA to the errors of t_cose.
use t_cose.Common.{
  ◌≡◌, refl, false, inl, inr, Result, ok, err, fault, ◌>>=◌, ◌⊎◌, Err, ok-injective,
}
use t_cose.Psa.{
  PsaStatus, psa_status_to_t_cose_error_signing, psa_status_to_t_cose_error_hash, is_psa_success,
}

pub status-cases :
    (s : PsaStatus)
    → (s ≡ PsaStatus.success)
      ⊎ ((e : Err) × (is_psa_success s ≡ false) × (psa_status_to_t_cose_error_hash s ≡ err e))
unfolding psa_status_to_t_cose_error_hash
status-cases PsaStatus.success = inl refl
status-cases PsaStatus.invalid_signature = inr (_, refl, refl)
status-cases PsaStatus.not_supported = inr (_, refl, refl)
status-cases PsaStatus.no_memory = inr (_, refl, refl)
status-cases PsaStatus.corruption_detected = inr (_, refl, refl)
status-cases PsaStatus.invalid_argument = inr (_, refl, refl)
status-cases PsaStatus.buffer_too_small = inr (_, refl, refl)
status-cases (PsaStatus.other code) = inr (_, refl, refl)

pub ok-ne-fault : {A : Type 0} (a : A) → ok a ≡ fault → ⊥
ok-ne-fault a h = cc

pub err-ne-fault : {A : Type 0} (code : Err) (r : Result A) → r ≡ err code → r ≡ fault → ⊥
err-ne-fault code r e h = cc

pub error_signing-inside : (s : PsaStatus) → psa_status_to_t_cose_error_signing s ≡ fault → ⊥
unfolding psa_status_to_t_cose_error_signing
error_signing-inside PsaStatus.success h = cc
error_signing-inside PsaStatus.invalid_signature h = cc
error_signing-inside PsaStatus.not_supported h = cc
error_signing-inside PsaStatus.no_memory h = cc
error_signing-inside PsaStatus.corruption_detected h = cc
error_signing-inside PsaStatus.invalid_argument h = cc
error_signing-inside PsaStatus.buffer_too_small h = cc
error_signing-inside (PsaStatus.other code) h = cc

pub error_hash-inside :
    {A : Type 0} (s : PsaStatus) (a : A)
    → (psa_status_to_t_cose_error_hash s >>= λ done. ok a) ≡ fault
    → ⊥
unfolding psa_status_to_t_cose_error_hash
error_hash-inside s a h = elim (status-cases s) [
  | inl e ↦ ok-ne-fault a (rw e at h)
  | inr (code, f, e) ↦ err-ne-fault code _ (rw e refl) h
]

pub error_signing-ok :
    {A : Type 0} (s : PsaStatus) (a b : A)
    → ((psa_status_to_t_cose_error_signing s >>= λ done. ok a) ≡ ok b)
    → (s ≡ PsaStatus.success) × (a ≡ b)
unfolding psa_status_to_t_cose_error_signing
error_signing-ok PsaStatus.success a b h = (refl, ok-injective a b h)
error_signing-ok PsaStatus.invalid_signature a b h = absurd (cc)
error_signing-ok PsaStatus.not_supported a b h = absurd (cc)
error_signing-ok PsaStatus.no_memory a b h = absurd (cc)
error_signing-ok PsaStatus.corruption_detected a b h = absurd (cc)
error_signing-ok PsaStatus.invalid_argument a b h = absurd (cc)
error_signing-ok PsaStatus.buffer_too_small a b h = absurd (cc)
error_signing-ok (PsaStatus.other code) a b h = absurd (cc)
