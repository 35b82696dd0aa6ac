-- ===== src/Common/Outcome.antt =====
-- `enum t_cose_err_t`, and the outcome of a call that returns it.
use mathlib.Core.Path.{◌≡◌, refl}
use mathlib.Core.Bool.{Bool, true, false}

-- The error codes. `T_COSE_SUCCESS` is the constructor `ok` of `Result`.
pub data Err : Type 0 where
  unsupported_signing_alg making_protected unsupported_hash hash_general_fail : Err
  hash_buffer_size sig_buffer_size sign1_format cbor_not_well_formed parameter_cbor : Err
  no_alg_id no_kid sig_verify bad_short_circuit_kid invalid_argument : Err
  insufficient_memory fail tampering_detected unknown_key wrong_type_of_key : Err
  sig_struct short_circuit_sig sig_fail cbor_formatting too_small : Err
  too_many_parameters unknown_critical_parameter short_circuit_sig_disabled : Err
  incorrect_key_for_lib non_integer_alg_id bad_content_type incorrectly_tagged : Err
  empty_key duplicate_parameter parameter_not_protected crit_parameter too_many_tags : Err
  need_auxiliary_buffer auxiliary_buffer_size : Err

-- `fault` is an access outside of an array, which C leaves undefined.
pub data Result {ℓ} (Value : Type ℓ) : Type ℓ where
  fault : Result Value
  err : Err → Result Value
  ok : Value → Result Value

infixl 5 ◌>>=◌ ◌>>◌
abbrev pub ◌>>=◌ {ℓ κ} :
    {Value : Type ℓ} {Next : Type κ} → Result Value → (Value → Result Next) → Result Next
fault >>= next = fault
err code >>= next = err code
ok value >>= next = next value

abbrev pub ◌>>◌ {κ} : {Next : Type κ} → Result (Unit {0}) → Result Next → Result Next
check >> next = check >>= λ done. next

-- `if(bad) { return_value = e; goto Done; }`
abbrev pub fail_if : Bool → Err → Result (Unit {0})
fail_if true e = err e
fail_if false e = ok tt

pub ok-injective {ℓ} : {A : Type ℓ} (a b : A) → ok a ≡ ok b → a ≡ b
ok-injective a b h = cc

pub err-ne-ok {ℓ} : {A : Type ℓ} (code : Err) (a : A) → err code ≡ ok a → ⊥
err-ne-ok code a h = cc

-- Inversion of a successful sequence, for a proof that goes on with its parts.
pub >>=-ok_elim {ℓ κ μ} :
    {Value : Type ℓ} {Next : Type κ} {C : Type μ} (m : Result Value) (next : Value → Result Next)
    {b : Next}
    → (m >>= next) ≡ ok b
    → ((a : Value) → m ≡ ok a → next a ≡ ok b → C)
    → C
>>=-ok_elim fault next h k = absurd (cc)
>>=-ok_elim (err code) next h k = absurd (cc)
>>=-ok_elim (ok value) next h k = k value refl h

-- `if(return_value != T_COSE_SUCCESS) { goto Done; }` where a state of the caller has changed too.
abbrev pub or_done {ℓ κ μ} :
    {S : Type ℓ} {A : Type κ} {B : Type μ} → S × Result A → (S → A → S × Result B) → S × Result B
or_done (s, ok a) f = f s a
or_done (s, err e) f = (s, err e)
or_done (s, fault) f = (s, fault)

-- Its inversion.
pub or_done-ok_elim {ℓ κ μ ν} :
    {S : Type ℓ} {A : Type κ} {B : Type μ} {C : Type ν} (r : S × Result A)
    (f : S → A → S × Result B) {s' : S} {b : B}
    → or_done r f ≡ (s', ok b)
    → ((s : S) (a : A) → r ≡ (s, ok a) → f s a ≡ (s', ok b) → C)
    → C
or_done-ok_elim (s, ok a) f h k = k s a refl h
or_done-ok_elim (s, err e) f h k = absurd (cc)
or_done-ok_elim (s, fault) f h k = absurd (cc)
