-- ===== src/Common/Safety.antt =====
-- A postcondition of a call that leaves no array, and its rules.
use Prim.Native.Nat.{ℕ, ◌<◌}
use mathlib.Core.Path.{◌≡◌, refl, subst}
use mathlib.Core.Bool.{Bool, true, false}
use mathlib.Core.List.{List}
use t_cose.Common.Tests.{ltb, lt→ltb, if◌then◌else◌}
use t_cose.Common.Lists.{length, set}
use t_cose.Common.Outcome.{Err, Result, ok, err, fault, ◌>>=◌, ◌>>◌, fail_if, or_done}

-- `array[n] = v`
abbrev pub store {ℓ} : {A : Type ℓ} → List A → ℕ → A → Result (List A)
store array n v = if ltb n (length array) then ok (set array n v) else fault

-- A call that does not leave an array; what holds of its value if it gives one.
abbrev pub Safe {ℓ} : {A : Type ℓ} → (A → Type 0) → Result A → Type 0
Safe P (ok a) = P a
Safe P (err e) = Unit
Safe P fault = ⊥

pub Safe-if {ℓ} :
    {A : Type ℓ} (P : A → Type 0) (b : Bool) (x y : Result A)
    → (b ≡ true → Safe P x)
    → (b ≡ false → Safe P y)
    → Safe P (if b then x else y)
Safe-if P true x y h k = h refl
Safe-if P false x y h k = k refl

pub Safe-fail_if {ℓ} :
    {A : Type ℓ} (P : A → Type 0) (b : Bool) (e : Err) (x : Result A)
    → (b ≡ false → Safe P x)
    → Safe P (fail_if b e >> x)
Safe-fail_if P true e x h = tt
Safe-fail_if P false e x h = h refl

pub Safe-store {ℓ κ} :
    {A : Type ℓ} {B : Type κ} (P : B → Type 0) (xs : List A) (n : ℕ) (v : A) (f : List A → Result B)
    → n < length xs
    → Safe P (f (set xs n v))
    → Safe P (store xs n v >>= f)
Safe-store P xs n v f h s = rw (lt→ltb n (length xs) h) s

pub Safe-bind {ℓ κ} :
    {A : Type ℓ} {B : Type κ} (P : A → Type 0) (Q : B → Type 0) (m : Result A) (f : A → Result B)
    → Safe P m
    → ((a : A) → P a → Safe Q (f a))
    → Safe Q (m >>= f)
Safe-bind P Q (ok a) f h k = k a h
Safe-bind P Q (err e) f h k = tt
Safe-bind P Q fault f h k = h

pub Safe-imp {ℓ} :
    {A : Type ℓ} (P Q : A → Type 0) (m : Result A) → Safe P m → ((a : A) → P a → Q a) → Safe Q m
Safe-imp P Q (ok a) h k = k a h
Safe-imp P Q (err e) h k = tt
Safe-imp P Q fault h k = h

pub Safe-ne-fault {ℓ} : {A : Type ℓ} (P : A → Type 0) (m : Result A) → Safe P m → m ≡ fault → ⊥
Safe-ne-fault P (ok a) h e = cc
Safe-ne-fault P (err x) h e = cc
Safe-ne-fault P fault h e = h

pub Safe-ok {ℓ} : {A : Type ℓ} (P : A → Type 0) {m : Result A} {a : A} → Safe P m → m ≡ ok a → P a
Safe-ok P h e = subst (Safe P) e h

pub Safe-of_eq {ℓ} :
    {A : Type ℓ} (P : A → Type 0) (m : Result A)
    → (m ≡ fault → ⊥)
    → ((a : A) → m ≡ ok a → P a)
    → Safe P m
Safe-of_eq P (ok a) h k = k a refl
Safe-of_eq P (err e) h k = tt
Safe-of_eq P fault h k = h refl

-- No more than that no array is left.
abbrev pub IsSafe {ℓ} : {A : Type ℓ} → Result A → Type 0
IsSafe = Safe (λ _. Unit)

pub IsSafe-bind {ℓ κ} :
    {A : Type ℓ} {B : Type κ} (m : Result A) (f : A → Result B)
    → (m ≡ fault → ⊥)
    → ((a : A) → IsSafe (f a))
    → IsSafe (m >>= f)
IsSafe-bind (ok a) f h k = k a
IsSafe-bind (err e) f h k = tt
IsSafe-bind fault f h k = absurd (h refl)

pub or_done-IsSafe {ℓ κ μ} :
    {S : Type ℓ} {A : Type κ} {B : Type μ} (r : S × Result A) (f : S → A → S × Result B)
    → IsSafe r.1
    → ((s : S) (a : A) → r ≡ (s, ok a) → IsSafe (f s a).1)
    → IsSafe (or_done r f).1
or_done-IsSafe (s, ok a) f h k = k s a refl
or_done-IsSafe (s, err e) f h k = tt
or_done-IsSafe (s, fault) f h k = h

pub IsSafe-if_state {ℓ κ} :
    {S : Type ℓ} {A : Type κ} (b : Bool) (x y : S × Result A)
    → IsSafe x.1
    → IsSafe y.1
    → IsSafe (if b then x else y).1
IsSafe-if_state true x y h k = h
IsSafe-if_state false x y h k = k
