-- ===== src/Verify/Reuse/Outcomes.antt =====
-- The outcomes of a call with each of two contexts.
use t_cose.Common.{
  ℕ, ◌≡◌, refl, Bool, true, false, if◌then◌else◌, Buf, Result, Err, ok, err, fault, ok-injective,
  or_done,
}
use t_cose.Crypto.{Key}
use t_cose.Verify.Context.{VerifyCtx}
use t_cose.Verify.Reuse.{Keeps}

-- The outcome of a call with each of two contexts.
module _ {A : Type 0} (flags : ℕ) (key : Key) (buffer : Buf) where
  pub record Agree (x y : VerifyCtx × Result A) : Type 0 where
    pub left : Keeps flags key buffer x.0
    pub right : Keeps flags key buffer y.0
    pub same : x.1 ≡ y.1

err-same :
    {A B : Type 0} (x y : Err)
    → ◌≡◌ {A = Result A} (err x) (err y)
    → ◌≡◌ {A = Result B} (err x) (err y)
err-same x y h = cc

pub if_both :
    {A : Type 0} (P : A → Type 0) (b : Bool) (x y : A) → P x → P y → P (if b then x else y)
if_both P true x y h k = h
if_both P false x y h k = k

pub or_done-Agree :
    {A B : Type 0} (flags : ℕ) (key : Key) (buffer : Buf) (x y : VerifyCtx × Result A)
    (f g : VerifyCtx → A → VerifyCtx × Result B)
    → Agree flags key buffer x y
    → ((s t : VerifyCtx) (v : A)
        → Keeps flags key buffer s
        → Keeps flags key buffer t
        → Agree flags key buffer (f s v) (g t v))
    → Agree flags key buffer (or_done x f) (or_done y g)
or_done-Agree flags key buffer (s, ok a) (t, ok b) f g h k =
    rw (ok-injective _ _ h.same) (k s t b h.left h.right)
or_done-Agree flags key buffer (s, ok a) (t, err y) f g h k = absurd (cc)
or_done-Agree flags key buffer (s, ok a) (t, fault) f g h k = absurd (cc)
or_done-Agree flags key buffer (s, err x) (t, ok b) f g h k = absurd (cc)
or_done-Agree flags key buffer (s, err x) (t, err y) f g h k = record {
  left = h.left;
  right = h.right;
  same = err-same x y h.same;
}
or_done-Agree flags key buffer (s, err x) (t, fault) f g h k = absurd (cc)
or_done-Agree flags key buffer (s, fault) (t, ok b) f g h k = absurd (cc)
or_done-Agree flags key buffer (s, fault) (t, err y) f g h k = absurd (cc)
or_done-Agree flags key buffer (s, fault) (t, fault) f g h k = record {
  left = h.left;
  right = h.right;
  same = refl;
}
