-- ===== src/Common/Buffers.antt =====
-- `struct q_useful_buf` and `struct q_useful_buf_c`: a pointer and a length.
-- The functions on them are those of QCBOR's UsefulBuf, which q_useful_buf.h renames.
use Prim.Native.Nat.{ℕ, ◌≤◌, ◌<◌}
use mathlib.Core.Path.{◌≡◌}
use mathlib.Core.Logic.{◌↔◌}
use mathlib.Core.Bool.{Bool, true, false}
use mathlib.Core.List.{List}
use t_cose.Common.Int.{ℤ, pos}
use t_cose.Common.Tests.{◌==◌}
use t_cose.Common.Lists.{length, take}

-- Either a NULL pointer with a length, or the bytes that the pointer and the length give.
pub data Buf : Type 0 where
  null : ℕ → Buf
  bytes : List ℕ → Buf

-- `NULL_Q_USEFUL_BUF_C`
abbrev pub null_buf : Buf
null_buf = null 0

-- `.len`
abbrev pub len : Buf → ℕ
len (null n) = n
len (bytes b) = length b

-- `.ptr == NULL`
abbrev pub is_null_ptr : Buf → Bool
is_null_ptr (null n) = true
is_null_ptr (bytes b) = false

-- `.ptr == NULL || .len == 0`
abbrev pub is_null_or_empty : Buf → Bool
is_null_or_empty (null n) = true
is_null_or_empty (bytes b) = length b == 0

-- The functions of UsefulBuf that the code calls, with their documented behaviour.
pub record UsefulBuf : Type 0 where
  pub is_null : Buf → Bool
  pub is_null_lem : (b : Buf) → is_null b ≡ is_null_ptr b
  pub null_or_empty : Buf → Bool
  pub null_or_empty_lem : (b : Buf) → null_or_empty b ≡ is_null_or_empty b
  pub compare : Buf → Buf → ℤ
  pub compare_bytes : (a b : List ℕ) → (compare (bytes a) (bytes b) ≡ pos 0) ↔ (a ≡ b)
  pub compare_len : (a b : Buf) → compare a b ≡ pos 0 → len a ≡ len b
  pub head : Buf → ℕ → Buf
  pub head_bytes : (n : ℕ) (b : List ℕ) → n ≤ length b → head (bytes b) n ≡ bytes (take n b)
  pub head_short : (n : ℕ) (b : Buf) → len b < n → head b n ≡ null_buf
