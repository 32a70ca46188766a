-- ===== src/Base/Int.antt =====
-- The C `int` of return codes. `negsuc n` is -(n + 1).
use Prim.Native.Nat.{ℕ, zero, suc}
use mathlib.Core.Bool.{Bool, true, false}

pub data ℤ : Type 0 where
  pos : ℕ → ℤ
  negsuc : ℕ → ℤ

abbrev pub neg : ℕ → ℤ
neg zero = pos zero
neg (suc n) = negsuc n

-- `rc < 0`
abbrev pub is_neg : ℤ → Bool
is_neg (pos _) = false
is_neg (negsuc _) = true

-- The codes of <errno.h> that the components return, as on Linux.
abbrev pub enoent : ℤ
enoent = neg 2

abbrev pub enomem : ℤ
enomem = neg 12

abbrev pub ebusy : ℤ
ebusy = neg 16

abbrev pub eexist : ℤ
eexist = neg 17

abbrev pub einval : ℤ
einval = neg 22

abbrev pub enotempty : ℤ
enotempty = neg 39

abbrev pub enodata : ℤ
enodata = neg 61

abbrev pub eaddrnotavail : ℤ
eaddrnotavail = neg 99

abbrev pub enokey : ℤ
enokey = neg 126
