-- ===== src/Base/Decimal.antt =====
-- Numbers in decimal, as `printf` writes them.
use Prim.Native.Nat.{ℕ, zero, suc, ◌+◌, ◌-◌, ◌/◌, ◌%◌, ◌^◌}
use mathlib.Core.List.{[], ◌∷◌}
use afb_app_manager.Base.Tests.{◌==◌, ltb, if◌then◌else◌}
use afb_app_manager.Base.Text.{Bytes}

-- The digits of `n` before `out`: `do { *--p = '0' + n % 10; } while (n /= 10)`, a unit of fuel for
-- each digit.
unfoldable pub digits_onto : ℕ → ℕ → Bytes → Bytes
digits_onto zero n out = out
digits_onto (suc fuel) n out =
    let out' = (b'0' + n % 10) ∷ out in
    let rest = digits_onto fuel (n / 10) out' in if n / 10 == 0 then out' else rest

-- `%u` of a number below 2 ^ 64, which has at most 20 digits.
unfoldable pub decimal : ℕ → Bytes
unfolding digits_onto
decimal n = digits_onto 20 n []

-- `%d` of the bits of an `unsigned`.
unfoldable pub decimal_int : ℕ → Bytes
unfolding decimal
decimal_int n = if ltb n (2 ^ 31) then decimal n else b'-' ∷ decimal (2 ^ 32 - n)
