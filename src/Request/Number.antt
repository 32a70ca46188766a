-- ===== src/Request/Number.antt =====
-- The numbers of COUNT and INDEX: `strtol` of the C library in base 10, where `long` has 64 bits,
-- and the range check of afmpkg/afmpkg-request.c behind it.
pub mod Printed
use afb_app_manager.Base.{
  ℕ, ◌+◌, ◌-◌, ◌*◌, Bool, true, false, ◌&&◌, ◌||◌, Option, none, some, [], ◌∷◌, Bytes, ℤ, pos,
  negsuc, neg, ltb, leb, ◌==◌, if◌then◌else◌,
}

abbrev pub long_max : ℕ
long_max = 9223372036854775807

abbrev pub uint_max : ℕ
uint_max = 4294967295

abbrev is_digit : ℕ → Bool
is_digit c = leb b'0' c && leb c b'9'

abbrev is_space : ℕ → Bool
is_space c = c == b' ' || leb 9 c && leb c 13

skip_space : Bytes → Bytes
skip_space [] = []
skip_space (c ∷ cs) = if is_space c then skip_space cs else c ∷ cs

-- The value of the digits, after `n`, and what stands behind them.
digits : ℕ → Bytes → ℕ × Bytes
digits n [] = (n, [])
digits n (c ∷ cs) =
    let rest = digits (n * 10 + (c - b'0')) cs in if is_digit c then rest else (n, c ∷ cs)

-- The sign, and what stands behind it.
signed : Bytes → Bool × Bytes
signed [] = (false, [])
signed (c ∷ cs) =
    if c == b'-' then (true, cs) else if c == b'+' then (false, cs) else (false, c ∷ cs)

abbrev starts_with_digit : Bytes → Bool
starts_with_digit [] = false
starts_with_digit (c ∷ cs) = is_digit c

-- The value within the range of `long`, and whether `errno` was set to ERANGE.
clamp : Bool → ℕ → ℤ × Bool
clamp true n = if ltb (long_max + 1) n then (neg (long_max + 1), true) else (neg n, false)
clamp false n = if ltb long_max n then (pos long_max, true) else (pos n, false)

-- The value, and the text from `*str` on; with no digit the value is 0, and the text is whole.
unfoldable pub strtol : Bytes → (ℤ × Bool) × Bytes
unfolding skip_space digits signed clamp
strtol s =
    let (negative, body) = signed (skip_space s) in
    let (n, rest) = digits 0 body in
    if starts_with_digit body then (clamp negative n, rest) else ((pos 0, false), s)

-- `!(val < 1 || val > UINT_MAX || (val == LONG_MAX && errno == ERANGE))`, and `(unsigned)val`.
unfoldable pub number_of : ℤ × Bool → Option ℕ
number_of (pos n, erange) =
    if ltb n 1 || ltb uint_max n || n == long_max && erange then none else some n
number_of (negsuc n, erange) = none
