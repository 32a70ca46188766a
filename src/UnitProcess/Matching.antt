-- ===== src/UnitProcess/Matching.antt =====
-- units/unit-process.c: what `matches` and `offset` leave of a text.
use afb_app_manager.Base.{
  ℕ, ◌≤◌, ◌<◌, Bool, true, false, none, some, [], ◌∷◌, Bytes, length, ◌==◌, ◌≡◌, ◌≢◌, refl, arith,
  Bool-cases, Option-cases, inl, inr,
}
use afb_app_manager.UnitProcess.{
  skip_blanks, match_newline, match_space, match_char, match_one, matches, offset_from,
}

length-skip_blanks : (t : Bytes) → length (skip_blanks t) ≤ length t
unfolding skip_blanks
length-skip_blanks [] = omega arith
length-skip_blanks (c ∷ cs) = ground (arith, length-skip_blanks cs)

length-match_newline : (t a : Bytes) → match_newline t ≡ some a → length a ≤ length t
length-match_newline [] a e = ground (arith, e)
length-match_newline (c ∷ cs) a e = ground (arith, e)

length-match_space : (t a : Bytes) → match_space t ≡ some a → length a ≤ length t
length-match_space [] a e = ground (arith, e)
length-match_space (c ∷ cs) a e = ground (arith, e, length-skip_blanks cs)

length-match_char : (p : ℕ) (t a : Bytes) → match_char p t ≡ some a → length a < length t
length-match_char p [] a e = ground (arith, e)
length-match_char p (c ∷ cs) a e = ground (arith, e)

pub match_one-match_char :
    (p : ℕ) (t : Bytes) → p ≢ b' ' → p ≢ b'\n' → match_one p t ≡ match_char p t
match_one-match_char p t s n =
    let e1 : (p == b' ') ≡ false = ground arith in
    let e2 : (p == b'\n') ≡ false = ground arith in rw (e1, e2) refl

length-match_one : (p : ℕ) (t a : Bytes) → match_one p t ≡ some a → length a ≤ length t
length-match_one p t a e = elim (Bool-cases (p == b'\n')) [
  | inl n ↦ omega (arith, length-match_newline (skip_blanks t) a (rw n at e), length-skip_blanks t)
  | inr n ↦ elim (Bool-cases (p == b' ')) [
    | inl b ↦ length-match_space t a (rw (n, b) at e)
    | inr b ↦ omega (arith, length-match_char p t a (rw (n, b) at e))
  ]
]

pub some_ne : {A : Type 0} {a : A} → none ≢ some a
some_ne e = cc

pub length-matches : (ps t a : Bytes) → matches ps t ≡ some a → length a ≤ length t
unfolding matches
length-matches [] t a e = ground (arith, e)
length-matches (p ∷ ps) t a e = elim (Option-cases (match_one p t)) [
  | inl n ↦ absurd (some_ne (rw (n, matches) at e))
  | inr (b, n) ↦
      omega (arith, length-match_one p t b n, length-matches ps b a (rw (n, matches) at e))
]

-- A pattern that begins with neither a space nor a newline takes a byte at least.
pub length-matches_char :
    (p : ℕ) (ps t a : Bytes)
    → p ≢ b' '
    → p ≢ b'\n'
    → matches (p ∷ ps) t ≡ some a
    → length a < length t
unfolding matches
length-matches_char p ps t a s n e =
    let e' = match_one-match_char p t s n in
    elim (Option-cases (match_char p t)) [
      | inl m ↦ absurd (some_ne (rw (e', m, matches) at e))
      | inr (b, m) ↦
          omega (arith, length-match_char p t b m, length-matches ps b a (rw (e', m, matches) at e))
    ]

pub length-offset_from :
    (start : Bool) (p : ℕ) (ps t line a : Bytes)
    → p ≢ b' '
    → p ≢ b'\n'
    → offset_from start (p ∷ ps) t ≡ some (line, a)
    → (length a < length line) × (length line ≤ length t)
unfolding offset_from
length-offset_from false p ps [] line a s n e = absurd (some_ne e)
length-offset_from true p ps [] line a s n e = elim (Option-cases (matches (p ∷ ps) [])) [
  | inl m ↦ absurd (some_ne (rw m at e))
  | inr (b, m) ↦ absurd (omega (arith, length-matches_char p ps [] b s n m))
]
length-offset_from false p ps (c ∷ cs) line a s n e =
    omega (arith, length-offset_from (c == b'\n') p ps cs line a s n e)
length-offset_from true p ps (c ∷ cs) line a s n e =
    elim (Option-cases (matches (p ∷ ps) (c ∷ cs))) [
      | inl m ↦ omega (arith, length-offset_from (c == b'\n') p ps cs line a s n (rw m at e))
      | inr (b, m) ↦ ground (arith, rw m at e, length-matches_char p ps (c ∷ cs) b s n m)
    ]
