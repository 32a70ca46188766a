-- ===== src/UnitProcess/Packing.antt =====
-- units/unit-process.c: `pack` writes over the text that it reads.
use afb_app_manager.Base.{
  ℕ, suc, ◌+◌, ◌≤◌, Bool, true, false, ◌||◌, some, List, [], ◌∷◌, Bytes, length, length-append,
  ◌==◌, ◌≡◌, refl, arith, Bool-cases, Option-cases, inl, inr,
}
use afb_app_manager.UnitProcess.{
  onto, isblank, is_continuation, body_of, continues, begin_of, purged, pack_line, pack_lines,
  lines_of, pack,
}

length-body_of : (line t : Bytes) → body_of line ≡ some t → length t ≤ length line
unfolding body_of
length-body_of [] t e = ground (arith, e)
length-body_of (c ∷ cs) t e = elim (Bool-cases (c == b'\n')) [
  | inl n ↦ ground (arith, rw n at e)
  | inr n ↦ elim (Bool-cases (isblank c || is_continuation c cs)) [
    | inl k ↦ omega (arith, length-body_of cs t (rw (n, k) at e))
    | inr k ↦ ground (arith, rw (n, k) at e)
  ]
]

length-purged : (purge : ℕ) (t : Bytes) → length (purged purge t) ≤ length t
length-purged purge [] = omega arith
length-purged purge (c ∷ cs) = ground arith

length-begin_of : (cont : Bool) (line : Bytes) → length (begin_of cont line) ≤ length line
length-begin_of true line = omega arith
length-begin_of false line = elim (Option-cases (body_of line)) [
  | inl e ↦ rw e (omega arith)
  | inr (t, e) ↦ rw e (length-body_of line t e)
]

length-pack_line :
    (purge : ℕ) (cont : Bool) (line : Bytes) → length (pack_line purge cont line) ≤ length line
unfolding pack_line
length-pack_line purge cont line =
    ground (arith, length-purged purge (begin_of cont line), length-begin_of cont line)

-- The bytes of all lines.
abbrev total : List Bytes → ℕ
total [] = 0
total (l ∷ ls) = length l + total ls

total-onto : (c : ℕ) (ls : List Bytes) → total (onto c ls) ≡ suc (total ls)
total-onto c [] = refl
total-onto c (l ∷ ls) = omega arith

total-lines_of : (t : Bytes) → total (lines_of t) ≡ length t
unfolding lines_of
total-lines_of [] = refl
total-lines_of (c ∷ cs) = ground (arith, total-onto c (lines_of cs), total-lines_of cs)

length-pack_lines :
    (purge : ℕ) (cont : Bool) (ls : List Bytes) → length (pack_lines purge cont ls) ≤ total ls
unfolding pack_lines
length-pack_lines purge cont [] = omega arith
length-pack_lines purge cont (l ∷ ls) = omega (
  arith,
  length-append (pack_line purge cont l) (pack_lines purge (continues l) ls),
  length-pack_line purge cont l,
  length-pack_lines purge (continues l) ls,
)

-- The packed text is no longer than the text, whatever the purge character.
length-pack : (t : Bytes) (purge : ℕ) → length (pack t purge) ≤ length t
length-pack t purge = omega (arith, length-pack_lines purge false (lines_of t), total-lines_of t)
