-- ===== src/UnitProcess.antt =====
-- units/unit-process.c: a template is instantiated, and the text is split into units.
-- A pointer into a text is the rest of the text from there on.
mod Matching
pub mod Passing
pub mod Packing
pub mod Slashes
pub mod Corpus
pub mod Splits
pub mod Rendered
pub mod Template
use afb_app_manager.Base.{
  ℕ, zero, suc, ◌+◌, ◌-◌, Bool, true, false, not, ◌&&◌, ◌||◌, Option, none, some, List, [], ◌∷◌,
  ◌++◌, Bytes, codes, ℤ, pos, neg, einval, enomem, Memory, alloc, length, ltb, leb, ◌==◌,
  if◌then◌else◌, is_some, equal, take, is_neg,
}
use mathlib.Core.List.{reverse}

abbrev pub isblank : ℕ → Bool
isblank c = c == b' ' || c == b'\t'

-- `while (isblank(t)) t = *++text`
unfoldable pub skip_blanks : Bytes → Bytes
skip_blanks [] = []
skip_blanks (c ∷ cs) = if isblank c then skip_blanks cs else c ∷ cs

-- A character of the pattern; at the end of the text a newline of the pattern matches.
abbrev pub match_newline : Bytes → Option Bytes
match_newline [] = some []
match_newline (c ∷ cs) = if c == b'\n' then some cs else none

abbrev pub match_space : Bytes → Option Bytes
match_space [] = none
match_space (c ∷ cs) = if isblank c then some (skip_blanks cs) else none

abbrev pub match_char : ℕ → Bytes → Option Bytes
match_char p [] = none
match_char p (c ∷ cs) = if c == p then some cs else none

abbrev pub match_one : ℕ → Bytes → Option Bytes
match_one p text =
    if p == b'\n'
    then match_newline (skip_blanks text)
    else if p == b' '
    then match_space text
    else match_char p text

-- `matches`, with what stands behind the match.
unfoldable pub matches : Bytes → Bytes → Option Bytes
matches [] text = some text
matches (p ∷ ps) text = elim (match_one p text) [ none ↦ none | some after ↦ matches ps after ]

-- `offset`: the line, and what stands behind the pattern. `start` tells that a line begins.
unfoldable pub offset_from : Bool → Bytes → Bytes → Option (Bytes × Bytes)
offset_from start pattern [] =
    if start
    then elim (matches pattern []) [ none ↦ none | some after ↦ some ([], after) ]
    else none
offset_from start pattern (c ∷ cs) =
    let rest = offset_from (c == b'\n') pattern cs in
    if start
    then elim (matches pattern (c ∷ cs)) [ none ↦ rest | some after ↦ some (c ∷ cs, after) ]
    else rest

abbrev pub offset : Bytes → Bytes → Option (Bytes × Bytes)
offset text pattern = offset_from true pattern text

-- A byte before the first line.
abbrev pub onto : ℕ → List Bytes → List Bytes
onto c [] = (c ∷ []) ∷ []
onto c (l ∷ ls) = (c ∷ l) ∷ ls

-- The lines, each with its newline.
unfoldable pub lines_of : Bytes → List Bytes
lines_of [] = []
lines_of (c ∷ cs) = let rest = lines_of cs in if c == b'\n' then (c ∷ []) ∷ rest else onto c rest

abbrev begins_with : ℕ → Bytes → Bool
begins_with c [] = false
begins_with c (x ∷ xs) = x == c

-- `c == '\\' && read[1] == '\n'`
abbrev pub is_continuation : ℕ → Bytes → Bool
is_continuation c rest = c == b'\\' && begins_with b'\n' rest

-- `start`: the line from its first character that is neither blank nor a continuation.
unfoldable pub body_of : Bytes → Option Bytes
body_of [] = none
body_of (c ∷ cs) =
    if c == b'\n'
    then none
    else if isblank c || is_continuation c cs
    then body_of cs
    else some (c ∷ cs)

-- `nextcont`
unfoldable pub continues : Bytes → Bool
continues [] = false
continues (c ∷ cs) = is_continuation c cs || continues cs

-- `begin`, where it is copied or purged.
abbrev pub begin_of : Bool → Bytes → Bytes
begin_of cont line = if cont then line else elim (body_of line) [ none ↦ line | some t ↦ t ]

abbrev pub purged : ℕ → Bytes → Bytes
purged purge [] = []
purged purge (c ∷ cs) =
    if not (purge == 0) && c == purge
    then (if equal (take 3 cs) (codes "nl" ++ b'\n' ∷ []) then b'\n' ∷ [] else [])
    else c ∷ cs

-- What a line gives.
unfoldable pub pack_line : ℕ → Bool → Bytes → Bytes
pack_line purge cont line =
    if is_some (body_of line) || cont && not (continues line)
    then purged purge (begin_of cont line)
    else []

unfoldable pub pack_lines : ℕ → Bool → List Bytes → Bytes
pack_lines purge cont [] = []
pack_lines purge cont (l ∷ ls) = pack_line purge cont l ++ pack_lines purge (continues l) ls

-- `pack`; a `purge` of 0 is none.
abbrev pub pack : Bytes → ℕ → Bytes
pack text purge = pack_lines purge false (lines_of text)

-- `PRECEDED_BY` on the written text, the last byte first.
unfoldable pub is_prefix : Bytes → Bytes → Bool
is_prefix [] t = true
is_prefix (x ∷ xs) [] = false
is_prefix (x ∷ xs) (y ∷ ys) = x == y && is_prefix xs ys

abbrev preceded_by : Bytes → Bytes → Bool
preceded_by txt written = is_prefix (reverse txt) written

-- `acnt`
abbrev pub allowed_slashes : Bytes → ℕ
allowed_slashes written =
    if preceded_by (codes "http:") written || preceded_by (codes "https:") written
    then 2
    else if preceded_by (codes "file:") written
    then 3
    else 1

-- How many slashes more are written; a row of slashes has set its count, which `none` has not.
abbrev pub slashes_left : Option ℕ → Bytes → ℕ
slashes_left none written = allowed_slashes written
slashes_left (some n) written = n

abbrev pub pred : ℕ → ℕ
pred zero = zero
pred (suc n) = n

-- Whether a byte is written, `nrnl` after it, and the row of slashes it stands in.
abbrev pub dedup_step : ℕ → Option ℕ → Bytes → ℕ → Bool × ℕ × Option ℕ
dedup_step nrnl row written c =
    let left = slashes_left row written in
    if c == b'\n'
    then (leb (nrnl + 1) 1, nrnl + 1, none)
    else if c == b'/'
    then (ltb 0 left, 0, some (pred left))
    else (true, 0, none)

-- The loops of `dedup_slashes`: `written` is what is before, the last byte first.
unfoldable pub dedup_from : ℕ → Option ℕ → Bytes → Bytes → Bytes
dedup_from nrnl row written [] = []
dedup_from nrnl row written (c ∷ cs) =
    let (emits, nrnl', row') = dedup_step nrnl row written c in
    let rest = dedup_from nrnl' row' (if emits then c ∷ written else written) cs in
    if emits then c ∷ rest else rest

abbrev pub dedup_slashes : Bytes → Bytes
dedup_slashes text = dedup_from 1 none [] text
