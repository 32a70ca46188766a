-- ===== src/UnitFile.antt =====
-- units/normalize-unit-file.c: the lines of a unit file without comments, indentation and continuation.
-- The loop reads a byte at a time; what it writes is a list, and the 0 behind the text is the end of the
-- list that is read.
pub mod ByLine
use afb_app_manager.Base.{
  ℕ, Bool, true, false, ◌||◌, List, [], ◌∷◌, ◌++◌, Bytes, codes, ◌==◌, if◌then◌else◌,
}

-- Where the loop stands: before a line, in a comment, or in a line behind a byte that it has written.
pub data Mode : Type 0 where
  before_line in_comment : Mode
  in_line : ℕ → Mode

-- `strchr(cmtchrs, c)` on a byte that is not 0.
abbrev pub contains : Bytes → ℕ → Bool
contains [] c = false
contains (x ∷ xs) c = x == c || contains xs c

abbrev pub is_skipped : ℕ → Bool
is_skipped c = c == b'\n' || c == b' ' || c == b'\t'

-- The end of a line: behind a backslash it is a space in the place of both.
abbrev pub end_line : ℕ → ℕ → Bytes
end_line last terminator = if last == b'\\' then b' ' ∷ [] else last ∷ terminator ∷ []

-- A byte that is read, and what is settled of what is written.
abbrev pub read_byte : Bytes → Mode → ℕ → Mode × Bytes
read_byte cmtchrs before_line c =
    if is_skipped c
    then (before_line, [])
    else if contains cmtchrs c
    then (in_comment, [])
    else (in_line c, [])
read_byte cmtchrs in_comment c = if c == b'\n' then (before_line, []) else (in_comment, [])
read_byte cmtchrs (in_line last) c =
    if c == b'\n' then (before_line, end_line last b'\n') else (in_line c, last ∷ [])

-- The bytes up to `write`, which the result counts: a line that ends at the end of the text has its 0
-- among them.
unfoldable pub normalize : Bytes → Mode → Bytes → Bytes
normalize cmtchrs (in_line last) [] = end_line last 0
normalize cmtchrs _ [] = []
normalize cmtchrs mode (c ∷ cs) =
    let (mode', written) = read_byte cmtchrs mode c in written ++ normalize cmtchrs mode' cs

abbrev pub normalize_unit_file_cmtchrs : Bytes → Bytes → Bytes
normalize_unit_file_cmtchrs content cmtchrs = normalize cmtchrs before_line content

-- What stands at the start of `content` in the end: those bytes, and the 0 of `*write = c`.
unfoldable pub stored : Bytes → Bytes → Bytes
stored content cmtchrs = normalize_unit_file_cmtchrs content cmtchrs ++ 0 ∷ []

abbrev pub normalize_unit_file : Bytes → Bytes
normalize_unit_file content = normalize_unit_file_cmtchrs content (codes ";#")
