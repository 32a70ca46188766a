-- ===== src/UnitFile/ByLine.antt =====
-- units/normalize-unit-file.c: every line is treated by itself.
use mathlib.Core.List.{append_assoc}
use afb_app_manager.Base.{
  suc, ℕ, ◌+◌, ◌≤◌, false, List, [], ◌∷◌, ◌++◌, Bytes, length, length-append, ◌==◌, if◌then◌else◌,
  ◌≡◌, ◌≢◌, refl, ◌∙◌, ap, arith, Bool-cases, inl, inr,
}
use afb_app_manager.Request.Receive.Lines.{has_newline, unlines, AreLines}
use afb_app_manager.UnitFile.{
  Mode, before_line, in_comment, in_line, contains, is_skipped, end_line, read_byte, normalize,
  stored, normalize_unit_file_cmtchrs,
}

-- A line that is written, with its end.
abbrev pub closed : ℕ → Bytes → Bytes
closed c [] = end_line c b'\n'
closed c (d ∷ ds) = c ∷ closed d ds

-- What a line is turned into.
abbrev pub normal_line : Bytes → Bytes → Bytes
normal_line cmtchrs [] = []
normal_line cmtchrs (c ∷ cs) =
    if is_skipped c then normal_line cmtchrs cs else if contains cmtchrs c then [] else closed c cs

abbrev pub normal_lines : Bytes → List Bytes → Bytes
normal_lines cmtchrs [] = []
normal_lines cmtchrs (l ∷ ls) = normal_line cmtchrs l ++ normal_lines cmtchrs ls

normalize-in_line :
    (k : Bytes) (c : ℕ) (l rest : Bytes)
    → has_newline l ≡ false
    → normalize k (in_line c) (l ++ b'\n' ∷ rest) ≡ closed c l ++ normalize k before_line rest
unfolding normalize has_newline
normalize-in_line k c [] rest h = refl
normalize-in_line k c (d ∷ ds) rest h =
    let n : (d == b'\n') ≡ false = ground (arith, h) in
    rw n (ap (◌∷◌ c) (normalize-in_line k d ds rest (ground (arith, h))))

normalize-in_comment :
    (k l rest : Bytes)
    → has_newline l ≡ false
    → normalize k in_comment (l ++ b'\n' ∷ rest) ≡ normalize k before_line rest
unfolding normalize has_newline
normalize-in_comment k [] rest h = refl
normalize-in_comment k (d ∷ ds) rest h =
    let n : (d == b'\n') ≡ false = ground (arith, h) in
    rw n (normalize-in_comment k ds rest (ground (arith, h)))

normalize-line :
    (k l rest : Bytes)
    → has_newline l ≡ false
    → normalize k before_line (l ++ b'\n' ∷ rest) ≡ normal_line k l ++ normalize k before_line rest
unfolding normalize has_newline
normalize-line k [] rest h = refl
normalize-line k (c ∷ cs) rest h =
    let plain : has_newline cs ≡ false = ground (arith, h) in
    elim (Bool-cases (is_skipped c)) [
      | inl e ↦ rw e (normalize-line k cs rest plain)
      | inr e ↦ elim (Bool-cases (contains k c)) [
        | inl f ↦ rw (e, f) (normalize-in_comment k cs rest plain)
        | inr f ↦ rw (e, f) (normalize-in_line k c cs rest plain)
      ]
    ]

-- On lines that each have their newline, the result is that of each line by itself: nothing for a
-- comment or blanks, else the line without its indentation, a backslash at its end being a space.
pub normalize_unit_file-unlines :
    (k : Bytes) (ls : List Bytes)
    → AreLines ls
    → normalize_unit_file_cmtchrs (unlines ls) k ≡ normal_lines k ls
normalize_unit_file-unlines k [] h = unfold normalize in refl
normalize_unit_file-unlines k (l ∷ ls) h =
    normalize-line k l (unlines ls) h.0
    ∙ ap (λ x. normal_line k l ++ x) (normalize_unit_file-unlines k ls h.1)

-- The bytes that are held back.
abbrev pending : Mode → ℕ
pending (in_line c) = 1
pending _ = 0

length-read_byte :
    (k : Bytes) (mode : Mode) (c : ℕ)
    → length (read_byte k mode c).1 + pending (read_byte k mode c).0 ≤ pending mode + 1
length-read_byte k before_line c = ground arith
length-read_byte k in_comment c = ground arith
length-read_byte k (in_line l) c = ground arith

length-normalize :
    (k : Bytes) (mode : Mode) (t : Bytes)
    → length (normalize k mode t) ≤ length t + pending mode + 1
unfolding normalize
length-normalize k before_line [] = omega arith
length-normalize k in_comment [] = omega arith
length-normalize k (in_line l) [] = ground arith
length-normalize k mode (c ∷ cs) =
    let (next, written) = read_byte k mode c in
    omega (
      arith,
      length-append written (normalize k next cs),
      length-read_byte k mode c,
      length-normalize k next cs,
    )

-- The last byte of a line.
abbrev pub last_of : ℕ → Bytes → ℕ
last_of c [] = c
last_of c (d ∷ ds) = last_of d ds

normalize_rest :
    (k : Bytes) (c : ℕ) (cs : Bytes)
    → has_newline cs ≡ false
    → last_of c cs ≢ b'\\'
    → normalize k (in_line c) cs ≡ c ∷ (cs ++ 0 ∷ [])
unfolding normalize has_newline
normalize_rest k c [] h n = let f : (c == b'\\') ≡ false = ground arith in rw f refl
normalize_rest k c (e ∷ es) h n =
    let p : (e == b'\n') ≡ false = ground (arith, h) in
    rw p (ap (◌∷◌ c) (normalize_rest k e es (ground (arith, h)) n))

-- The size that is returned is at most one more than the length of the text.
pub length-normalize_unit_file :
    (k t : Bytes) → length (normalize_unit_file_cmtchrs t k) ≤ length t + 1
length-normalize_unit_file k t = omega (arith, length-normalize k before_line t)

-- A line without its newline, of one byte or more, which begins with neither a blank nor a comment character
-- and does not end with a backslash: the size that is returned counts the 0 behind it, and a second 0 is
-- written, one byte outside of the text and its 0.
pub normalize_unit_file_unended :
    (k : Bytes) (c : ℕ) (cs : Bytes)
    → is_skipped c ≡ false
    → contains k c ≡ false
    → has_newline cs ≡ false
    → last_of c cs ≢ b'\\'
    → (normalize_unit_file_cmtchrs (c ∷ cs) k ≡ c ∷ (cs ++ 0 ∷ []))
      × (stored (c ∷ cs) k ≡ c ∷ (cs ++ 0 ∷ 0 ∷ []))
      × (length (stored (c ∷ cs) k) ≡ suc (length (c ∷ (cs ++ 0 ∷ []))))
unfolding normalize stored
normalize_unit_file_unended k c cs s m h n =
    let e : normalize_unit_file_cmtchrs (c ∷ cs) k ≡ c ∷ (cs ++ 0 ∷ []) =
      rw (s, m) (normalize_rest k c cs h n) in
    let twice : (c ∷ (cs ++ 0 ∷ [])) ++ 0 ∷ [] ≡ c ∷ (cs ++ 0 ∷ 0 ∷ []) =
      append_assoc (c ∷ cs) (0 ∷ []) (0 ∷ []) in
    (
      e,
      ap (λ t. t ++ 0 ∷ []) e ∙ twice,
      ap (λ t. length (t ++ 0 ∷ [])) e ∙ omega (arith, length-append (c ∷ (cs ++ 0 ∷ [])) (0 ∷ [])),
    )
