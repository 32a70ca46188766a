-- ===== src/UnitProcess/Passing.antt =====
-- units/unit-process.c: `offset` passes over lines that do not begin with its pattern.
use mathlib.Core.List.{append_assoc}
use afb_app_manager.Base.{
  ℕ, true, false, Option, none, some, List, [], ◌∷◌, ◌++◌, Bytes, ◌==◌, All, ◌≡◌, ◌≢◌, refl, ◌∙◌,
  arith, Bool-cases, Option-cases, inl, inr,
}
use afb_app_manager.Request.Receive.Lines.{has_newline, unlines}
use afb_app_manager.UnitProcess.{
  skip_blanks, match_one, match_space, match_char, matches, offset_from,
}

-- What a match leaves, with a line's end behind it.
abbrev ended_by : Bytes → Option Bytes → Option Bytes
ended_by r none = none
ended_by r (some t) = some (t ++ b'\n' ∷ r)

skip_blanks-append : (t r : Bytes) → skip_blanks (t ++ b'\n' ∷ r) ≡ skip_blanks t ++ b'\n' ∷ r
unfolding skip_blanks
skip_blanks-append [] r = refl
skip_blanks-append (c ∷ cs) r = ground (arith, skip_blanks-append cs r)

match_space-append : (t r : Bytes) → match_space (t ++ b'\n' ∷ r) ≡ ended_by r (match_space t)
match_space-append [] r = refl
match_space-append (c ∷ cs) r = ground (arith, skip_blanks-append cs r)

match_char-append :
    (p : ℕ) (t r : Bytes) → p ≢ b'\n' → match_char p (t ++ b'\n' ∷ r) ≡ ended_by r (match_char p t)
match_char-append p [] r n = let e : (b'\n' == p) ≡ false = ground arith in rw e refl
match_char-append p (c ∷ cs) r n = ground arith

match_one-append :
    (p : ℕ) (t r : Bytes) → p ≢ b'\n' → match_one p (t ++ b'\n' ∷ r) ≡ ended_by r (match_one p t)
match_one-append p t r n =
    let e : (p == b'\n') ≡ false = ground arith in
    elim (Bool-cases (p == b' ')) [
      | inl s ↦ rw (e, s) (match_space-append t r)
      | inr s ↦ rw (e, s) (match_char-append p t r n)
    ]

-- A pattern without a newline matches within the line.
matches-append :
    (ps t r : Bytes)
    → has_newline ps ≡ false
    → matches ps (t ++ b'\n' ∷ r) ≡ ended_by r (matches ps t)
unfolding matches has_newline
matches-append [] t r h = refl
matches-append (p ∷ ps) t r h =
    let n : p ≢ b'\n' = λ e. absurd (ground (arith, e, h)) in
    let k : has_newline ps ≡ false = ground (arith, h) in
    elim (Option-cases (match_one p t)) [
      | inl e ↦ rw (matches, match_one-append p t r n, e) refl
      | inr (a, e) ↦ rw (matches, match_one-append p t r n, e) (matches-append ps a r k)
    ]

-- `offset` passes over a line.
offset_from-line :
    (ps l r : Bytes)
    → has_newline l ≡ false
    → offset_from false ps (l ++ b'\n' ∷ r) ≡ offset_from true ps r
unfolding offset_from has_newline
offset_from-line ps [] r h = refl
offset_from-line ps (c ∷ cs) r h =
    let n : (c == b'\n') ≡ false = ground (arith, h) in
    rw n (offset_from-line ps cs r (ground (arith, h)))

offset-line :
    (ps l r : Bytes)
    → has_newline ps ≡ false
    → has_newline l ≡ false
    → matches ps l ≡ none
    → offset_from true ps (l ++ b'\n' ∷ r) ≡ offset_from true ps r
unfolding offset_from has_newline
offset-line ps [] r k h m = rw (matches-append ps [] r k, m) refl
offset-line ps (c ∷ cs) r k h m =
    rw (matches-append ps (c ∷ cs) r k, m)
      (let n : (c == b'\n') ≡ false = ground (arith, h) in
        rw n (offset_from-line ps cs r (ground (arith, h))))

-- A line that the pattern does not begin.
abbrev pub Quiet : Bytes → Bytes → Type 0
Quiet ps l = (has_newline l ≡ false) × (matches ps l ≡ none)

pub offset-unlines :
    (ps : Bytes) (ls : List Bytes) (r : Bytes)
    → has_newline ps ≡ false
    → All (Quiet ps) ls
    → offset_from true ps (unlines ls ++ r) ≡ offset_from true ps r
offset-unlines ps [] r k h = refl
offset-unlines ps (l ∷ ls) r k h =
    rw (append_assoc l (b'\n' ∷ unlines ls) r)
      (offset-line ps l (unlines ls ++ r) k (h.0.0) (h.0.1) ∙ offset-unlines ps ls r k h.1)
