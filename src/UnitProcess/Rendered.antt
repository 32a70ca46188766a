-- ===== src/UnitProcess/Rendered.antt =====
-- units/unit-process.c: `corpus_split` gives the units of a corpus that is written as it should.
use mathlib.Core.List.{append_assoc, append-nil, map}
use afb_app_manager.Base.{
  ℕ, zero, suc, ◌-◌, ◌≤◌, ◌<◌, true, false, Option, none, some, List, [], ◌∷◌, ◌++◌, Bytes, codes,
  length, length-append, take-length, take-append_le, take, ltb, pos, All, ◌≡◌, refl, ◌∙◌, ap,
  arith, Option-cases, inl, inr,
}
use afb_app_manager.Request.Receive.Lines.{has_newline, unlines}
use afb_app_manager.UnitProcess.{skip_blanks, matches, offset, offset_from}
use afb_app_manager.UnitProcess.Matching.{length-offset_from}
use afb_app_manager.UnitProcess.Corpus.{
  UnitDesc, Split, begins_again, type_of, wanted_of, unit_tag, between, extract, process_one_unit,
  split_step, split_loop, corpus_split,
}
use afb_app_manager.UnitProcess.Passing.{Quiet, offset-unlines}

abbrev pub begin_tag : Bytes
begin_tag = codes "%begin "

abbrev pub end_tag : Bytes
end_tag = codes "%end "

-- The lines of a unit, with lines before it that belong to no unit.
pub record UnitText : Type 0 where
  pub before : List Bytes
  pub lines : List Bytes

pub record IsWellWritten (u : UnitText) : Type 0 where
  pub before_begin : All (Quiet begin_tag) u.before
  pub before_end : All (Quiet end_tag) u.before
  pub lines_begin : All (Quiet begin_tag) u.lines
  pub lines_end : All (Quiet end_tag) u.lines

abbrev pub render : UnitText → Bytes → Bytes
render u rest =
    unlines u.before
    ++ (begin_tag ++ (unit_tag ++ (unlines u.lines ++ (end_tag ++ (unit_tag ++ rest)))))

abbrev pub render_all : List UnitText → Bytes → Bytes
render_all [] rest = rest
render_all (u ∷ us) rest = render u (render_all us rest)

-- The description of the text of a unit, with memory at hand.
abbrev pub unit_of : UnitText → UnitDesc
unit_of u = (process_one_unit [] (unlines u.lines)).0

offset-render_begin :
    (u : UnitText) (rest : Bytes)
    → IsWellWritten u
    → offset (render u rest) begin_tag
      ≡ some (
        begin_tag ++ (unit_tag ++ (unlines u.lines ++ (end_tag ++ (unit_tag ++ rest)))),
        unit_tag ++ (unlines u.lines ++ (end_tag ++ (unit_tag ++ rest))),
      )
unfolding offset_from matches skip_blanks has_newline
offset-render_begin u rest w =
    offset-unlines begin_tag u.before
      (begin_tag ++ (unit_tag ++ (unlines u.lines ++ (end_tag ++ (unit_tag ++ rest))))) refl
      w.before_begin
    ∙ refl

offset-render_end :
    (u : UnitText) (rest : Bytes)
    → IsWellWritten u
    → offset (render u rest) end_tag ≡ some (end_tag ++ (unit_tag ++ rest), unit_tag ++ rest)
unfolding offset_from matches skip_blanks has_newline
offset-render_end u rest w =
    offset-unlines end_tag u.before
      (begin_tag ++ (unit_tag ++ (unlines u.lines ++ (end_tag ++ (unit_tag ++ rest))))) refl
      w.before_end
    ∙ offset-unlines end_tag u.lines (end_tag ++ (unit_tag ++ rest)) refl w.lines_end

offset_again :
    (u : UnitText) (rest : Bytes)
    → IsWellWritten u
    → offset (unit_tag ++ (unlines u.lines ++ (end_tag ++ (unit_tag ++ rest)))) begin_tag
      ≡ offset rest begin_tag
unfolding offset_from matches skip_blanks has_newline
offset_again u rest w =
    offset-unlines begin_tag u.lines (end_tag ++ (unit_tag ++ rest)) refl w.lines_begin

begins_again-render :
    (u : UnitText) (rest : Bytes)
    → IsWellWritten u
    → begins_again
        (unit_tag ++ (unlines u.lines ++ (end_tag ++ (unit_tag ++ rest))))
        (end_tag ++ (unit_tag ++ rest))
      ≡ false
unfolding begins_again
begins_again-render u rest w = elim (Option-cases (offset rest begin_tag)) [
  | inl e ↦ rw (begins_again, offset_again u rest w, e) refl
  | inr ((next, after), e) ↦
      let short =
        length-offset_from true b'%' (codes "begin ") rest next after (omega arith) (omega arith)
          e in
      rw (begins_again, offset_again u rest w, e) (ground (arith, short))
]

take_front : (t u : Bytes) → take (length (t ++ u) - length u) (t ++ u) ≡ t
take_front t u =
    let e : length (t ++ u) - length u ≡ length t = omega (arith, length-append t u) in
    rw (e, take-append_le (length t) t u (omega arith)) (take-length t)

between-render :
    (u : UnitText) (rest : Bytes)
    → between
        (unit_tag ++ (unlines u.lines ++ (end_tag ++ (unit_tag ++ rest))))
        (end_tag ++ (unit_tag ++ rest))
      ≡ unit_tag ++ unlines u.lines
between-render u rest = take_front (unit_tag ++ unlines u.lines) (end_tag ++ (unit_tag ++ rest))

type_of_memory : (a b : Option (Bytes × Bytes)) → (type_of [] a b).3 ≡ []
type_of_memory none none = refl
type_of_memory none (some (l, t)) = refl
type_of_memory (some (l, t)) none = refl
type_of_memory (some (l, t)) (some (k, v)) = refl

wanted_of_memory : (a : Option (Bytes × Bytes)) → (wanted_of [] a).2 ≡ []
wanted_of_memory none = refl
wanted_of_memory (some (l, t)) = refl

process_one_unit_memory : (spec : Bytes) → (process_one_unit [] spec).1 ≡ []
unfolding process_one_unit
process_one_unit_memory spec =
    let sock = offset spec (codes "%systemd-unit socket ") in
    let serv = offset spec (codes "%systemd-unit service ") in
    rw (type_of_memory sock serv)
      (wanted_of_memory (offset spec (codes "%systemd-unit wanted-by ")))

-- A unit more.
abbrev with_units : Split → List UnitDesc → Split
with_units s us = record s { units = s.units ++ us }

matches_tag : (r : Bytes) → matches unit_tag (unit_tag ++ r) ≡ some r
unfolding matches skip_blanks
matches_tag r = refl

split_step-render :
    (u : UnitText) (rest : Bytes) (s : Split)
    → IsWellWritten u
    → s.memory ≡ []
    → split_step (render u rest) s ≡ (some rest, with_units s (unit_of u ∷ []))
unfolding split_step extract
split_step-render u rest s w m =
    let end = end_tag ++ (unit_tag ++ rest) in
    let beg = unit_tag ++ (unlines u.lines ++ end) in
    let ordered : ltb (length (begin_tag ++ beg)) (length end) ≡ false =
      ground (arith, length-append (unlines u.lines) end) in
    rw
      (
        split_step,
        offset-render_begin u rest w,
        offset-render_end u rest w,
        ordered,
        begins_again-render u rest w,
        between-render u rest,
        matches_tag (unlines u.lines),
        extract,
        matches_tag rest,
        m,
        process_one_unit_memory (unlines u.lines),
      )
      refl

offset-none :
    (ps : Bytes) (ls : List Bytes)
    → has_newline ps ≡ false
    → All (Quiet ps) ls
    → offset_from true ps [] ≡ none
    → offset (unlines ls) ps ≡ none
offset-none ps ls k h e = rw append-nil at (offset-unlines ps ls [] k h) ∙ e

split_step-end :
    (tail : List Bytes) (s : Split)
    → All (Quiet begin_tag) tail
    → All (Quiet end_tag) tail
    → split_step (unlines tail) s ≡ (none, s)
unfolding split_step
split_step-end tail s b e =
    rw
      (
        split_step,
        offset-none begin_tag tail (unfold has_newline in refl) b
            (unfold offset_from matches in refl),
        offset-none end_tag tail (unfold has_newline in refl) e
            (unfold offset_from matches in refl),
      )
      refl

split_loop-render :
    (us : List UnitText) (tail : List Bytes) (fuel : ℕ) (s : Split)
    → All IsWellWritten us
    → s.memory ≡ []
    → All (Quiet begin_tag) tail
    → All (Quiet end_tag) tail
    → length us < fuel
    → split_loop fuel (some (render_all us (unlines tail))) s ≡ some (with_units s (map unit_of us))
unfolding split_loop
split_loop-render us tail zero s w m b e h = absurd (omega (arith, h))
split_loop-render [] tail (suc fuel) s w m b e h =
    rw (split_loop, split_step-end tail s b e, append-nil) refl
split_loop-render (u ∷ us) tail (suc fuel) s w m b e h =
    rw (split_loop, split_step-render u (render_all us (unlines tail)) s w.0 m)
      (split_loop-render us tail fuel (with_units s (unit_of u ∷ [])) w.1 m b e (omega (arith, h))
        ∙ rw (append_assoc s.units (unit_of u ∷ []) (map unit_of us)) refl)

length-render_all : (us : List UnitText) (rest : Bytes) → length us ≤ length (render_all us rest)
length-render_all [] rest = omega arith
length-render_all (u ∷ us) rest =
    let more = render_all us rest in
    let end = end_tag ++ (unit_tag ++ more) in
    omega (
      arith,
      length-append (unlines u.before) (begin_tag ++ (unit_tag ++ (unlines u.lines ++ end))),
      length-append (unlines u.lines) end,
      length-render_all us rest,
    )

length-map : (us : List UnitText) → length (map unit_of us) ≡ length us
length-map [] = refl
length-map (u ∷ us) = ap suc (length-map us)

-- A corpus of units, each between its two tags, with lines between them that begin with neither
-- "%begin " nor "%end ", gives every unit in its order, described by the text between its tags,
-- where memory is at hand. The lines of a unit begin with neither either.
pub corpus_split-render_all :
    (us : List UnitText) (tail : List Bytes)
    → All IsWellWritten us
    → All (Quiet begin_tag) tail
    → All (Quiet end_tag) tail
    → corpus_split [] (render_all us (unlines tail)) ≡ some (pos (length us), map unit_of us, [])
unfolding corpus_split
corpus_split-render_all us tail w b e =
    let start : Split = record { rc = pos 0; units = []; memory = [] } in
    let text = render_all us (unlines tail) in
    rw
      (
        corpus_split,
        split_loop-render us tail (suc (suc (length text))) start w refl b e
            (omega (arith, length-render_all us (unlines tail))),
      )
      (rw (length-map us) refl)
