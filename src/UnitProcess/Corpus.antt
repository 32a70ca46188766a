-- ===== src/UnitProcess/Corpus.antt =====
-- units/unit-process.c: a corpus is split into units, and each unit is described.
use afb_app_manager.Base.{
  ℕ, zero, suc, ◌-◌, Bool, true, false, not, ◌||◌, Option, none, some, List, [], ◌∷◌, ◌++◌, Bytes,
  codes, ℤ, pos, einval, enomem, Memory, alloc, length, ltb, ◌==◌, if◌then◌else◌, is_some, take,
  is_neg,
}
use afb_app_manager.UnitProcess.{isblank, matches, offset, pack}

-- units/unit-desc.h
pub data Scope : Type 0 where
  scope_unknown scope_system scope_user : Scope

pub data UnitType : Type 0 where
  type_unknown type_service type_socket : UnitType

pub record UnitDesc : Type 0 where
  pub scope : Scope
  pub type : UnitType
  pub name : Option Bytes
  pub name_length : ℕ
  pub content : Bytes
  pub content_length : ℕ
  pub wanted_by : Option Bytes
  pub wanted_by_length : ℕ

-- `strcspn(text, " \t\n")` bytes of the text.
unfoldable pub word_of : Bytes → Bytes
word_of [] = []
word_of (c ∷ cs) = if isblank c || c == b'\n' then [] else c ∷ word_of cs

-- `strndup`
abbrev strndup : Memory → Bytes → Option Bytes × Memory
strndup m t = let (room, m') = alloc m in ((if room then some t else none), m')

abbrev scope_of : Bool → Bool → Scope
scope_of true false = scope_user
scope_of false true = scope_system
scope_of _ _ = scope_unknown

abbrev pub Named : Type 0
Named = UnitType × Option Bytes × ℕ × Memory

abbrev named : Memory → UnitType → Bytes → Named
named m type text =
    let name = word_of text in
    let (copy, m') = strndup m name in (type, copy, (if is_some copy then length name else 0), m')

-- The type, from the two directives and what stands behind them.
abbrev pub type_of : Memory → Option (Bytes × Bytes) → Option (Bytes × Bytes) → Named
type_of m (some (line, text)) none = named m type_socket text
type_of m none (some (line, text)) = named m type_service text
type_of m _ _ = (type_unknown, none, 0, m)

abbrev pub wanted_of : Memory → Option (Bytes × Bytes) → Option Bytes × ℕ × Memory
wanted_of m none = (none, 0, m)
wanted_of m (some (line, text)) =
    let (copy, m') = strndup m (word_of text) in (copy, length (word_of text), m')

unfoldable pub process_one_unit : Memory → Bytes → UnitDesc × Memory
process_one_unit m spec =
    let isuser = is_some (offset spec (codes "%systemd-unit user" ++ b'\n' ∷ [])) in
    let issystem = is_some (offset spec (codes "%systemd-unit system" ++ b'\n' ∷ [])) in
    let sock = offset spec (codes "%systemd-unit socket ") in
    let serv = offset spec (codes "%systemd-unit service ") in
    let wanted = offset spec (codes "%systemd-unit wanted-by ") in
    let (type, name, name_length, m1) = type_of m sock serv in
    let (wanted_by, wanted_by_length, m2) = wanted_of m1 wanted in
    let content = pack spec b'%' in
    let unit : UnitDesc = record {
      scope = scope_of isuser issystem;
      type = type;
      name = name;
      name_length = name_length;
      content = content;
      content_length = length content;
      wanted_by = wanted_by;
      wanted_by_length = wanted_by_length;
    } in
    (unit, m2)

-- `rc`, `arrunits` and the memory.
pub record Split : Type 0 where
  pub rc : ℤ
  pub units : List UnitDesc
  pub memory : Memory

abbrev pub is_zero : ℤ → Bool
is_zero (pos n) = n == 0
is_zero _ = false

-- `rc = rc ? rc : rc2`
abbrev pub note_error : ℤ → Split → Split
note_error rc2 s = record s { rc = if is_zero s.rc then rc2 else s.rc }

-- The rest of the corpus, with none for NULL.
abbrev pub Step : Type 0
Step = Option Bytes × Split

-- The bytes between two pointers of a text.
abbrev pub between : Bytes → Bytes → Bytes
between from to = take (length from - length to) from

-- `matches("systemd-unit\n", ...)`
abbrev pub unit_tag : Bytes
unit_tag = codes "systemd-unit" ++ b'\n' ∷ []

-- A unit from `beg` up to its end; its text behind the tag is `spec`.
unfoldable pub extract : Split → Bytes → Bytes → Step
extract s spec aftend =
    let (room, m1) = alloc s.memory in
    let (unit, m2) = process_one_unit m1 spec in
    elim (matches unit_tag aftend) [
      | none ↦ (some aftend, note_error einval s)
      | some corpus ↦
          if not room
          then (none, note_error enomem (record s { memory = m1 }))
          else (some corpus, record s { units = s.units ++ (unit ∷ []); memory = m2 })
    ]

-- `befbeg && befbeg < end`, where `befbeg` is the next beginning.
unfoldable pub begins_again : Bytes → Bytes → Bool
begins_again beg end = elim (offset beg (codes "%begin ")) [
  | none ↦ false
  | some (next, after) ↦ ltb (length end) (length next)
]

-- A round of `corpus_split`.
unfoldable pub split_step : Bytes → Split → Step
split_step corpus s = elim (offset corpus (codes "%begin ")) [
  | none ↦ elim (offset corpus (codes "%end ")) [
    | none ↦ (none, s)
    | some _ ↦ (none, note_error einval s)
  ]
  | some (befbeg, beg) ↦ elim (offset corpus (codes "%end ")) [
    | none ↦ (none, note_error einval s)
    | some (end, aftend) ↦
        if ltb (length befbeg) (length end)
        then (none, note_error einval s)
        else if begins_again beg end
        then (none, note_error einval s)
        else elim (matches unit_tag (between beg end)) [
          | none ↦ (some aftend, note_error einval s)
          | some spec ↦ extract s spec aftend
        ]
  ]
]

-- The loop, a round for each unit of fuel; `none` is out of fuel.
unfoldable pub split_loop : ℕ → Option Bytes → Split → Option Split
split_loop fuel none s = some s
split_loop zero (some corpus) s = none
split_loop (suc fuel) (some corpus) s =
    let (next, s') = split_step corpus s in split_loop fuel next s'

-- The units are handed over where there is no error.
abbrev outcome : Split → ℤ × List UnitDesc × Memory
outcome s = if is_neg s.rc then (s.rc, [], s.memory) else (pos (length s.units), s.units, s.memory)

-- `corpus_split`
unfoldable pub corpus_split : Memory → Bytes → Option (ℤ × List UnitDesc × Memory)
corpus_split m corpus =
    elim (split_loop (suc (suc (length corpus))) (some corpus)
      (record { rc = pos 0; units = []; memory = m })) [ none ↦ none | some s ↦ some (outcome s) ]
