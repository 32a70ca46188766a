-- ===== src/PathEntry.antt =====
-- utils/path-entry.c: the tree of the installed paths.
-- An entry owns its list of children, so its `parent` pointer is the entry that holds it.
mod Search
pub mod Paths
pub mod Vars
pub mod Walk
pub mod Relpath
use afb_app_manager.Base.{
  ℕ, suc, ◌+◌, Bool, true, false, not, ◌&&◌, ◌||◌, Option, none, some, List, [], ◌∷◌, Bytes, equal,
  ℤ, pos, enomem, enoent, Memory, alloc, length, is_some, ltb, ◌==◌, if◌then◌else◌,
}

-- A variable of an entry: `disposes` tells that it has a `dispose` function.
pub record Var : Type 0 where
  pub key : ℕ
  pub value : ℕ
  pub disposes : Bool

-- `is_added` and `has_slash` are the two flags.
pub record Label : Type 0 where
  pub name : Bytes
  pub is_added : Bool
  pub has_slash : Bool
  pub vars : List Var

mutual
  pub data Entry : Type 0 where
    entry : Label → Children → Entry

  pub data Children : Type 0 where
    nil : Children
    cons : Entry → Children → Children

abbrev pub label : Entry → Label
label (entry l cs) = l

abbrev pub children : Entry → Children
children (entry l cs) = cs

abbrev pub name : Entry → Bytes
name e = (label e).name

abbrev pub fresh : Bytes → Bool → Entry
fresh n slash = entry (record { name = n; is_added = false; has_slash = slash; vars = [] }) nil

-- `path_entry_create_root`, where its `malloc` succeeds.
abbrev pub root : Entry
root = fresh [] false

unfoldable pub path_entry_create_root : Memory → ℤ × Option Entry × Memory
path_entry_create_root m =
    let (done, m') = alloc m in if done then (pos 0, some root, m') else (enomem, none, m')

unfoldable pub search_child : Bytes → Children → Option Entry
search_child n nil = none
search_child n (cons e es) = if equal (name e) n then some e else search_child n es

-- `strcmp(a, b) < 0`
unfoldable pub before : Bytes → Bytes → Bool
before [] [] = false
before [] (y ∷ ys) = true
before (x ∷ xs) [] = false
before (x ∷ xs) (y ∷ ys) = ltb x y || x == y && before xs ys

-- The insertion of `make_child`: `rest` is the text from the segment to the end of the path, and
-- the loop compares it whole.
unfoldable pub insert_child : Bytes → Entry → Children → Children
insert_child rest e nil = cons e nil
insert_child rest e (cons x xs) =
    if before (name x) rest then cons x (insert_child rest e xs) else cons e (cons x xs)

-- The child of that name, after a change of it.
unfoldable pub replace_child : Bytes → Entry → Children → Children
replace_child n e nil = nil
replace_child n e (cons x xs) =
    if equal (name x) n then cons e xs else cons x (replace_child n e xs)

-- A round of `process`: the segment, and the text of the path from its first byte on.
abbrev pub Round : Type 0
Round = Bytes × Bytes

-- `for (end = beg ; end < length && path[end] != '/' ; end++)`
unfoldable pub segment : Bytes → Bytes
segment [] = []
segment (c ∷ cs) = if c == b'/' then [] else c ∷ segment cs

-- The rounds of `process` on a path: `start` tells that the byte before is a slash or that there
-- is none.
unfoldable pub rounds_from : Bool → Bytes → List Round
rounds_from start [] = []
rounds_from start (c ∷ cs) =
    let rest = rounds_from (c == b'/') cs in
    if start && not (c == b'/') then (segment (c ∷ cs), c ∷ cs) ∷ rest else rest

abbrev pub rounds : Bytes → List Round
rounds path = rounds_from true path

-- The flag of the first round.
abbrev pub starts_with_slash : Bytes → Bool
starts_with_slash [] = false
starts_with_slash (c ∷ cs) = c == b'/'

-- `process` with `search_child`.
unfoldable pub find_entry : Entry → List Round → Option Entry
find_entry e [] = some e
find_entry e ((n, rest) ∷ more) = elim (search_child n (children e)) [
  | none ↦ none
  | some child ↦ find_entry child more
]

-- `process` with `get_child`, and the marking of the entry that it ends at. The result is false
-- where the memory of a new entry is refused.
unfoldable pub add_entry : Memory → Entry → Bool → List Round → Bool × Entry × Memory
add_entry m (entry l cs) slash [] = (true, entry (record l { is_added = true }) cs, m)
add_entry m (entry l cs) slash ((n, rest) ∷ more) =
    let (room, m1) = alloc m in
    let (made, child, m2) = add_entry m1 (fresh n slash) true more in
    elim (search_child n cs) [
      | some old ↦
          let (done, new, m3) = add_entry m old true more in
          (done, entry l (replace_child n new cs), m3)
      | none ↦
          if room then (made, entry l (insert_child rest child cs), m2) else (false, entry l cs, m1)
    ]

unfoldable pub path_entry_add : Memory → Entry → Bytes → ℤ × Entry × Memory
path_entry_add m e path =
    let (done, e', m') = add_entry m e (starts_with_slash path) (rounds path) in
    ((if done then pos 0 else enomem), e', m')

abbrev found : Option Entry → ℤ × Option Entry
found none = (enoent, none)
found (some e) = (pos 0, some e)

unfoldable pub path_entry_get : Entry → Bytes → ℤ × Option Entry
path_entry_get e path = found (find_entry e (rounds path))

abbrev pub path_entry_was_added : Entry → Bool
path_entry_was_added e = (label e).is_added

abbrev pub path_entry_has_child : Entry → Bool
path_entry_has_child e = elim (children e) [ nil ↦ false | cons _ _ ↦ true ]

-- `search_var`
unfoldable pub search_var : ℕ → List Var → Option Var
search_var key [] = none
search_var key (v ∷ vs) = if v.key == key then some v else search_var key vs

abbrev pub path_entry_var : Entry → ℕ → ℕ
path_entry_var e key = elim (search_var key (label e).vars) [ none ↦ 0 | some v ↦ v.value ]

abbrev pub path_entry_var_exists : Entry → ℕ → Bool
path_entry_var_exists e key = is_some (search_var key (label e).vars)

abbrev pub path_entry_var_count : Entry → ℕ
path_entry_var_count e = length (label e).vars

unfoldable pub set_var : ℕ → ℕ → Bool → List Var → List Var
set_var key value disposes [] = []
set_var key value disposes (v ∷ vs) =
    if v.key == key
    then record v { value = value; disposes = disposes } ∷ vs
    else v ∷ set_var key value disposes vs

unfoldable pub del_var : ℕ → List Var → List Var
del_var key [] = []
del_var key (v ∷ vs) = if v.key == key then vs else v ∷ del_var key vs

-- The value that is handed to its `dispose` function, if it has one.
abbrev pub disposed : Option Var → Option ℕ
disposed none = none
disposed (some v) = if v.disposes then some v.value else none

abbrev pub with_vars : Entry → List Var → Entry
with_vars (entry l cs) vs = entry (record l { vars = vs }) cs

-- The code, the entry, and the value disposed of.
unfoldable pub path_entry_var_set : Memory → Entry → ℕ → ℕ → Bool → ℤ × Entry × Option ℕ × Memory
path_entry_var_set m e key value disposes =
    let vs = (label e).vars in
    let (room, m') = alloc m in
    elim (search_var key vs) [
      | some old ↦ (pos 0, with_vars e (set_var key value disposes vs), disposed (some old), m)
      | none ↦
          if room
          then (
            pos 0,
            with_vars e (record { key = key; value = value; disposes = disposes } ∷ vs),
            none,
            m',
          )
          else (enomem, e, none, m')
    ]

unfoldable pub path_entry_var_del : Entry → ℕ → Entry × Option ℕ
path_entry_var_del e key =
    (with_vars e (del_var key (label e).vars), disposed (search_var key (label e).vars))
