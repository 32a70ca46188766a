-- ===== src/FileTypes.antt =====
-- afmpkg/afmpkg.c: the types of the files of a package, kept as variables on its entries.
-- The parent of an entry is the entry that holds it, so a walk that writes on parents is a function on
-- the children with the label of their parent.
pub mod Manifest
pub mod Defaults
pub mod Ample
pub mod Opening
use afb_app_manager.Base.{
  ℕ, suc, ◌+◌, Bool, true, false, not, ◌&&◌, ◌||◌, Option, none, some, List, [], ◌∷◌, ◌++◌, Bytes,
  codes, equal, ℤ, pos, negsuc, is_neg, einval, enoent, eexist, Memory, leb, ◌-◌, ◌==◌,
  if◌then◌else◌,
}
use afb_app_manager.PathEntry.{
  Label, Entry, entry, Children, nil, cons, label, children, name, Round, rounds, search_child,
  replace_child, path_entry_var, path_entry_var_set, path_entry_get,
}
use afb_app_manager.PathEntry.Walk.{Walk, extend, enametoolong}
use afb_app_manager.PathType.{
  PathType, path_type_unset, path_type_default, path_type_conf, path_type_data, path_type_exec,
  path_type_http, path_type_icon, path_type_id, path_type_lib, path_type_plug, path_type_public,
  path_type_public_exec, path_type_public_lib, path_type_of_property_key, path_type_of_dirname,
}

-- The values of the enumeration of utils/path-type.h.
abbrev pub type_code : PathType → ℕ
type_code path_type_unset = 0
type_code path_type_default = 1
type_code path_type_conf = 2
type_code path_type_data = 3
type_code path_type_exec = 4
type_code path_type_http = 5
type_code path_type_icon = 6
type_code path_type_id = 7
type_code path_type_lib = 8
type_code path_type_plug = 9
type_code path_type_public = 10
type_code path_type_public_exec = 11
type_code path_type_public_lib = 12

-- `key_type`
abbrev pub key_type : ℕ
key_type = 1

abbrev pub get_entry_type : Entry → ℕ
get_entry_type e = path_entry_var e key_type

abbrev pub set_entry_type : Memory → Entry → ℕ → ℤ × Entry × Memory
set_entry_type m e type =
    let (rc, e', old, m') = path_entry_var_set m e key_type type false in (rc, e', m')

-- The two on the label of an entry.
unfoldable pub type_of_label : Label → ℕ
type_of_label l = get_entry_type (entry l nil)

unfoldable pub set_label_type : Memory → Label → ℕ → ℤ × Label × Memory
set_label_type m l type = let (rc, e, m') = set_entry_type m (entry l nil) type in (rc, label e, m')

-- `put_state_rc`
abbrev pub put_state_rc : ℤ → ℤ → ℤ
put_state_rc state_rc rc = if is_neg rc && not (is_neg state_rc) then rc else state_rc

-- `rc` of the state and the memory.
abbrev pub Status : Type 0
Status = ℤ × Memory

-- `reset_type_cb` on each entry below the package, the entries below it first.
unfoldable pub reset_types : Status → Children → Children × Status
reset_types s nil = (nil, s)
reset_types s (cons (entry l cs) es) =
    let (cs', (rc1, m1)) = reset_types s cs in
    let (rc, l', m2) = set_label_type m1 l (type_code path_type_unset) in
    let (es', s3) = reset_types (put_state_rc rc1 rc, m2) es in (cons (entry l' cs') es', s3)

-- What `fstatat` tells of a path: the kind of the file, or the error, where `failed n` is that `errno`
-- is n + 1.
pub data Stat : Type 0 where
  failed : ℕ → Stat
  regular directory other : Stat

abbrev or_type : ℕ → ℕ → ℕ
or_type a b = if a == 0 then b else a

abbrev type_of_dir : Stat → Bytes → ℕ
type_of_dir directory name = type_code (path_type_of_dirname name)
type_of_dir _ name = 0

-- The type of an entry that has none: of the name of the directory, of the parent, or `path_type_Id`.
abbrev pub default_type : Stat → ℕ → Bytes → ℕ
default_type stat parent name =
    or_type (or_type (type_of_dir stat name) parent) (type_code path_type_id)

abbrev give_default : Memory → Stat → ℕ → Label → ℤ × Label × Memory
give_default m stat parent l =
    if type_of_label l == 0
    then set_label_type m l (default_type stat parent l.name)
    else (pos 0, l, m)

-- `compute_default_files_properties_cb`, without its `put_state_rc`.
abbrev pub default_entry : Memory → Stat → ℕ → Label → ℤ × Label × Memory
default_entry m (failed n) parent l = (negsuc n, l, m)
default_entry m other parent l = (einval, l, m)
default_entry m regular parent l = give_default m regular parent l
default_entry m directory parent l = give_default m directory parent l

abbrev pub is_ok : ℤ → Bool
is_ok (pos n) = n == 0
is_ok _ = false

-- The walk of `compute_default_files_properties_cb`, from the entries to those below them; `stat` is
-- given the path in the buffer. The first component is what the walk returns.
unfoldable pub default_types :
    Walk → (Bytes → Stat) → ℕ → Bytes → Status → Children → ℤ × Children × Status
default_types w stat parent path s nil = (pos 0, nil, s)
default_types w stat parent path (src, m) (cons (entry l cs) es) = elim (extend w path l) [
  | none ↦ (enametoolong, cons (entry l cs) es, (src, m))
  | some p ↦
      let (rc1, l', m1) = default_entry m (stat p) parent l in
      let s1 : Status = (put_state_rc src rc1, m1) in
      let (rc2, cs', s2) = default_types w stat (type_of_label l') p s1 cs in
      let (rc3, es', s3) = default_types w stat parent path s2 es in
      if not (is_ok rc1)
      then (rc1, cons (entry l' cs) es, s1)
      else if not (is_ok rc2)
      then (rc2, cons (entry l' cs') es, s2)
      else (rc3, cons (entry l' cs') es', s3)
]

-- `compute_public_files_properties_cb` on an entry below the package: the type of the entry and the
-- label of its parent.
unfoldable pub open_parent : Memory → ℕ → Label → Label × Memory
open_parent m type parent =
    let (rc1, plug, m1) = set_label_type m parent (type_code path_type_plug) in
    let (rc2, opened, m2) = set_label_type m parent (type_code path_type_public) in
    if type == 9
    then (if type_of_label parent == 10 then (parent, m) else (plug, m1))
    else if leb 10 type && leb type 12
    then (opened, m2)
    else (parent, m)

-- Its walk over the entries below an entry, those below first; the label is that of the entry.
unfoldable pub open_types : Memory → Label → Children → Label × Children × Memory
open_types m parent nil = (parent, nil, m)
open_types m parent (cons (entry l cs) es) =
    let (l', cs', m1) = open_types m l cs in
    let (parent', m2) = open_parent m1 (type_of_label l') parent in
    let (parent2, es', m3) = open_types m2 parent' es in (parent2, cons (entry l' cs') es', m3)
