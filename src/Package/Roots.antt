-- ===== src/Package/Roots.antt =====
-- afmpkg/afmpkg.c: the packages among the installed paths are found and processed, and then the paths that
-- are in no package.
-- A pointer to an entry is the labels on the way to it, its own first, without that of the root.
use afb_app_manager.Base.{
  ℕ, ◌+◌, ◌-◌, ◌*◌, Bool, true, false, ◌&&◌, Option, none, some, List, [], ◌∷◌, ◌++◌, Bytes, ℤ, pos,
  enomem, length, leb, ltb, ◌==◌, Memory, alloc, is_neg, is_some, if◌then◌else◌,
}
use mathlib.Core.List.{reverse, map}
use afb_app_manager.Afid.{Manager}
use afb_app_manager.Permset.{create}
use afb_app_manager.PathType.{path_type_default}
use afb_app_manager.FileTypes.{type_code}
use afb_app_manager.PathEntry.{
  Label, Entry, entry, Children, nil, cons, label, children, Round, find_entry, path_entry_get,
  path_entry_has_child,
}
use afb_app_manager.PathEntry.Relpath.{Relpath, text, path_entry_relpath, path_entry_destroy}
use afb_app_manager.PathEntry.Walk.{Walk, and_then, enametoolong, path_entry_for_each_in_buffer}
use afb_app_manager.UnitProcess.Corpus.{is_zero}
use afb_app_manager.UnitProcess.Template.{Units, is_positive}
use afb_app_manager.Package.{
  State, Host, Mode, is_install, Afmpkg, Kind, name_manifest, name_config, name_of, path_max,
}
use afb_app_manager.Package.Process.{process_package}

-- `rootpkg_item_t`
pub record Item : Type 0 where
  pub way : List Label
  pub type : Kind

-- `rootpkgs_t`: the items up to `count`, and whether the array is still the one inside the structure.
pub record Rootpkgs : Type 0 where
  pub count : ℕ
  pub alloc : ℕ
  pub roots : List Item
  pub is_default : Bool

abbrev pub rootpkgs_init : Rootpkgs
rootpkgs_init = record { count = 0; alloc = 10; roots = []; is_default = true }

abbrev with_item : Rootpkgs → Item → Rootpkgs
with_item r i = record r { count = r.count + 1; roots = r.roots ++ (i ∷ []) }

unfoldable pub rootpkgs_add : Memory → Rootpkgs → Item → ℤ × Rootpkgs × Memory
rootpkgs_add m r i =
    let (room, m') = alloc m in
    if r.count == r.alloc
    then (if room
        then (pos 0, with_item (record r { alloc = 2 * r.alloc; is_default = false }) i, m')
        else (enomem, r, m'))
    else (pos 0, with_item r i, m)

abbrev has_file : Entry → Kind → Bool
has_file e kind = let (rc, found) = path_entry_get e (name_of kind) in is_some found

-- The manifest of an entry, if it is the root of a package.
unfoldable pub package_type : Entry → Option Kind
package_type e =
    if path_entry_has_child e
    then (if has_file e name_manifest
        then some name_manifest
        else if has_file e name_config
        then some name_config
        else none)
    else none

-- The roots found, and the memory.
abbrev pub Roots : Type 0
Roots = Rootpkgs × Memory

abbrev pub add_if : List Label → Option Kind → Roots → ℤ × Roots
add_if way none (r, m) = (pos 0, (r, m))
add_if way (some kind) (r, m) =
    let (rc, r', m') = rootpkgs_add m r (record { way = way; type = kind }) in (rc, (r', m'))

unfoldable pub detect_package_roots_cb : List Label → Entry → Roots → ℤ × Roots
unfolding rootpkgs_add
detect_package_roots_cb way e r = add_if way (package_type e) r

-- The walk of `afmpkg_process` with it: each entry after those below it.
unfoldable pub detect_roots : List Label → Children → Roots → ℤ × Roots
detect_roots up nil r = (pos 0, r)
detect_roots up (cons (entry l cs) es) r = and_then (detect_roots (l ∷ up) cs r) (λ r1.
    and_then (detect_package_roots_cb (l ∷ up) (entry l cs) r1) (λ r2. detect_roots up es r2))

unfoldable pub detect_all : Entry → Roots → ℤ × Roots
unfolding detect_roots detect_package_roots_cb
detect_all files r =
    and_then (detect_roots [] (children files) r) (detect_package_roots_cb [] files)

-- What lasts from a package to the next.
pub record Whole (S : Type 0) : Type 0 where
  pub files : Option Entry
  pub units : Units
  pub afids : Manager
  pub world : S

-- The path of a package behind the root directory; `none` where the code reads a NULL entry or writes
-- beyond `path`.
abbrev pub placed : Bytes → Relpath → Option Bytes
placed root (text t) = if ltb (length root + length t) path_max then some (root ++ t) else none
placed root other = none

unfoldable pub pack_of : Bytes → Label → List Label → Option Bytes
pack_of root top way =
    placed root
      (path_entry_relpath (record { forced = true; no_leading = false }) none (way ++ (top ∷ [])))

abbrev pub rounds_of : List Label → List Round
rounds_of way = reverse (map (λ l. (l.name, [])) way)

-- A code and a state, or an undefined behaviour.
abbrev pub Run : Type 0 → Type 0
Run S = Option (ℤ × Whole S)

abbrev pub while_zero : {S : Type 0} → (Whole S → Run S) → Run S → Run S
while_zero next none = none
while_zero next (some (rc, w)) = if is_zero rc then next w else some (rc, w)

module _ {J S : Type 0} (host : Host J S) (apkg : Afmpkg) (mode : Mode) (root : Bytes) where
  abbrev pub start_of : Whole S → Entry → Bytes → State S
  start_of w e pack = record {
    rc = pos 0;
    packdir = e;
    permset = create;
    units = w.units;
    afids = w.afids;
    pack = pack;
    tail = some [];
    world = w.world;
  }

  abbrev pub process_at : Whole S → Entry → Item → Option Entry → Option Bytes → Run S
  process_at w files i none pack = none
  process_at w files i (some e) none = none
  process_at w files i (some e) (some pack) =
      let (rc, s) = process_package host root apkg mode i.type (start_of w e pack) in
      some (
        rc,
        record {
          files = path_entry_destroy files (rounds_of i.way);
          units = s.units;
          afids = s.afids;
          world = s.world;
        },
      )

  -- `none` where the entry is no longer there.
  abbrev pub process_in : Whole S → Item → Option Entry → Run S
  process_in w i none = none
  process_in w i (some files) =
      process_at w files i (find_entry files (rounds_of i.way)) (pack_of root (label files) i.way)

  unfoldable pub process_rootpkg : Item → Whole S → Run S
  process_rootpkg i w = process_in w i w.files

  -- `rootpkgs_for_each` with it: the calls go on while they return 0.
  unfoldable pub process_roots : List Item → Whole S → Run S
  unfolding process_rootpkg
  process_roots [] w = some (pos 0, w)
  process_roots (i ∷ is) w = while_zero (process_roots is) (process_rootpkg i w)

  abbrev pub tag_default : S → Entry → Bytes → ℤ × S
  tag_default w e p = host.opers.tagfile (root ++ p) (type_code path_type_default) w

  abbrev pub added_walk : Walk
  added_walk = record {
    only_added = true;
    at_entry = true;
    at_exit = false;
    no_path = false;
    size = path_max - length root;
  }

  -- The first walk of `process_default_tree` stops at the first path of the original set.
  unfoldable pub has_added_path : Entry → Bool
  has_added_path files =
      let (rc, u) =
        path_entry_for_each_in_buffer (record added_walk { no_path = true }) false
          (λ (u : Bool) e p. (pos 1, u)) files [] true in
      is_positive rc

  -- `begin`, the tags and `end`.
  unfoldable pub tag_tree : Entry → S → ℤ × S
  tag_tree files w =
      let (rc, w1) = host.opers.begin none mode w in
      let (rc2, w2) = path_entry_for_each_in_buffer added_walk false tag_default files [] w1 in
      if is_neg rc then host.opers.end rc w1 else host.opers.end rc2 w2

  unfoldable pub process_default_tree : Entry → S → ℤ × S
  unfolding tag_tree
  process_default_tree files w =
      if is_install mode && has_added_path files then tag_tree files w else (pos 0, w)

  -- The end of `afmpkg_process`, where the code of the packages is no error.
  abbrev pub process_rest : ℤ → Whole S → Option Entry → ℤ × Whole S
  process_rest rc w none = (rc, w)
  process_rest rc w (some files) =
      let (rc2, world) = process_default_tree files w.world in (rc2, record w { world = world })

  abbrev pub finish : Run S → Run S
  finish none = none
  finish (some (rc, w)) = some (if is_neg rc then (rc, w) else process_rest rc w w.files)

  unfoldable pub process_found : ℤ × Roots → Whole S → Run S
  unfolding process_roots
  process_found (rc, (r, m)) w =
      let w1 : Whole S = record w { units = record w.units { memory = m } } in
      if is_neg rc then some (rc, w1) else finish (process_roots r.roots w1)

-- `apkg->root` without the slashes at its end.
unfoldable pub strip_last : Bytes → Bytes
strip_last [] = []
strip_last (c ∷ cs) = if c == b'/' then strip_last cs else c ∷ cs

abbrev pub root_path : Option Bytes → Bytes
root_path none = []
root_path (some r) = reverse (strip_last (reverse r))

abbrev pub is_too_long : Option Bytes → Bool
is_too_long none = false
is_too_long (some r) = leb path_max (length r)

unfoldable pub afmpkg_process : {J S : Type 0} → Host J S → Afmpkg → Mode → Entry → Whole S → Run S
unfolding detect_all
afmpkg_process host apkg mode files w =
    if is_too_long apkg.root
    then some (enametoolong, w)
    else process_found host apkg mode (root_path apkg.root)
        (detect_all files (rootpkgs_init, w.units.memory)) (record w { files = some files })
