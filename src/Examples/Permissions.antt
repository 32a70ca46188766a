-- ===== src/Examples/Permissions.antt =====
-- The permission set of utils/permset.c and the path tree of utils/path-entry.c on small inputs.
use afb_app_manager.Base.{true, false, some, [], ◌∷◌, Bytes, codes, ◌≡◌, refl, arith, ◌||◌, equal}
use afb_app_manager.Permset.{
  Permset, create, get, add, enter, grow, settle, find, mark_first, add_list, is_separator,
}
use afb_app_manager.Permset.Flags.{get-add}
use afb_app_manager.Permset.Bounds.{IsValid, add-IsValid}
use afb_app_manager.Permset.Words.{
  add_list-eq-add_all, add_list-Added, add_all, words, words_from, Added,
}
use afb_app_manager.PathEntry.{
  root, path_entry_add, add_entry, rounds, rounds_from, segment, search_child,
}
use afb_app_manager.PathEntry.Paths.{path_entry_add-Grown, has, has_added, is_prefix, same_path}

abbrev camera : Bytes
camera = codes "cam"

abbrev radio : Bytes
radio = codes "fm"

-- One permission that is requested, in a block of 8 entries.
abbrev one : Permset
one = record {
  permissions = record { name = camera; granted = false; requested = true } ∷ [];
  slots = 8;
  index = 0;
}

one-IsValid : IsValid one
unfolding find
one-IsValid = record { distinct = (refl, tt); fits = omega arith; by_eight = refl }

get-add_example :
    get (add [] one camera true false).1 camera
    ≡ some (record { name = camera; granted = true; requested = true })
unfolding add settle find equal mark_first
get-add_example = get-add [] one camera camera true false refl

create-IsValid : IsValid create
unfolding create
create-IsValid = record { distinct = tt; fits = omega arith; by_eight = refl }

add-IsValid_example : IsValid (add [] one radio true false).1
add-IsValid_example = add-IsValid [] one radio true false one-IsValid (omega arith)

abbrev wanted : Bytes
wanted = codes ", cam fm\n"

add_list-eq-add_all_example :
    add_list [] one wanted true false ≡ some (add_all [] one (words wanted) true false true)
add_list-eq-add_all_example = add_list-eq-add_all [] one wanted true false

add_list-Added_example :
    Added one (add_all [] one (words wanted) true false true).1 (words wanted) true false radio
unfolding add settle enter grow find equal mark_first add_all words words_from is_separator
add_list-Added_example =
    add_list-Added [] one wanted true false radio (add_list-eq-add_all [] one wanted true false)
      refl

abbrev usr_bin : Bytes
usr_bin = codes "/usr//bin"

abbrev usr : Bytes
usr = codes "usr"

path_entry_add-Grown_example :
    (has (path_entry_add [] root usr_bin).1 (rounds usr)
      ≡ (has root (rounds usr) || is_prefix (rounds usr) (rounds usr_bin)))
    × (has_added (path_entry_add [] root usr_bin).1 (rounds usr)
        ≡ (has_added root (rounds usr) || same_path (rounds usr) (rounds usr_bin)))
path_entry_add-Grown_example =
    path_entry_add-Grown [] root usr_bin usr
      (unfold path_entry_add add_entry rounds_from segment search_child in refl)
