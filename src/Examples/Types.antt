-- ===== src/Examples/Types.antt =====
-- A package with a directory of programs and a file that is public.
use afb_app_manager.Base.{
  true, false, Option, some, none, List, [], ◌∷◌, Bytes, codes, equal, pos, is_neg, ◌≡◌, refl,
  if◌then◌else◌,
}
use afb_app_manager.PathEntry.{
  Entry, root, path_entry_add, add_entry, label, children, search_child, insert_child,
  replace_child, before, segment, rounds_from, find_entry, search_var, set_var, path_entry_var_set,
  path_entry_get,
}
use afb_app_manager.PathEntry.Walk.{Walk, extend}
use afb_app_manager.FileTypes.{
  Stat, regular, directory, type_of_label, set_label_type, default_types, open_parent, open_types,
  reset_types,
}
use afb_app_manager.FileTypes.Manifest.{
  JsonC, State, compute_files_properties, for_each_of_array, compute_explicit_file_properties_cb,
  change_entry,
}
use afb_app_manager.FileTypes.Opening.{Opened}
use afb_app_manager.FileTypes.Ample.{compute_files_properties-Opened}
use afb_app_manager.PathType.{type_of_key, type_of_dir}

-- The values of a manifest that gives one property to one file.
data Value : Type 0 where
  manifest properties property name value : Value

abbrev get_ex : Value → Bytes → Option Value
get_ex manifest key = if equal key (codes "file-properties") then some properties else none
get_ex property key =
    if equal key (codes "name")
    then some name
    else if equal key (codes "value")
    then some value
    else none
get_ex _ key = none

abbrev get_string : Value → Bytes
get_string name = codes "a/b"
get_string value = codes "public"
get_string _ = []

abbrev items : Value → List Value
items properties = property ∷ []
items v = v ∷ []

abbrev json : JsonC Value
json = record { get_ex = get_ex; get_string = get_string; items = items }

abbrev files : Entry
files = (path_entry_add [] (path_entry_add [] root (codes "bin/p")).1 (codes "a/b")).1

abbrev start : State
start = record { rc = pos 0; packdir = files; memory = [] }

abbrev walk : Walk
walk = record { only_added = false; at_entry = true; at_exit = false; no_path = false; size = 4096 }

abbrev stat : Bytes → Stat
stat path = if equal path (codes "bin") then directory else regular

done : is_neg ((compute_files_properties json walk stat manifest start).rc) ≡ false
unfolding compute_files_properties add_entry search_child insert_child replace_child before segment
    rounds_from find_entry search_var set_var path_entry_var_set path_entry_get extend type_of_label
    set_label_type default_types open_parent open_types reset_types for_each_of_array
    compute_explicit_file_properties_cb change_entry equal type_of_key type_of_dir path_entry_add
done = refl

compute_files_properties-Opened_example :
    Opened
      (label (compute_files_properties json walk stat manifest start).packdir)
      (children (compute_files_properties json walk stat manifest start).packdir)
compute_files_properties-Opened_example =
    compute_files_properties-Opened json walk stat manifest start refl done

settled : (default_types walk stat 7 [] (pos 0, []) (children files)).0 ≡ pos 0
unfolding add_entry search_child insert_child replace_child before segment rounds_from find_entry
    search_var set_var path_entry_var_set extend type_of_label set_label_type default_types equal
    type_of_dir path_entry_add
settled = refl
