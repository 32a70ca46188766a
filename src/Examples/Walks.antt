-- ===== src/Examples/Walks.antt =====
-- Walks over the path tree of utils/path-entry.c.
use afb_app_manager.Base.{true, false, List, [], ◌∷◌, ◌++◌, Bytes, codes, ℤ, pos, equal, ◌≡◌, refl}
use afb_app_manager.PathEntry.{
  Entry, root, path_entry_add, rounds_from, segment, add_entry, search_child, insert_child,
  replace_child, before,
}
use afb_app_manager.PathEntry.Walk.{Walk, path_entry_for_each_in_buffer, extend, do_foreach}

-- "/bin/sh" and "/etc".
abbrev tree : Entry
tree = (path_entry_add [] (path_entry_add [] root (codes "/etc")).1 (codes "/bin/sh")).1

abbrev added_first : Walk
added_first = record {
  only_added = true;
  at_entry = true;
  at_exit = false;
  no_path = false;
  size = 100;
}

-- The paths that the function is given.
abbrev record_path : List Bytes → Entry → Bytes → ℤ × List Bytes
record_path paths e path = (pos 0, paths ++ path ∷ [])

added_paths :
    path_entry_for_each_in_buffer added_first false record_path tree [] []
    ≡ (pos 0, codes "/bin/sh" ∷ codes "/etc" ∷ [])
unfolding path_entry_for_each_in_buffer do_foreach extend path_entry_add add_entry rounds_from
    segment search_child insert_child replace_child before equal
added_paths = refl
