-- ===== src/Examples/Packages.antt =====
-- A package and a file beside it, installed with a security manager that accepts everything.
use afb_app_manager.Standard.OnePackage
use afb_app_manager.Standard.OnePackage.{Ended, process_package-Ended}
use afb_app_manager.Base.{
  true, false, Option, none, some, List, [], ◌∷◌, Bytes, codes, equal, ℤ, pos, refl, ◌≡◌,
  if◌then◌else◌,
}
use afb_app_manager.PathEntry.{
  Entry, root, path_entry_add, insert_child, add_entry, segment, search_child, rounds_from,
  path_entry_var_set, search_var, before, path_entry_get, set_var, find_entry,
}
use afb_app_manager.FileTypes.{
  regular, set_label_type, default_types, open_parent, reset_types, type_of_label, open_types,
}
use afb_app_manager.Permits.{
  json_type_object, json_type_string, setup_permissions, permit_list, check_permissions,
  check_permissions_cb, permit_selected,
}
use afb_app_manager.Afid.{Manager}
use afb_app_manager.UnitProcess.Template.{Units, unit_process_split, unit_process_open_template}
use afb_app_manager.UnitOper.{System}
use afb_app_manager.Secmgr.{Call, Library}
use afb_app_manager.Secmgr.Sessions.{handle_after}
use afb_app_manager.Package.{
  JsonC, Host, was_read, unread, Afmpkg, afmpkg_install, for_each_entry, name_manifest, State,
}
use afb_app_manager.Package.Roots.{
  Whole, Run, process_found, pack_of, afmpkg_process, has_added_path, package_type,
  process_default_tree, Item, process_roots, detect_all, rootpkgs_init,
}
use afb_app_manager.Standard.{
  Closure, operations, afmpkg_std_install, std_process, initial, begin, end, tagfile, setperm,
  with_operations,
}
use afb_app_manager.Standard.Clean.{LeavesSession, Idle, commits}
use afb_app_manager.Standard.Whole.{std_process-IsClean}
use afb_app_manager.PathEntry.Walk.{do_foreach, extend, path_entry_for_each_in_buffer}
use afb_app_manager.Package.Content.{check_contents}
use afb_app_manager.Package.Process.{
  process_package, install_afmpkg, permissions_step, files_step, process_manifest, process_units,
}
use afb_app_manager.Package.Security.{setup_files_properties, setup_security}
use afb_app_manager.FileTypes.Manifest.{for_each_of_array, compute_files_properties}
use afb_app_manager.UnitProcess.Corpus.{split_step, corpus_split, split_loop}
use afb_app_manager.Permset.{select_first, create}
use afb_app_manager.UnitProcess.{offset_from, dedup_from, matches}
use afb_app_manager.PathEntry.Relpath.{
  is_first, path_entry_relpath, path_entry_destroy, remove_child,
}
use afb_app_manager.Package.Meta.{add_meta_to_manifest}

-- The values of a manifest that has an identifier only.
data Value : Type 0 where
  object : Value
  text : Bytes → Value

abbrev get_ex : Value → Bytes → Option Value
get_ex object key = if equal key (codes "id") then some (text (codes "app")) else none
get_ex v key = none

abbrev get_string : Value → Bytes
get_string (text t) = t
get_string v = []

abbrev json : JsonC Value
json = record {
  get_type = λ v. elim v [ object ↦ json_type_object | text t ↦ json_type_string ];
  get_ex = get_ex;
  get_string = get_string;
  members = λ v. [];
  items = λ v. [];
  optitems = λ v. v ∷ [];
  with_items = λ v vs. v;
  object_add = λ v key item. v;
  pack_target = λ afid port. some object;
  pack_metadata = λ dir icons redpak id base. some object;
}

abbrev Files : Type 0
Files = Unit {0}

abbrev system : System Files
system = record {
  put = λ s p content. (pos 0, s);
  unlink = λ s p. (pos 0, s);
  symlink = λ s target p. (pos 0, s);
  access = λ s p. false;
  stop = λ s b t. (pos 0, s);
}

abbrev answer : List Call → Call → ℤ
answer cs c = pos 0

abbrev library : Library
library = record { answer = answer; leaves_handle = false }

abbrev host : Host Value (Closure Files)
host = record {
  json = json;
  opers = operations library system (codes "/u");
  disk = record { stat = λ s p. regular; overrun = λ s. regular; chmod = λ p s. (pos 0, s) };
  tools = record { file_get = (pos 0, []); apply_mustach = λ t j. (pos 0, []) };
  read = λ kind p s. was_read object;
  scan = record { system_ids = []; user_ids = []; rcs = pos 0; rcu = pos 0 };
  app_dir = codes "/a";
  icon_dir = codes "/i";
}

host-LeavesSession : LeavesSession host
host-LeavesSession = record { session_kept = λ p s. refl; mode_kept = λ p s. refl }

abbrev entries : Entry
entries =
    (path_entry_add [] (path_entry_add [] root (codes "/p/.rpconfig/manifest.yml")).1
      (codes "/other")).1

abbrev apkg : Afmpkg
apkg = record { root = none; redpakid = none; redpak_auto = none }

abbrev units : Units
units = record { template = none; memory = [] }

abbrev afids : Manager
afids = record { init_done = true; array = [] }

abbrev installed : Run (Closure Files)
installed = afmpkg_std_install library system (codes "/u") host apkg entries units afids [] tt

abbrev world_of : Run (Closure Files) → Whole (Closure Files)
world_of none = record { files = none; units = units; afids = afids; world = initial [] tt }
world_of (some (rc, w)) = w

abbrev begun : Whole (Closure Files)
begun = record { files = some entries; units = units; afids = afids; world = initial [] tt }

-- The package of the entry "p".
abbrev found : List Item
found =
    record {
      way = record { name = codes "p"; is_added = false; has_slash = true; vars = [] } ∷ [];
      type = name_manifest;
    }
    ∷ []

runs :
    (installed ≡ some (pos 0, world_of installed))
    × ((detect_all entries (rootpkgs_init, [])).1.0.roots ≡ found)
unfolding std_process afmpkg_process process_found path_entry_add add_entry rounds_from search_child
    insert_child equal segment before package_type path_entry_get find_entry pack_of
    path_entry_relpath is_first process_package process_manifest add_meta_to_manifest end begin
    install_afmpkg permissions_step check_contents files_step compute_files_properties
    path_entry_var_set search_var check_permissions check_permissions_cb reset_types set_label_type
    for_each_of_array default_types extend type_of_label setup_files_properties for_each_entry
    path_entry_for_each_in_buffer do_foreach open_types open_parent set_var setup_security tagfile
    setup_permissions permit_selected select_first create permit_list setperm process_units
    unit_process_split unit_process_open_template corpus_split split_loop split_step offset_from
    dedup_from matches path_entry_destroy process_default_tree has_added_path remove_child
runs = (refl, refl)

-- Where the manifest cannot be read.
abbrev unreadable : Host Value (Closure Files)
unreadable = record host { read = λ kind p s. unread 1 }

abbrev processed : Run (Closure Files)
processed =
    process_roots (with_operations library system (codes "/u") unreadable) apkg afmpkg_install []
      found begun

std_process-IsClean_example :
    let w = world_of installed in
    (w.world.session.is_open ≡ false) × (handle_after library w.world.session.calls ≡ some false)
std_process-IsClean_example =
    std_process-IsClean library system (codes "/u") host refl host-LeavesSession afmpkg_install apkg
      entries units afids [] tt (pos 0) (world_of installed) (unfold handle_after in refl) runs.0

begun-Idle : Idle library 0 begun.world
unfolding handle_after commits
begun-Idle = record { closed = refl; lawful = refl; made = refl }

abbrev app : State (Closure Files)
app = record {
  rc = pos 0;
  packdir = entries;
  permset = create;
  units = units;
  afids = afids;
  pack = codes "/p";
  tail = some [];
  world = initial [] tt;
}

process_package-Ended_example : Ended library system (codes "/u") [] host afmpkg_install 0 (
    OnePackage.world_of library system
      (codes "/u")
      []
      host
      afmpkg_install
      (process_package host [] apkg afmpkg_install name_manifest app))
process_package-Ended_example =
    process_package-Ended library system (codes "/u") [] host afmpkg_install refl host-LeavesSession
      apkg name_manifest 0 app begun-Idle
