-- ===== src/Package.antt =====
-- afmpkg/afmpkg.c: the state of a package that is processed, and what the steps share.
pub mod Content
pub mod Meta
pub mod Security
pub mod Process
pub mod Roots
pub mod Keeps
pub mod Steps
use afb_app_manager.Base.{
  ℕ, suc, ◌+◌, ◌-◌, Bool, true, false, not, Option, none, some, List, [], ◌∷◌, ◌++◌, Bytes, codes,
  ℤ, pos, einval, Memory, length, take, ltb, is_neg, if◌then◌else◌,
}
use afb_app_manager.PathEntry.{Entry, name, path_entry_get}
use afb_app_manager.PathEntry.Walk.{Walk, path_entry_for_each_in_buffer}
use afb_app_manager.FileTypes.{Stat, put_state_rc}
use afb_app_manager.Afid.{Manager, Scan}
use afb_app_manager.Permset.{Permset}
use afb_app_manager.Permits.{JsonType}
use afb_app_manager.UnitProcess.Corpus.{UnitDesc}
use afb_app_manager.UnitProcess.Template.{Units, Tools}

-- What the code calls of json-c and of rp-utils. `members` is what `rp_jsonc_object_for_all` goes
-- through, `items` what `rp_jsonc_array_for_all` does, and `optitems` what `rp_jsonc_optarray_for_all`
-- does; `with_items` is an array after a change of its items in place.
pub record JsonC (J : Type 0) : Type 0 where
  pub get_type : J → JsonType
  pub get_ex : J → Bytes → Option J
  pub get_string : J → Bytes
  pub members : J → List J
  pub items : J → List J
  pub optitems : J → List J
  pub with_items : J → List J → J
  pub object_add : J → Bytes → J → J
  -- rp_jsonc_pack of the two objects that the code makes; `none` is its failure.
  pub pack_target : ℕ → ℕ → Option J
  pub pack_metadata : Bytes → Bytes → Bool → Option Bytes → Bytes → Option J

-- `afmpkg_mode_t`
pub data Mode : Type 0 where
  afmpkg_nop afmpkg_install afmpkg_uninstall : Mode

abbrev pub is_install : Mode → Bool
is_install afmpkg_install = true
is_install _ = false

-- `afmpkg_operations_t` on a closure, which is kept with the rest of the world. A tag is the number of a
-- path type.
pub record Operations (S : Type 0) : Type 0 where
  pub begin : Option Bytes → Mode → S → ℤ × S
  pub tagfile : Bytes → ℕ → S → ℤ × S
  pub setperm : Option Bytes → S → ℤ × S
  pub setplug : Bytes → Bytes → Bytes → S → ℤ × S
  pub setunits : List UnitDesc → S → ℤ × S
  pub end : ℤ → S → ℤ × S

-- The calls on the files: `stat` is fstatat, and `overrun` what it tells where no NUL ends the text of the
-- buffer.
pub record Disk (S : Type 0) : Type 0 where
  pub stat : S → Bytes → Stat
  pub overrun : S → Stat
  pub chmod : Bytes → S → ℤ × S

-- `afmpkg_t`, but for its files.
pub record Afmpkg : Type 0 where
  pub root : Option Bytes
  pub redpakid : Option Bytes
  pub redpak_auto : Option Bytes

-- The names of the two manifests.
pub data Kind : Type 0 where
  name_manifest name_config : Kind

abbrev pub name_of : Kind → Bytes
name_of name_manifest = codes ".rpconfig/manifest.yml"
name_of name_config = codes "config.xml"

-- What the reading of a manifest gives: the code -(n + 1), or a manifest.
pub data Reading (J : Type 0) : Type 0 where
  unread : ℕ → Reading J
  was_read : J → Reading J

-- All that the processing calls. `read` is manifest_read_and_check or config_read_and_check on a path, and
-- `scan` what the scans of the installed units for the numbers of applications find. The directories are
-- FWK_APP_DIR and FWK_ICON_DIR.
pub record Host (J S : Type 0) : Type 0 where
  pub json : JsonC J
  pub opers : Operations S
  pub disk : Disk S
  pub tools : Tools J
  pub read : Kind → Bytes → S → Reading J
  pub scan : Scan
  pub app_dir : Bytes
  pub icon_dir : Bytes

-- `afmpkg_state_t` of a package: `pack` is the text of `path` up to `offset_pack`, and `tail` the text
-- left behind the byte there, or none if
-- no NUL ends it.
pub record State (S : Type 0) : Type 0 where
  pub rc : ℤ
  pub packdir : Entry
  pub permset : Permset
  pub units : Units
  pub afids : Manager
  pub pack : Bytes
  pub tail : Option Bytes
  pub world : S

abbrev pub path_max : ℕ
path_max = 4096

-- `put_state_rc`
abbrev pub put_rc : {S : Type 0} → ℤ → State S → State S
put_rc rc s = record s { rc = put_state_rc s.rc rc }

-- A walk of the package. The path is in the buffer from the package's own name on, or below it.
abbrev pub base : {S : Type 0} → Bool → State S → Bytes
base silent s =
    let top = length (name s.packdir) in
    if silent
    then s.pack
    else if ltb top (length s.pack)
    then take (length s.pack - (top + 1)) s.pack
    else s.pack

-- The walks here call at the exit of an entry.
abbrev pub walk_of : Bytes → Walk
walk_of prefix = record {
  only_added = false;
  at_entry = false;
  at_exit = true;
  no_path = false;
  size = path_max - length prefix;
}

-- `for_each_entry` and `for_each_content_entry`; `fun` is given `state->path`. The paths begin with a
-- slash, so what a walk writes before `offset_pack` is what stands there.
unfoldable pub for_each_entry :
    {S : Type 0} → Bool → (State S → Entry → Bytes → ℤ × State S) → State S → ℤ × State S
for_each_entry silent fun s =
    path_entry_for_each_in_buffer (walk_of (base silent s)) silent
      (λ t e p. fun t e (base silent s ++ p)) s.packdir [] s

module _ {J : Type 0} (json : JsonC J) where
  abbrev pub values : Option J → List J
  values none = []
  values (some item) = json.items item

  abbrev pub for_all : {S : Type 0} → (State S → J → State S) → List J → State S → State S
  for_all fun [] s = s
  for_all fun (j ∷ js) s = for_all fun js (fun s j)

  -- `for_each_of_manifest` and `for_each_target`
  abbrev pub for_each_of_manifest :
      {S : Type 0} → J → Bytes → (State S → J → State S) → State S → State S
  for_each_of_manifest manifest key fun s = for_all fun (values (json.get_ex manifest key)) s

  abbrev pub for_each_target : {S : Type 0} → J → (State S → J → State S) → State S → State S
  for_each_target manifest fun s = for_each_of_manifest manifest (codes "targets") fun s
