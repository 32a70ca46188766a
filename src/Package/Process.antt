-- ===== src/Package/Process.antt =====
-- afmpkg/afmpkg.c: the steps of the installation and of the removal of a package.
use afb_app_manager.Base.{
  ◌-◌, Option, none, some, ◌∷◌, ◌++◌, Bytes, codes, ℤ, negsuc, enomem, length, ltb, Memory, alloc,
  is_neg, if◌then◌else◌,
}
use afb_app_manager.Permset.{create}
use afb_app_manager.Permits
use afb_app_manager.Permits.{check_permissions}
use afb_app_manager.FileTypes.Manifest
use afb_app_manager.FileTypes.Manifest.{compute_files_properties}
use afb_app_manager.UnitProcess.Template.{unit_process_split}
use afb_app_manager.Package.{
  JsonC, State, Host, Reading, unread, was_read, Mode, is_install, Afmpkg, Kind, name_of, path_max,
  walk_of,
}
use afb_app_manager.Package.Content.{check_contents}
use afb_app_manager.Package.Meta.{add_meta_to_manifest}
use afb_app_manager.Package.Security.{
  operate, setup_files_properties, setup_security, setdown_security,
}

-- json-c as the other steps use it.
abbrev pub permits_json : {J : Type 0} → JsonC J → Permits.JsonC J
permits_json json = record {
  get_type = json.get_type;
  get_ex = json.get_ex;
  get_string = json.get_string;
  members = json.members;
  items = json.items;
}

abbrev pub files_json : {J : Type 0} → JsonC J → Manifest.JsonC J
files_json json = record { get_ex = json.get_ex; get_string = json.get_string; items = json.items }

abbrev pub with_memory : {S : Type 0} → Memory → State S → State S
with_memory m s = record s { units = record s.units { memory = m } }

-- The next step, unless the code is an error.
abbrev pub then_step : {A : Type 0} → ℤ × A → (A → ℤ × A) → ℤ × A
then_step (rc, a) next = if is_neg rc then (rc, a) else next a

module _ {J S : Type 0} (host : Host J S) (root : Bytes) where
  unfoldable pub permissions_step : J → State S → ℤ × State S
  permissions_step manifest s =
      let (permset, m) =
        check_permissions (permits_json host.json) (s.permset, s.units.memory) manifest in
      (s.rc, with_memory m (record s { permset = permset }))

  unfoldable pub files_step : J → State S → ℤ × State S
  files_step manifest s =
      let f =
        compute_files_properties (files_json host.json) (walk_of s.pack)
          (λ p. host.disk.stat s.world (s.pack ++ p)) manifest
          (record { rc = s.rc; packdir = s.packdir; memory = s.units.memory }) in
      (f.rc, with_memory f.memory (record s { rc = f.rc; packdir = f.packdir }))

  unfoldable pub process_units : J → State S → ℤ × State S
  process_units manifest s =
      let (rc, u, w) =
        unit_process_split host.tools (λ w units. host.opers.setunits units w) manifest s.units
          s.world in
      (rc, record s { units = u; world = w })

  -- The steps behind the creation of the set of permissions, the last ones first.
  abbrev pub from_security : J → State S → ℤ × State S
  from_security manifest s =
      then_step (setup_security host root s manifest) (process_units manifest)

  abbrev pub from_properties : J → State S → ℤ × State S
  from_properties manifest s =
      then_step (setup_files_properties host root s) (from_security manifest)

  abbrev pub from_types : J → State S → ℤ × State S
  from_types manifest s = then_step (files_step manifest s) (from_properties manifest)

  abbrev pub from_contents : J → State S → ℤ × State S
  from_contents manifest s =
      then_step (check_contents host.disk root host.json s manifest) (from_types manifest)

  unfoldable pub install_steps : J → State S → ℤ × State S
  install_steps manifest s = then_step (permissions_step manifest s) (from_contents manifest)

  unfoldable pub install_afmpkg : J → State S → ℤ × State S
  unfolding install_steps
  install_afmpkg manifest s =
      let (room, m) = alloc s.units.memory in
      let s1 = with_memory m s in
      if room then install_steps manifest (record s1 { permset = create }) else (enomem, s1)

  unfoldable pub uninstall_afmpkg : J → State S → ℤ × State S
  uninstall_afmpkg manifest s =
      then_step (process_units manifest s) (λ s1. setdown_security host root s1 manifest)

  -- What is between `begin` and `end`.
  abbrev pub body : Mode → J → State S → ℤ × State S
  body mode manifest s =
      if is_install mode then install_afmpkg manifest s else uninstall_afmpkg manifest s

  abbrev pub appid : J → Option Bytes
  appid manifest = elim (host.json.get_ex manifest (codes "id")) [
    | none ↦ none
    | some id ↦ some (host.json.get_string id)
  ]

  -- `end` is given the code, and its own is kept where it is an error.
  abbrev pub ended : ℤ × State S → ℤ × State S
  ended (rc, s) =
      let (rc2, s') = operate (host.opers.end rc) s in ((if is_neg rc2 then rc2 else rc), s')

  -- `process_package` behind the reading of the manifest.
  unfoldable pub process_manifest : Afmpkg → Mode → J → State S → ℤ × State S
  process_manifest apkg mode manifest s =
      let (rc, s1, m1) = add_meta_to_manifest host mode apkg root s manifest in
      if is_neg rc
      then (rc, s1)
      else ended (then_step (operate (host.opers.begin (appid m1) mode) s1) (body mode m1))

  -- `get_manifest`: the text put in `path`.
  abbrev pub manifest_tail : Kind → State S → Option Bytes
  manifest_tail kind s =
      if ltb (length (name_of kind)) (path_max - 1 - length s.pack)
      then some (name_of kind)
      else none

  abbrev pub read_then : Afmpkg → Mode → Reading J → State S → ℤ × State S
  read_then apkg mode (unread n) s = (negsuc n, s)
  read_then apkg mode (was_read m) s = process_manifest apkg mode m s

  unfoldable pub process_package : Afmpkg → Mode → Kind → State S → ℤ × State S
  process_package apkg mode kind s =
      read_then apkg mode (host.read kind (s.pack ++ b'/' ∷ name_of kind) s.world)
        (record s { tail = manifest_tail kind s })
