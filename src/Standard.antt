-- ===== src/Standard.antt =====
-- afmpkg/afmpkg-std.c: the operations of the installation of packages, on a session with the security
-- manager and on the unit files.
pub mod Clean
pub mod OnePackage
pub mod Whole
use afb_app_manager.Base.{
  ℕ, Bool, true, false, not, ◌&&◌, ◌||◌, Option, none, some, List, [], ◌∷◌, Bytes, ℤ, pos, einval,
  leb, ltb, ◌==◌, is_neg, if◌then◌else◌,
}
use afb_app_manager.PathType.{
  PathType, path_type_unset, path_type_default, path_type_conf, path_type_data, path_type_exec,
  path_type_http, path_type_icon, path_type_id, path_type_lib, path_type_plug, path_type_public,
  path_type_public_exec, path_type_public_lib, path_type_for_slm,
}
use afb_app_manager.FileTypes.{type_code}
use afb_app_manager.UnitProcess.Corpus.{UnitDesc}
use afb_app_manager.UnitOper.{System, is_zero, install_units, do_uninstall_units}
use afb_app_manager.Secmgr.{
  Session, Call, Library, create, set_id, install, uninstall, add_permission, add_path, add_plug,
  destroy, called,
}
use afb_app_manager.PathEntry.{Entry}
use afb_app_manager.Afid.{Manager}
use afb_app_manager.UnitProcess.Template.{Units}
use afb_app_manager.Package.{
  Mode, is_install, afmpkg_nop, afmpkg_install, afmpkg_uninstall, Operations, Host, Afmpkg,
}
use afb_app_manager.Package.Roots.{Run, afmpkg_process}

-- `state_t`, and the files. `is_open` of the session tells that `slmhndl` is not NULL.
pub record Closure (F : Type 0) : Type 0 where
  pub mode : Mode
  pub session : Session
  pub files : F

-- The path type of a number.
unfoldable pub type_of_code : ℕ → PathType
type_of_code c =
    if c == 1
    then path_type_default
    else if c == 2
    then path_type_conf
    else if c == 3
    then path_type_data
    else if c == 4
    then path_type_exec
    else if c == 5
    then path_type_http
    else if c == 6
    then path_type_icon
    else if c == 7
    then path_type_id
    else if c == 8
    then path_type_lib
    else if c == 9
    then path_type_plug
    else if c == 10
    then path_type_public
    else if c == 11
    then path_type_public_exec
    else if c == 12
    then path_type_public_lib
    else path_type_unset

abbrev or_empty : Option Bytes → Bytes
or_empty none = []
or_empty (some t) = t

module _ {F : Type 0} (lib : Library) (system : System F) (root : Bytes) where
  -- A call of the security manager.
  abbrev pub request : Call → Closure F → ℤ × Closure F
  request c s = (lib.answer s.session.calls c, record s { session = called c s.session })

  abbrev pub closed : Closure F → Closure F
  closed s = record s { session = record { is_open = false; calls = destroy ∷ s.session.calls } }

  -- What `begin` does behind a `create` that succeeded.
  abbrev pub identify : Option Bytes → ℤ → Closure F → ℤ × Closure F
  identify none rc s = (rc, s)
  identify (some id) rc s =
      let (rc2, s2) = request (set_id id) s in if is_neg rc2 then (rc2, closed s2) else (rc2, s2)

  abbrev with_mode : Mode → ℤ × Closure F → ℤ × Closure F
  with_mode mode (rc, s) = (rc, record s { mode = if is_neg rc then afmpkg_nop else mode })

  unfoldable pub begin : Option Bytes → Mode → Closure F → ℤ × Closure F
  begin appid mode s =
      let rc = lib.answer s.session.calls create in
      let made : Closure F = record s {
        session = record {
          is_open = not (is_neg rc) || lib.leaves_handle;
          calls = create ∷ s.session.calls;
        };
      } in
      with_mode mode (if is_neg rc then (rc, made) else identify appid rc made)

  unfoldable pub tagfile : Bytes → ℕ → Closure F → ℤ × Closure F
  tagfile path type s =
      if type == 0 || ltb 12 type
      then (einval, s)
      else request
          (add_path path
            (path_type_for_slm (if is_install s.mode then type_of_code type else path_type_id)))
          s

  unfoldable pub setperm : Option Bytes → Closure F → ℤ × Closure F
  setperm permission s = request (add_permission (or_empty permission)) s

  unfoldable pub setplug : Bytes → Bytes → Bytes → Closure F → ℤ × Closure F
  setplug exportdir importid importdir s = request (add_plug exportdir importid importdir) s

  unfoldable pub setunits : List UnitDesc → Closure F → ℤ × Closure F
  setunits units s =
      let (rc, f) =
        if is_install s.mode
        then install_units system root s.files units
        else do_uninstall_units system root (pos 0) s.files units in
      (rc, record s { files = f })

  -- The call that commits.
  abbrev pub commit : Closure F → ℤ × Closure F
  commit s = request (if is_install s.mode then install else uninstall) s

  unfoldable pub end : ℤ → Closure F → ℤ × Closure F
  end status s =
      let (rc, s1) = if is_zero status then commit s else (status, s) in
      if s.session.is_open then (rc, closed s1) else (status, s)

  abbrev pub operations : Operations (Closure F)
  operations = record {
    begin = begin;
    tagfile = tagfile;
    setperm = setperm;
    setplug = setplug;
    setunits = setunits;
    end = end;
  }

  -- The same world, with those operations.
  abbrev pub with_operations : {J : Type 0} → Host J (Closure F) → Host J (Closure F)
  with_operations host = record host { opers = operations }

-- The closure of `afmpkg_std_install` and of `afmpkg_std_uninstall`; `calls` are those made before.
abbrev pub initial : {F : Type 0} → List Call → F → Closure F
initial calls files = record {
  mode = afmpkg_nop;
  session = record { is_open = false; calls = calls };
  files = files;
}

-- The two, from that closure; `plain` is the world, whatever its operations are, and the files of units are
-- below `units_root`.
module _ {J F : Type 0} (lib : Library) (system : System F) (units_root : Bytes)
    (plain : Host J (Closure F)) where
  unfoldable pub std_process :
      Mode → Afmpkg → Entry → Units → Manager → List Call → F → Run (Closure F)
  std_process mode apkg entries units afids calls files =
      afmpkg_process (with_operations lib system units_root plain) apkg mode entries
        (record { files = none; units = units; afids = afids; world = initial calls files })

  abbrev pub afmpkg_std_install : Afmpkg → Entry → Units → Manager → List Call → F → Run (Closure F)
  afmpkg_std_install = std_process afmpkg_install

  abbrev pub afmpkg_std_uninstall :
      Afmpkg → Entry → Units → Manager → List Call → F → Run (Closure F)
  afmpkg_std_uninstall = std_process afmpkg_uninstall
