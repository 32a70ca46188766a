-- ===== src/UnitPath.antt =====
-- units/unit-desc.c and units/unit-fs.c: the paths of the files of a unit.
-- A path that fits in the buffer is the text that `snprintf` writes; one that does not is an error.
pub mod Distinct
use afb_app_manager.Base.{
  ℕ, Bool, true, false, not, ◌&&◌, ◌||◌, Option, none, some, List, [], ◌∷◌, ◌++◌, Bytes, codes, ℤ,
  pos, neg, length, ltb, leb, ◌==◌, is_some, if◌then◌else◌, get_or, ◌-◌,
}
use afb_app_manager.UnitProcess.Corpus.{
  UnitDesc, Scope, scope_unknown, scope_user, scope_system, UnitType, type_unknown, type_service,
  type_socket,
}

abbrev pub is_known_scope : Scope → Bool
is_known_scope scope_unknown = false
is_known_scope _ = true

abbrev pub is_known_type : UnitType → Bool
is_known_type type_unknown = false
is_known_type _ = true

-- `unit_desc_check`, where the messages are left out.
unfoldable pub unit_desc_check : UnitDesc → ℤ
unit_desc_check desc =
    if is_known_scope desc.scope
      && is_known_type desc.type
      && is_some desc.name
      && ltb 0 desc.name_length
    then pos 0
    else neg 1

-- `check_snprintf_result` on a text and the size of its buffer: the length, and the text.
abbrev pub Printed : Type 0
Printed = Option Bytes

abbrev pub check_snprintf_result : Bytes → ℕ → Printed
check_snprintf_result text buflen = if ltb (length text) buflen then some text else none

abbrev pub scope_dir : Bool → Bytes
scope_dir isuser = if isuser then codes "user" else codes "system"

abbrev pub in_dir : Bytes → Bytes → Bytes
in_dir dir name = dir ++ b'/' ∷ name

abbrev pub with_ext : Bytes → Bytes → Bytes
with_ext unit uext = unit ++ b'.' ∷ uext

unfoldable pub units_fs_get_afm_units_dir : Bytes → ℕ → Bool → Printed
units_fs_get_afm_units_dir root pathlen isuser =
    check_snprintf_result (in_dir root (scope_dir isuser)) pathlen

unfoldable pub units_fs_get_afm_unit_path : Bytes → ℕ → Bool → Bytes → Bytes → Printed
units_fs_get_afm_unit_path root pathlen isuser unit uext =
    check_snprintf_result (in_dir root (in_dir (scope_dir isuser) (with_ext unit uext))) pathlen

unfoldable pub units_fs_get_afm_wants_unit_path : Bytes → ℕ → Bool → Bytes → Bytes → Bytes → Printed
units_fs_get_afm_wants_unit_path root pathlen isuser wanter unit uext =
    check_snprintf_result
      (in_dir root
        (in_dir (scope_dir isuser) (in_dir (with_ext wanter (codes "wants")) (with_ext unit uext))))
      pathlen

unfoldable pub units_fs_get_wants_target : ℕ → Bytes → Bytes → Printed
units_fs_get_wants_target pathlen unit uext =
    check_snprintf_result (codes "../" ++ with_ext unit uext) pathlen

abbrev pub ext_of : UnitType → Bytes
ext_of type_socket = codes "socket"
ext_of _ = codes "service"

abbrev pub is_user : Scope → Bool
is_user scope_user = true
is_user _ = false

-- What `%s` of the C library prints for NULL is not defined; here it is the empty text.
abbrev pub text_of : Option Bytes → Bytes
text_of none = []
text_of (some t) = t

abbrev pub unit_desc_get_path : Bytes → UnitDesc → ℕ → Printed
unit_desc_get_path root desc pathlen =
    units_fs_get_afm_unit_path root pathlen (is_user desc.scope) (text_of desc.name)
      (ext_of desc.type)

abbrev pub unit_desc_get_wants_path : Bytes → UnitDesc → ℕ → Printed
unit_desc_get_wants_path root desc pathlen =
    units_fs_get_afm_wants_unit_path root pathlen (is_user desc.scope) (text_of desc.wanted_by)
      (text_of desc.name) (ext_of desc.type)

abbrev pub unit_desc_get_wants_target : UnitDesc → ℕ → Printed
unit_desc_get_wants_target desc pathlen =
    units_fs_get_wants_target pathlen (text_of desc.name) (ext_of desc.type)

-- Behind the name of a template, which ends with `@`, the pattern has a star.
unfoldable pub unit_desc_get_service : UnitDesc → ℕ → Printed
unit_desc_get_service desc servlen =
    let name = text_of desc.name in
    let plain = desc.name_length == 0 || not (get_or name (desc.name_length - 1) 0 == b'@') in
    check_snprintf_result (name ++ ((if plain then [] else b'*' ∷ []) ++ (b'.' ∷ ext_of desc.type)))
      servlen
