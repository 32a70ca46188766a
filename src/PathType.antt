-- ===== src/PathType.antt =====
-- utils/path-type.c: the types of the installed files, and their names.
pub mod Keys
use afb_app_manager.Base.{
  ℕ, Bool, Option, none, some, List, [], ◌∷◌, Bytes, codes, equal, get_elem?, if◌then◌else◌,
}

pub data PathType : Type 0 where
  path_type_unset path_type_default path_type_conf path_type_data path_type_exec path_type_http
        path_type_icon path_type_id path_type_lib path_type_plug path_type_public
        path_type_public_exec path_type_public_lib :
      PathType

-- A row of `filetypes`.
pub record Filetype : Type 0 where
  pub type : PathType
  pub key : Bytes
  pub dir : Option Bytes

abbrev row : PathType → Bytes → Option Bytes → Filetype
row t k d = record { type = t; key = k; dir = d }

abbrev pub filetypes : List Filetype
filetypes =
    row path_type_conf (codes "config") (some (codes "etc"))
    ∷ row path_type_data (codes "data") none
    ∷ row path_type_exec (codes "executable") (some (codes "bin"))
    ∷ row path_type_http (codes "www") (some (codes "htdocs"))
    ∷ row path_type_lib (codes "library") (some (codes "lib"))
    ∷ row path_type_plug (codes "plug") none
    ∷ row path_type_public (codes "public") (some (codes "public"))
    ∷ row path_type_public_exec (codes "public-executable") none
    ∷ row path_type_public_lib (codes "public-library") none
    ∷ []

-- The loops go from the last row to the first.
abbrev or_row : Option PathType → Bool → PathType → Option PathType
or_row none same t = if same then some t else none
or_row (some u) same t = some u

unfoldable pub type_of_key : Bytes → List Filetype → Option PathType
type_of_key key [] = none
type_of_key key (f ∷ fs) = or_row (type_of_key key fs) (equal key f.key) f.type

abbrev same_dir : Bytes → Option Bytes → Bool
same_dir dir none = Bool.false
same_dir dir (some d) = equal dir d

unfoldable pub type_of_dir : Bytes → List Filetype → Option PathType
type_of_dir dir [] = none
type_of_dir dir (f ∷ fs) = or_row (type_of_dir dir fs) (same_dir dir f.dir) f.type

abbrev pub or_unset : Option PathType → PathType
or_unset none = path_type_unset
or_unset (some t) = t

abbrev pub path_type_of_property_key : Bytes → PathType
path_type_of_property_key key = or_unset (type_of_key key filetypes)

abbrev pub path_type_of_dirname : Bytes → PathType
path_type_of_dirname dir = or_unset (type_of_dir dir filetypes)

-- `path_type_slm`, on the types that are valid.
abbrev pub path_type_for_slm : PathType → Bytes
path_type_for_slm path_type_unset = codes "default"
path_type_for_slm path_type_default = codes "default"
path_type_for_slm path_type_conf = codes "conf"
path_type_for_slm path_type_data = codes "data"
path_type_for_slm path_type_exec = codes "exec"
path_type_for_slm path_type_http = codes "http"
path_type_for_slm path_type_icon = codes "icon"
path_type_for_slm path_type_id = codes "id"
path_type_for_slm path_type_lib = codes "lib"
path_type_for_slm path_type_plug = codes "plug"
path_type_for_slm path_type_public = codes "public"
path_type_for_slm path_type_public_exec = codes "public"
path_type_for_slm path_type_public_lib = codes "public"
