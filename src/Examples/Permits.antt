-- ===== src/Examples/Permits.antt =====
-- A manifest that asks for a permission, and a target that asks for another one.
use afb_app_manager.Base.{
  true, false, Option, some, none, List, [], ◌∷◌, ◌++◌, Bytes, codes, equal, ℤ, pos, ◌≡◌, refl,
  arith, inl, inr, if◌then◌else◌,
}
use afb_app_manager.Permset.{Permset, create}
use afb_app_manager.Permset.Selection.{selected}
use afb_app_manager.Permits.{
  JsonC, JsonType, json_type_object, json_type_string, json_type_other, permission_name,
  check_permissions, setup_permissions, default_permissions, permit_list,
}
use afb_app_manager.Permits.Granted.{IsAllowed, check_permissions-IsAllowed}
use afb_app_manager.Permits.Turns.{setup_permissions_lem}
use afb_app_manager.Permset.{is_both}

data Value : Type 0 where
  manifest asked first targets target asked_by_target second name may wrong optional unknown : Value

abbrev get_type : Value → JsonType
get_type first = json_type_string
get_type name = json_type_string
get_type asked = json_type_other
get_type _ = json_type_object

abbrev get_ex : Value → Bytes → Option Value
get_ex manifest key =
    if equal key (codes "required-permission")
    then some asked
    else if equal key (codes "targets")
    then some targets
    else none
get_ex target key = if equal key (codes "required-permission") then some asked_by_target else none
get_ex second key = if equal key (codes "name") then some name else none
get_ex may key =
    if equal key (codes "name")
    then some name
    else if equal key (codes "value")
    then some optional
    else none
get_ex wrong key =
    if equal key (codes "name")
    then some name
    else if equal key (codes "value")
    then some unknown
    else none
get_ex _ key = none

abbrev get_string : Value → Bytes
get_string first = codes "p1"
get_string name = codes "p2"
get_string optional = codes "optional"
get_string unknown = codes "forbidden"
get_string _ = []

abbrev parts : Value → List Value
parts asked = first ∷ []
parts targets = target ∷ []
parts asked_by_target = second ∷ []
parts _ = []

abbrev json : JsonC Value
json = record {
  get_type = get_type;
  get_ex = get_ex;
  get_string = get_string;
  members = parts;
  items = parts;
}

second_name : permission_name json second ≡ some (codes "p2")
unfolding permission_name equal
second_name = refl

-- An item that is a text, one that is optional, one whose value is not known, and one of another type.
names :
    (permission_name json first ≡ some (codes "p1"))
    × (permission_name json may ≡ some (codes "p2"))
    × (permission_name json wrong ≡ none)
    × (permission_name json asked ≡ none)
unfolding permission_name equal
names = (refl, refl, refl, refl)

check_permissions-IsAllowed_example :
    IsAllowed (check_permissions json (create, []) manifest).0 (codes "p2")
unfolding equal
check_permissions-IsAllowed_example =
    check_permissions-IsAllowed json create manifest (codes "p2")
      (inl (inr (inl (inl second_name))))

-- Every call is recorded, and succeeds.
abbrev setperm : List (Option Bytes) → Option Bytes → ℤ × List (Option Bytes)
setperm s perm = (pos 0, s ++ perm ∷ [])

abbrev permissions : Permset
permissions = record {
  permissions =
      record { name = codes "p1"; granted = true; requested = true }
      ∷ record { name = codes "p2"; granted = false; requested = true }
      ∷ record { name = codes "p3"; granted = true; requested = true }
      ∷ [];
  slots = 8;
  index = 0;
}

setup_permissions_lem_example :
    setup_permissions setperm permissions []
    ≡ some
        (permit_list setperm (selected is_both permissions.permissions ++ default_permissions) [])
setup_permissions_lem_example = setup_permissions_lem setperm permissions [] (omega arith)

permitted :
    permit_list setperm (selected is_both permissions.permissions ++ default_permissions) []
    ≡ (pos 0, some (codes "p1") ∷ some (codes "p3") ∷ some (codes "urn:redpesk:token:valid") ∷ [])
unfolding permit_list selected
permitted = refl
