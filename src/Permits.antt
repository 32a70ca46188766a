-- ===== src/Permits.antt =====
-- afmpkg/afmpkg.c: the permissions of a package, from its manifest to the operation `setperm`.
pub mod Granted
pub mod Turns
use afb_app_manager.Base.{
  ℕ, zero, suc, Bool, true, false, not, ◌&&◌, Option, none, some, List, [], ◌∷◌, Bytes, codes,
  equal, ℤ, pos, is_neg, Memory, if◌then◌else◌,
}
use afb_app_manager.Permset.{
  Permset, permset_grant, permset_request, select_first, select_next, current, is_both, count,
}

-- What the code tells apart of `json_object_get_type`.
pub data JsonType : Type 0 where
  json_type_object json_type_string json_type_other : JsonType

-- What the code calls of json-c and of rp-utils; `members` is what `rp_jsonc_object_for_all` goes
-- through, and `items` what `rp_jsonc_array_for_all` does.
pub record JsonC (J : Type 0) : Type 0 where
  pub get_type : J → JsonType
  pub get_ex : J → Bytes → Option J
  pub get_string : J → Bytes
  pub members : J → List J
  pub items : J → List J

abbrev is_string : JsonType → Bool
is_string json_type_string = true
is_string _ = false

-- The permissions of the state, and the memory.
abbrev pub Checked : Type 0
Checked = Permset × Memory

module _ {J : Type 0} (json : JsonC J) where
  -- The name of an item that is an object, if its value does not forbid it.
  abbrev name_of : Option J → Option Bytes
  name_of none = none
  name_of (some name) = if is_string (json.get_type name) then some (json.get_string name) else none

  abbrev unless_invalid : Option J → Option Bytes → Option Bytes
  unless_invalid none perm = perm
  unless_invalid (some value) perm =
      let text = json.get_string value in
      if equal text (codes "optional")
      then perm
      else if equal text (codes "required")
      then perm
      else none

  abbrev name_by_type : JsonType → J → Option Bytes
  name_by_type json_type_object jso =
      unless_invalid (json.get_ex jso (codes "value")) (name_of (json.get_ex jso (codes "name")))
  name_by_type json_type_string jso = some (json.get_string jso)
  name_by_type json_type_other jso = none

  -- `perm` of `check_one_permission_cb`
  unfoldable pub permission_name : J → Option Bytes
  permission_name jso = name_by_type (json.get_type jso) jso

  -- Whatever is asked for is granted, and the two codes only make messages.
  abbrev pub ask : Checked → Option Bytes → Checked
  ask (permset, m) none = (permset, m)
  ask (permset, m) (some perm) =
      let (rc1, s1, m1) = permset_grant m permset perm in
      let (rc2, s2, m2) = permset_request m1 s1 perm in (s2, m2)

  abbrev pub check_one_permission_cb : Checked → J → Checked
  check_one_permission_cb c jso = ask c (permission_name jso)

  abbrev pub for_all : (Checked → J → Checked) → List J → Checked → Checked
  for_all fun [] c = c
  for_all fun (j ∷ js) c = for_all fun js (fun c j)

  abbrev pub values : (J → List J) → Option J → List J
  values each none = []
  values each (some item) = each item

  unfoldable pub check_permissions_cb : Checked → J → Checked
  check_permissions_cb c jso =
      for_all check_one_permission_cb
        (values json.members (json.get_ex jso (codes "required-permission"))) c

  unfoldable pub check_permissions : Checked → J → Checked
  check_permissions c manifest =
      for_all check_permissions_cb (values json.items (json.get_ex manifest (codes "targets")))
        (check_permissions_cb c manifest)

abbrev pub default_permissions : List (Option Bytes)
default_permissions = some (codes "urn:redpesk:token:valid") ∷ []

module _ {ℓ} {S : Type ℓ} (setperm : S → Option Bytes → ℤ × S) where
  -- The `while` of `setup_security`, a round for a unit of fuel; `none` is out of fuel.
  unfoldable pub permit_selected : ℕ → Bool × Permset → S → Option (ℤ × S)
  permit_selected zero (found, permset) s = none
  permit_selected (suc fuel) (found, permset) s =
      let (rc, s') = setperm s (current permset) in
      let rest = permit_selected fuel (select_next permset is_both) s' in
      if not found then some (pos 0, s) else if is_neg rc then some (rc, s') else rest

  -- `permit` on the names of a list, up to the first that fails.
  unfoldable pub permit_list : List (Option Bytes) → S → ℤ × S
  permit_list [] s = (pos 0, s)
  permit_list (n ∷ ns) s =
      let (rc, s') = setperm s n in
      let rest = permit_list ns s' in if is_neg rc then (rc, s') else rest

  abbrev pub then_defaults : Option (ℤ × S) → Option (ℤ × S)
  then_defaults none = none
  then_defaults (some (rc, s)) =
      some (if is_neg rc then (rc, s) else permit_list default_permissions s)

  -- The permissions of `setup_security`: those of the set, then the default ones.
  unfoldable pub setup_permissions : Permset → S → Option (ℤ × S)
  setup_permissions permset s =
      then_defaults (permit_selected (suc (count permset)) (select_first permset is_both) s)
