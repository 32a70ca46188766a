-- ===== src/Manifest.antt =====
-- utils/manifest.c, built without DISTINCT_VERSIONS: the manifests of packages are checked and completed.
-- No value of a manifest is NULL.
pub mod Named
pub mod Kept
pub mod Normal
pub mod Fulfilled
pub mod Checked
use afb_app_manager.Base.{
  ℕ, ◌+◌, Bool, true, false, not, ◌&&◌, ◌||◌, Option, none, some, List, [], ◌∷◌, ◌++◌, Bytes, codes,
  equal, is_some, String, ℤ, pos, negsuc, einval, enomem, Memory, alloc, leb, ◌==◌, is_neg,
  if◌then◌else◌,
}
use afb_app_manager.ManifestText.{
  lower, is_alnum, make_lowercase, underscored, dash_to_underscore, is_end, minor, major,
  is_valid_char, all_valid, is_valid, Copy, strdup, mkver,
}
use mathlib.Core.List.{map}
use afb_app_manager.UnitOper.{is_zero}

abbrev pub ebadf : ℤ
ebadf = negsuc 8

-- What the code tells apart of `json_object_get_type`.
pub data ItemType : Type 0 where
  type_object type_array type_string type_other : ItemType

abbrev pub is_object : ItemType → Bool
is_object type_object = true
is_object _ = false

abbrev pub is_array : ItemType → Bool
is_array type_array = true
is_array _ = false

-- What the code calls of json-c and of rp-utils. `same` compares two pointers; `items` and `members` are what
-- `rp_jsonc_array_until` and `rp_jsonc_object_until` go through, up to the first call that does not return
-- 0; `with_items` is an array after a change of its items in place, and `with_member` an object after a
-- change of a value in place. `pack_name` packs a name that is a value and a text, `pack_value` a name
-- that is a text and a value.
pub record JsonC (J : Type 0) : Type 0 where
  pub get_type : J → ItemType
  pub get_ex : J → Bytes → Option J
  pub get_string : J → Bytes
  pub same : J → J → Bool
  pub items : J → List J
  pub members : J → List (Bytes × J)
  pub with_items : J → List J → J
  pub with_member : J → Bytes → J → J
  pub new_string : Bytes → Option J
  pub new_object : Option J
  pub object_add : J → Bytes → J → ℤ × J
  pub pack_name : J → Bytes → ℤ × J
  pub pack_value : Bytes → J → ℤ × J

module _ {J : Type 0} (json : JsonC J) where
  -- The reading of what was added.
  abbrev pub confirm : Option J → J → ℤ
  confirm none v = enomem
  confirm (some w) v = if json.same w v then pos 0 else enomem

  abbrev pub add_value : J → Bytes → Option J → ℤ × J
  add_value jso key none = (enomem, jso)
  add_value jso key (some v) =
      let (_, jso') = json.object_add jso key v in (confirm (json.get_ex jso' key) v, jso')

  unfoldable pub add : J → Bytes → Bytes → ℤ × J
  add jso key value = add_value jso key (json.new_string value)

  -- The next step, where the code is 0, or where it is not negative.
  abbrev pub if_zero : ℤ × J → (J → ℤ × J) → ℤ × J
  if_zero (rc, jso) next = if is_zero rc then next jso else (rc, jso)

  abbrev pub if_done : ℤ × J → (J → ℤ × J) → ℤ × J
  if_done (rc, jso) next = if is_neg rc then (rc, jso) else next jso

  -- `fulfill`, with the copies that it makes.
  unfoldable pub fulfill_with :
      J → Option Bytes → Option Bytes → Option Bytes → Option Bytes → ℤ × J
  fulfill_with jso (some lowid) (some undid) (some ver) (some idaver) =
      if_zero (add jso (codes "id") lowid) (λ j1.
        if_zero (add j1 (codes "id-underscore") undid)
          (λ j2. if_zero (add j2 (codes "idaver") idaver) (λ j3. add j3 (codes "ver") ver)))
  fulfill_with jso _ _ _ _ = (einval, jso)

  -- `mkidaver` copies the identifier.
  abbrev pub mkidaver : Memory → Option Bytes → Bytes → Copy
  mkidaver m none lowid = (none, m)
  mkidaver m (some ver) lowid = strdup m lowid

  abbrev pub with_lowid : J → Option Bytes → Copy → ℤ × J × Memory
  with_lowid jso ver (none, m) = let (rc, j) = fulfill_with jso none none ver none in (rc, j, m)
  with_lowid jso ver (some lowid, m) =
      let (idaver, m1) = mkidaver m ver lowid in
      let (undid, m2) = strdup m1 (dash_to_underscore lowid) in
      let (rc, j) = fulfill_with jso (some lowid) undid ver idaver in (rc, j, m2)

  abbrev pub fulfill_from : Memory → J → Option J → Option J → ℤ × J × Memory
  fulfill_from m jso (some id) (some version) =
      let (ver, m1) = mkver m (json.get_string version) in
      with_lowid jso ver (strdup m1 (make_lowercase (json.get_string id)))
  fulfill_from m jso _ _ = (einval, jso, m)

  unfoldable pub fulfill : Memory → J → ℤ × J × Memory
  fulfill m jso =
      fulfill_from m jso (json.get_ex jso (codes "id")) (json.get_ex jso (codes "version"))

  -- An item of `targets`: whether it is refused, and the item with its "#target".
  abbrev pub with_target : J → Option J → Bool × J
  with_target item none = (true, item)
  with_target item (some targ) =
      let (_, item') = json.object_add item (codes "#target") targ in (false, item')

  unfoldable pub retarget : J → Bool × J
  retarget item =
      if is_object (json.get_type item)
      then elim (json.get_ex item (codes "#target")) [
        | none ↦ with_target item (json.get_ex item (codes "target"))
        | some _ ↦ (false, item)
      ]
      else (true, item)

  abbrev pub retarget_all : ℤ → List J → ℤ × List J
  retarget_all rc [] = (rc, [])
  retarget_all rc (item ∷ items) =
      let (refused, item') = retarget item in
      let (rc', items') = retarget_all (if refused then einval else rc) items in
      (rc', item' ∷ items')

  -- The items of `targets`, if it is an array.
  abbrev pub array_of : Option J → Option (List J)
  array_of none = none
  array_of (some targets) =
      if is_array (json.get_type targets) then some (json.items targets) else none

  -- The manifest with its array `targets` changed in place.
  abbrev pub put_targets : J → Option J → List J → J
  put_targets jso none items = jso
  put_targets jso (some targets) items =
      json.with_member jso (codes "targets") (json.with_items targets items)

  abbrev pub on_items : J → (List J → ℤ × List J) → Option (List J) → ℤ × J
  on_items jso fun none = (einval, jso)
  on_items jso fun (some items) =
      let (rc, items') = fun items in
      (rc, put_targets jso (json.get_ex jso (codes "targets")) items')

  abbrev pub on_targets : J → (List J → ℤ × List J) → ℤ × J
  on_targets jso fun = on_items jso fun (array_of (json.get_ex jso (codes "targets")))

  unfoldable pub retargets : J → ℤ × J
  retargets jso = on_targets jso (retarget_all (pos 0))

  abbrev pub packed : J → Bytes → ℤ × J → ℤ × J
  packed perms key (rc, obj) = if is_neg rc then (rc, perms) else json.object_add perms key obj

  unfoldable pub add_perm_from_string : J → J → ℤ × J
  add_perm_from_string perms permstring =
      packed perms (json.get_string permstring) (json.pack_name permstring (codes "required"))

  abbrev pub has : J → String → Bool
  has item key = is_some (json.get_ex item (codes key))

  abbrev pub array_item : J → ItemType → J → ℤ × J
  array_item perms type_object item = elim (json.get_ex item (codes "name")) [
    | none ↦ (einval, perms)
    | some name ↦
        if has item "value"
        then json.object_add perms (json.get_string name) item
        else (einval, perms)
  ]
  array_item perms type_string item = add_perm_from_string perms item
  array_item perms _ item = (einval, perms)

  unfoldable pub process_array_perm_cb : J → J → ℤ × J
  process_array_perm_cb perms item = array_item perms (json.get_type item) item

  abbrev pub object_item : J → Bytes → ItemType → J → ℤ × J
  object_item perms key type_object item = elim (json.get_ex item (codes "name")) [
    | none ↦ (einval, perms)
    | some name ↦
        if equal key (json.get_string name) && has item "value"
        then json.object_add perms key item
        else (einval, perms)
  ]
  object_item perms key type_string item = packed perms key (json.pack_value key item)
  object_item perms key _ item = (einval, perms)

  unfoldable pub process_object_perm_cb : J → Bytes × J → ℤ × J
  process_object_perm_cb perms (key, item) = object_item perms key (json.get_type item) item

  -- The loop of `rp_jsonc_array_until` and of `rp_jsonc_object_until`.
  abbrev pub until {ℓ} : {A : Type ℓ} → (J → A → ℤ × J) → List A → J → ℤ × J
  until fun [] perms = (pos 0, perms)
  until fun (a ∷ rest) perms = if_zero (fun perms a) (until fun rest)

  -- `out`, and the code.
  abbrev pub adapted : ItemType → J → J → ℤ × J
  adapted type_array input out = until process_array_perm_cb (json.items input) out
  adapted type_object input out = until process_object_perm_cb (json.members input) out
  adapted type_string input out = add_perm_from_string out input
  adapted type_other input out = (einval, out)

  abbrev pub put_permissions : J → ℤ × J → ℤ × J
  put_permissions jso (rc, out) =
      let (_, jso') = json.object_add jso (codes "required-permission") out in
      (rc, (if is_neg rc then jso else jso'))

  abbrev pub with_new : J → J → Option J → ℤ × J
  with_new jso input none = (enomem, jso)
  with_new jso input (some out) = put_permissions jso (adapted (json.get_type input) input out)

  abbrev pub is_other : ItemType → Bool
  is_other type_other = true
  is_other _ = false

  abbrev pub adapt_input : J → Option J → ℤ × J
  adapt_input jso none = (pos 0, jso)
  adapt_input jso (some input) =
      if is_other (json.get_type input) then (einval, jso) else with_new jso input json.new_object

  unfoldable pub adapt_permissions_of : J → ℤ × J
  adapt_permissions_of jso =
      if is_object (json.get_type jso)
      then adapt_input jso (json.get_ex jso (codes "required-permission"))
      else (einval, jso)

  -- The items up to the first that is refused are adapted.
  abbrev pub adapt_each : List J → ℤ × List J
  adapt_each [] = (pos 0, [])
  adapt_each (item ∷ items) =
      let (rc, item') = adapt_permissions_of item in
      let (rc', items') = adapt_each items in
      if is_zero rc then (rc', item' ∷ items') else (rc, item' ∷ items)

  unfoldable pub adapt_all_permissions : J → ℤ × J
  adapt_all_permissions jso = if_done (adapt_permissions_of jso) (λ j. on_targets j adapt_each)

  unfoldable pub manifest_normalize : Memory → J → ℤ × J × Memory
  manifest_normalize m obj =
      let (rc, j, m') = fulfill m obj in
      let (rc2, j2) = if_done (if_done (rc, j) retargets) adapt_all_permissions in (rc2, j2, m')

  abbrev pub check_value : Option J → ℤ
  check_value none = einval
  check_value (some jval) = if is_valid (json.get_string jval) then pos 0 else einval

  unfoldable pub check_valid_string : J → Bytes → ℤ
  check_valid_string jso key = check_value (json.get_ex jso key)

  -- `rp-manifest` is "1".
  abbrev pub check_version : Option J → ℤ
  check_version none = einval
  check_version (some jval) = if equal (codes "1") (json.get_string jval) then pos 0 else einval

  abbrev pub if_valid : ℤ → ℤ → ℤ
  if_valid rc next = if is_zero rc then next else rc

  unfoldable pub manifest_check : J → ℤ
  manifest_check jso =
      if_valid
        (if_valid (check_version (json.get_ex jso (codes "rp-manifest")))
          (check_valid_string jso (codes "id")))
        (check_valid_string jso (codes "version"))

  -- `yaml` is what rp_yaml_path_to_json_c gives for the path.
  unfoldable pub manifest_read : ℤ × Option J → ℤ × Option J
  manifest_read (rc, none) = ((if is_neg rc then rc else ebadf), none)
  manifest_read (rc, some obj) = (rc, some obj)

  abbrev pub kept : ℤ × J → ℤ × Option J
  kept (rc, obj) = (rc, (if is_neg rc then none else some obj))

  abbrev pub check_read : Memory → ℤ × Option J → ℤ × Option J
  check_read m (rc, none) = (rc, none)
  check_read m (rc, some obj) =
      let rc2 = manifest_check obj in
      let (rc3, obj3, m') = manifest_normalize m obj in
      if is_neg rc then (rc, some obj) else if is_neg rc2 then kept (rc2, obj) else kept (rc3, obj3)

  unfoldable pub manifest_read_and_check : Memory → ℤ × Option J → ℤ × Option J
  manifest_read_and_check m yaml = check_read m (manifest_read yaml)
