-- ===== src/Package/Security.antt =====
-- afmpkg/afmpkg.c: the operations that install and remove the security items of a package.
use afb_app_manager.Base.{
  ℕ, ◌-◌, Bool, true, false, ◌||◌, Option, none, some, ◌∷◌, ◌++◌, Bytes, codes, ℤ, pos, einval,
  length, take, is_neg, ◌==◌, if◌then◌else◌,
}
use afb_app_manager.PathEntry.{Entry, path_entry_get}
use afb_app_manager.PathType.{path_type_conf, path_type_exec, path_type_id, path_type_public_exec}
use afb_app_manager.FileTypes.{type_code, get_entry_type}
use afb_app_manager.Permits.{setup_permissions}
use afb_app_manager.Package.{State, Host, put_rc, path_max, for_each_entry, for_each_of_manifest}

abbrev pub settled : {S : Type 0} → S → Option (ℤ × S) → ℤ × S
settled s none = (pos 0, s)
settled s (some r) = r

-- A call of an operation.
abbrev pub operate : {S : Type 0} → (S → ℤ × S) → State S → ℤ × State S
operate call s = let (rc, w) = call s.world in (rc, record s { world = w })

-- `put_state_rc(state, rc)` on its code.
abbrev pub noting : {S : Type 0} → ℤ × State S → State S
noting (rc, s) = put_rc rc s

module _ {J S : Type 0} (host : Host J S) (root : Bytes) where
  abbrev pub is_executable : ℕ → Bool
  is_executable type = type == type_code path_type_public_exec || type == type_code path_type_exec

  unfoldable pub setup_file_properties_cb : State S → Entry → Bytes → ℤ × State S
  setup_file_properties_cb s e path =
      if is_executable (get_entry_type e)
      then (pos 0, noting (operate (host.disk.chmod path) s))
      else (pos 0, s)

  unfoldable pub setup_files_properties : State S → ℤ × State S
  unfolding setup_file_properties_cb
  setup_files_properties s =
      let (rc, s') = for_each_entry true setup_file_properties_cb s in (s'.rc, s')

  -- The tag of an entry.
  abbrev pub tag_of : ℕ → ℕ
  tag_of type = if type == 0 then type_code path_type_conf else type

  unfoldable pub setup_security_file_cb : State S → Entry → Bytes → ℤ × State S
  setup_security_file_cb s e path =
      (pos 0, noting (operate (host.opers.tagfile path (tag_of (get_entry_type e))) s))

  -- The directory that is imported. `snprintf` cuts it to its buffer: its code is tested by a condition
  -- that never holds.
  abbrev pub import_dir : Bytes → Bytes
  import_dir impid = take path_max (root ++ (host.app_dir ++ (b'/' ∷ (impid ++ codes "/plugins"))))

  abbrev pub export_text : State S → Bytes → Bytes
  export_text s expdir = take (path_max - length s.pack - 1) (b'/' ∷ expdir)

  abbrev pub set_plug : State S → Bytes → Bytes → State S
  set_plug s expdir impid =
      noting
        (operate (host.opers.setplug (s.pack ++ export_text s expdir) impid (import_dir impid)) s)

  abbrev pub plug : State S → Option J → Option J → State S
  plug s none value = put_rc einval s
  plug s (some item) none = put_rc einval s
  plug s (some item) (some value) =
      let expdir = host.json.get_string item in
      let (rc, found) = path_entry_get s.packdir expdir in
      if is_neg rc then put_rc rc s else set_plug s expdir (host.json.get_string value)

  -- `for_each_plug_cb` with `set_plug_cb`
  unfoldable pub for_each_plug_cb : State S → J → State S
  for_each_plug_cb s desc =
      plug s (host.json.get_ex desc (codes "name")) (host.json.get_ex desc (codes "value"))

  abbrev pub for_each_plug : J → State S → State S
  for_each_plug manifest s =
      for_each_of_manifest host.json manifest (codes "plugs") for_each_plug_cb s

  -- The permissions; `none` of `setup_permissions` would be out of fuel.
  abbrev pub permit_all : State S → ℤ × State S
  permit_all s =
      operate (λ w. settled w (setup_permissions (λ w p. host.opers.setperm p w) s.permset w)) s

  unfoldable pub setup_security : State S → J → ℤ × State S
  unfolding setup_security_file_cb for_each_plug_cb
  setup_security s manifest =
      let (rc0, s1) = for_each_entry false setup_security_file_cb s in
      let (rc2, s2) = permit_all s1 in
      let s3 = for_each_plug manifest s2 in
      if is_neg s1.rc then (s1.rc, s1) else if is_neg rc2 then (rc2, s2) else (s3.rc, s3)

  unfoldable pub setdown_security_file_cb : State S → Entry → Bytes → ℤ × State S
  setdown_security_file_cb s e path = operate (host.opers.tagfile path (type_code path_type_id)) s

  unfoldable pub setdown_security : State S → J → ℤ × State S
  unfolding setdown_security_file_cb for_each_plug_cb
  setdown_security s manifest =
      let (rc, s1) = for_each_entry false setdown_security_file_cb s in
      (pos 0, for_each_plug manifest s1)
