-- ===== src/Package/Steps.antt =====
-- afmpkg/afmpkg.c: what every operation keeps, the steps between `begin` and `end` keep.
use afb_app_manager.Base.{
  ℕ, Bool, true, false, Option, none, some, List, [], ◌∷◌, ◌++◌, Bytes, codes, ℤ, is_neg,
  if◌then◌else◌, ◌||◌, Bool-cases, inl, inr,
}
use afb_app_manager.PathEntry.{Entry, path_entry_get}
use afb_app_manager.FileTypes.{Stat, get_entry_type, type_code}
use afb_app_manager.PathType.{path_type_id}
use afb_app_manager.UnitProcess.Corpus.{UnitDesc, corpus_split, is_zero}
use afb_app_manager.UnitProcess.Template.{
  Units, unit_process_split, unit_process_raw, internal_for_split, is_positive, split_of,
  ensure_template, instance_of,
}
use afb_app_manager.UnitProcess.{dedup_slashes}
use afb_app_manager.Package.{
  State, Host, Mode, afmpkg_nop, afmpkg_install, afmpkg_uninstall, for_each_entry, for_all, values,
  base, walk_of,
}
use afb_app_manager.Package.Content.{
  Found, check_contents, check_target_cb, check_target_content, check_target_config,
  check_one_target_config_cb, check_entry, check_src_type_definition, check_config_file,
  content_source, check_source, configs_of, is_string, found_at, source_entry, with_text, text_of,
  is_regular, is_directory,
}
use afb_app_manager.Package.Security.{
  setup_file_properties_cb, setup_files_properties, setup_security_file_cb, for_each_plug_cb,
  setup_security, setdown_security_file_cb, setdown_security, is_executable, plug, permit_all,
  for_each_plug, tag_of,
}
use afb_app_manager.Package.Process.{
  then_step, permissions_step, files_step, process_units, install_steps, install_afmpkg,
  uninstall_afmpkg, body, with_memory, from_security, from_properties, from_types, from_contents,
}
use afb_app_manager.Permset.{create}
use afb_app_manager.Base.{alloc}
use afb_app_manager.Package.Keeps.{walk-keeps, setup_permissions-keeps}

-- What the operations between `begin` and `end`, and the change of a mode, keep.
pub record Keeps {J S : Type 0} (host : Host J S) (P : S → Type 0) : Type 0 where
  pub tagfile : (p : Bytes) (t : ℕ) (s : S) → P s → P (host.opers.tagfile p t s).1
  pub setperm : (n : Option Bytes) (s : S) → P s → P (host.opers.setperm n s).1
  pub setplug : (e i d : Bytes) (s : S) → P s → P (host.opers.setplug e i d s).1
  pub setunits : (us : List UnitDesc) (s : S) → P s → P (host.opers.setunits us s).1
  pub chmod : (p : Bytes) (s : S) → P s → P (host.disk.chmod p s).1

module _ {J S : Type 0} (host : Host J S) (root : Bytes) (P : S → Type 0) (k : Keeps host P) where
  abbrev Holds : State S → Type 0
  Holds s = P s.world

  if-keeps : (b : Bool) (x y : ℤ × State S) → Holds x.1 → Holds y.1 → Holds (if b then x else y).1
  if-keeps true x y h k = h
  if-keeps false x y h k = k

  for_all-keeps :
      (fun : State S → J → State S)
      → ((s : State S) (j : J) → Holds s → Holds (fun s j))
      → (js : List J) (s : State S) → Holds s
      → Holds (for_all host.json fun js s)
  for_all-keeps fun each [] s h = h
  for_all-keeps fun each (j ∷ js) s h = for_all-keeps fun each js (fun s j) (each s j h)

  with_text-keeps :
      (s : State S) (t : Option Bytes) → Holds s → Holds (with_text host.disk root s t)
  with_text-keeps s none h = h
  with_text-keeps s (some t) h = h

  check_entry-keeps :
      (allowed : Stat → Bool) (s : State S) (f : Found)
      → Holds s
      → Holds (check_entry host.disk root allowed s f).1
  unfolding check_entry
  check_entry-keeps allowed s none h = h
  check_entry-keeps allowed s (some up) h =
      let w = with_text-keeps s (text_of host.disk root s up) h in if-keeps _ (_, _) (_, _) w w

  source-keeps :
      (s : State S) (o : Option Bytes) → Holds s → Holds (check_source host.disk root host.json s o)
  source-keeps s none h = h
  source-keeps s (some src) h =
      unfold check_src_type_definition in
      check_entry-keeps (λ t. is_regular t || is_directory t) s (source_entry s.packdir src) h

  content-keeps :
      (s : State S) (t : J) → Holds s → Holds (check_target_content host.disk root host.json s t)
  unfolding check_target_content
  content-keeps s t h = source-keeps s (content_source host.disk root host.json t) h

  config-keeps :
      (s : State S) (j : J)
      → Holds s
      → Holds (check_one_target_config_cb host.disk root host.json s j)
  unfolding check_one_target_config_cb check_config_file
  config-keeps s j h = elim (Bool-cases (is_string host.disk root host.json j)) [
    | inl e ↦
        rw e (check_entry-keeps is_regular s (found_at [] s.packdir (host.json.get_string j)) h)
    | inr e ↦ rw e h
  ]

  target-keeps :
      (s : State S) (t : J) → Holds s → Holds (check_target_cb host.disk root host.json s t)
  unfolding check_target_cb check_target_config
  target-keeps s t h =
      for_all-keeps (check_one_target_config_cb host.disk root host.json) config-keeps
        (configs_of host.disk root host.json t) _ (content-keeps s t h)

  contents-keeps :
      (s : State S) (m : J) → Holds s → Holds (check_contents host.disk root host.json s m).1
  unfolding check_contents
  contents-keeps s m h =
      for_all-keeps (check_target_cb host.disk root host.json) target-keeps
        (values host.json (host.json.get_ex m (codes "targets"))) s h

  each_entry-keeps :
      (silent : Bool) (fun : State S → Entry → Bytes → ℤ × State S)
      → ((s : State S) (e : Entry) (p : Bytes) → Holds s → Holds (fun s e p).1)
      → (s : State S) → Holds s
      → Holds (for_each_entry silent fun s).1
  unfolding for_each_entry
  each_entry-keeps silent fun each s h =
      walk-keeps Holds (λ t e p. fun t e (base silent s ++ p))
        (λ t e p g. each t e (base silent s ++ p) g) (walk_of (base silent s)) silent s.packdir [] s
        h

  executable-keeps :
      (s : State S) (e : Entry) (p : Bytes)
      → Holds s
      → Holds (setup_file_properties_cb host root s e p).1
  unfolding setup_file_properties_cb
  executable-keeps s e p h = elim (Bool-cases (is_executable host root (get_entry_type e))) [
    | inl x ↦ rw x (k.chmod p s.world h)
    | inr x ↦ rw x h
  ]

  files-keeps : (s : State S) → Holds s → Holds (setup_files_properties host root s).1
  unfolding setup_files_properties
  files-keeps s h = each_entry-keeps true (setup_file_properties_cb host root) executable-keeps s h

  export-keeps :
      (s : State S) (item value : Option J) → Holds s → Holds (plug host root s item value)
  export-keeps s none value h = h
  export-keeps s (some item) none h = h
  export-keeps s (some item) (some value) h =
      elim (Bool-cases (is_neg (path_entry_get s.packdir (host.json.get_string item)).0)) [
        | inl e ↦ rw e h
        | inr e ↦ rw e (k.setplug _ _ _ s.world h)
      ]

  plug-keeps : (s : State S) (j : J) → Holds s → Holds (for_each_plug_cb host root s j)
  unfolding for_each_plug_cb
  plug-keeps s j h =
      export-keeps s (host.json.get_ex j (codes "name")) (host.json.get_ex j (codes "value")) h

  plugs-keeps : (m : J) (s : State S) → Holds s → Holds (for_each_plug host root m s)
  plugs-keeps m s h =
      for_all-keeps (for_each_plug_cb host root) plug-keeps
        (values host.json (host.json.get_ex m (codes "plugs"))) s h

  tags-keeps :
      (s : State S) → Holds s → Holds (for_each_entry false (setup_security_file_cb host root) s).1
  unfolding setup_security_file_cb
  tags-keeps s h =
      each_entry-keeps false (setup_security_file_cb host root)
        (λ t e p g. k.tagfile p (tag_of host root (get_entry_type e)) t.world g) s h

  permits-keeps : (s : State S) → Holds s → Holds (permit_all host root s).1
  permits-keeps s h =
      setup_permissions-keeps P (λ w p. host.opers.setperm p w) (λ w p g. k.setperm p w g) s.permset
        s.world h

  security-keeps : (s : State S) (m : J) → Holds s → Holds (setup_security host root s m).1
  unfolding setup_security
  security-keeps s m h =
      let (rc0, s1) = for_each_entry false (setup_security_file_cb host root) s in
      let (rc2, s2) = permit_all host root s1 in
      let t : Holds s1 = tags-keeps s h in
      let p : Holds s2 = permits-keeps s1 t in
      elim (Bool-cases (is_neg s1.rc)) [
        | inl e ↦ rw e t
        | inr e ↦ elim (Bool-cases (is_neg rc2)) [
          | inl f ↦ rw (e, f) p
          | inr f ↦ rw (e, f) (plugs-keeps m s2 p)
        ]
      ]

  setdown-keeps : (s : State S) (m : J) → Holds s → Holds (setdown_security host root s m).1
  unfolding setdown_security setdown_security_file_cb
  setdown-keeps s m h =
      plugs-keeps m (for_each_entry false (setdown_security_file_cb host root) s).1 (
        each_entry-keeps false (setdown_security_file_cb host root)
          (λ t e p g. k.tagfile p (type_code path_type_id) t.world g) s h)

  split-keeps :
      (u : Units) (w : S) (text : Bytes)
      → P w
      → P (internal_for_split host.tools (λ w units. host.opers.setunits units w) u w text).2
  unfolding internal_for_split
  split-keeps u w text h =
      let (nru, units, m) = split_of (corpus_split u.memory text) u.memory in
      elim (Bool-cases (is_positive nru)) [ inl e ↦ rw e (k.setunits units w h) | inr e ↦ rw e h ]

  units-keeps : (m : J) (s : State S) → Holds s → Holds (process_units host root m s).1
  unfolding process_units unit_process_split unit_process_raw
  units-keeps m s h =
      let (rc, u1) = ensure_template host.tools s.units in
      let (rc2, text) = instance_of host.tools u1.template m in
      elim (Bool-cases (is_zero rc)) [
        | inl e ↦ elim (Bool-cases (is_zero rc2)) [
          | inl f ↦ rw (e, f) (split-keeps u1 s.world (dedup_slashes text) h)
          | inr f ↦ rw (e, f) h
        ]
        | inr e ↦ rw e h
      ]

  then_step-keeps :
      (r : ℤ × State S) (next : State S → ℤ × State S)
      → Holds r.1
      → ((s : State S) → Holds s → Holds (next s).1)
      → Holds (then_step r next).1
  then_step-keeps (rc, s) next h k = elim (Bool-cases (is_neg rc)) [
    | inl e ↦ rw e h
    | inr e ↦ rw e (k s h)
  ]

  from_security-keeps : (m : J) (s : State S) → Holds s → Holds (from_security host root m s).1
  from_security-keeps m s h =
      then_step-keeps (setup_security host root s m) (process_units host root m)
        (security-keeps s m h) (units-keeps m)

  from_types-keeps : (m : J) (s : State S) → Holds s → Holds (from_types host root m s).1
  unfolding files_step
  from_types-keeps m s h =
      then_step-keeps (files_step host root m s) (from_properties host root m) h (λ s1 h1.
        then_step-keeps (setup_files_properties host root s1) (from_security host root m)
          (files-keeps s1 h1) (from_security-keeps m))

  install_steps-keeps : (m : J) (s : State S) → Holds s → Holds (install_steps host root m s).1
  unfolding install_steps permissions_step
  install_steps-keeps m s h =
      then_step-keeps (permissions_step host root m s) (from_contents host root m) h (λ s1 h1.
        then_step-keeps (check_contents host.disk root host.json s1 m) (from_types host root m)
          (contents-keeps s1 m h1) (from_types-keeps m))

  install_afmpkg-keeps : (m : J) (s : State S) → Holds s → Holds (install_afmpkg host root m s).1
  unfolding install_afmpkg
  install_afmpkg-keeps m s h =
      let (room, mem) = alloc s.units.memory in
      elim (Bool-cases room) [
        | inl e ↦ rw e (install_steps-keeps m (record (with_memory mem s) { permset = create }) h)
        | inr e ↦ rw e h
      ]

  uninstall_afmpkg-keeps :
      (m : J) (s : State S) → Holds s → Holds (uninstall_afmpkg host root m s).1
  unfolding uninstall_afmpkg
  uninstall_afmpkg-keeps m s h =
      then_step-keeps (process_units host root m s) (λ s1. setdown_security host root s1 m)
        (units-keeps m s h) (λ s1 h1. setdown-keeps s1 m h1)

  pub body-keeps : (mode : Mode) (m : J) (s : State S) → Holds s → Holds (body host root mode m s).1
  body-keeps afmpkg_nop m s h = uninstall_afmpkg-keeps m s h
  body-keeps afmpkg_install m s h = install_afmpkg-keeps m s h
  body-keeps afmpkg_uninstall m s h = uninstall_afmpkg-keeps m s h
