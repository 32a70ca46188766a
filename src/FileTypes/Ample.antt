-- ===== src/FileTypes/Ample.antt =====
-- afmpkg/afmpkg.c: `compute_files_properties` with memory at hand.
use afb_app_manager.Base.{
  ℕ, Bool, true, false, not, ◌&&◌, List, [], ◌∷◌, Bytes, codes, ℤ, is_neg, ◌==◌, if◌then◌else◌, ◌≡◌,
  refl, arith, Bool-cases, Option-cases, inl, inr,
}
use afb_app_manager.PathEntry.{
  Label, Entry, entry, Children, nil, cons, label, children, path_entry_get,
}
use afb_app_manager.PathEntry.Walk.{Walk, extend}
use afb_app_manager.PathType.{
  PathType, path_type_of_property_key, path_type_plug, path_type_public_lib, path_type_exec,
}
use afb_app_manager.FileTypes.{
  type_code, type_of_label, get_entry_type, set_entry_type, put_state_rc, set_label_type,
  default_entry, default_type, reset_types, default_types, is_ok, Stat, Status, failed, regular,
  directory, other,
}
use afb_app_manager.FileTypes.Manifest.{
  JsonC, State, set_type_at, at_entry, explicit_type, content_type, mime_type_is_executable,
  for_all, for_each_of_array, compute_files_properties, compute_explicit_file_properties_cb,
  compute_implicit_plug_property_cb, compute_provided_binding_property_cb,
  compute_target_file_properties_cb, and_if_ok, reset_step, default_step, open_step,
}
use afb_app_manager.FileTypes.Opening.{
  Opened, Opened-open_types, set_label_type_done, set_entry_type_done,
}

abbrev Ample : State → Type 0
Ample s = s.memory ≡ []

at_entry-Ample :
    (s : State) (path : Bytes) (next : Entry → State)
    → Ample s
    → ((e : Entry) → Ample (next e))
    → Ample (at_entry s path next)
at_entry-Ample s path next a h = elim (Option-cases ((path_entry_get s.packdir path).1)) [
  | inl e ↦ rw (at_entry, e) a
  | inr (x, e) ↦ rw (at_entry, e) (h x)
]

set_type_at-Ample :
    (s : State) (path : Bytes) (e : Entry) (type : PathType)
    → Ample s
    → Ample (set_type_at s path e type)
set_type_at-Ample s path e type a = rw a (set_entry_type_done e (type_code type))

reset_types-Ample : (s : Status) (cs : Children) → s.1 ≡ [] → (reset_types s cs).1.1 ≡ []
unfolding reset_types
reset_types-Ample s nil a = a
reset_types-Ample s (cons (entry l cs) es) a =
    let (cs', (rc1, m1)) = reset_types s cs in
    let b : m1 ≡ [] = reset_types-Ample s cs a in
    let (rc, l', m2) = set_label_type m1 l 0 in
    reset_types-Ample (put_state_rc rc1 rc, m2) es (rw b (set_label_type_done l 0).2)

pub default_entry-Ample :
    (stat : Stat) (parent : ℕ) (l : Label) → (default_entry [] stat parent l).2 ≡ []
default_entry-Ample (failed e) parent l = refl
default_entry-Ample other parent l = refl
default_entry-Ample regular parent l =
    ground (arith, set_label_type_done l (default_type regular parent l.name))
default_entry-Ample directory parent l =
    ground (arith, set_label_type_done l (default_type directory parent l.name))

abbrev pub Spares : ℤ × Children × Status → Type 0
Spares r = r.2.1 ≡ []

if-Spares :
    (b : Bool) (x y : ℤ × Children × Status) → Spares x → Spares y → Spares (if b then x else y)
if-Spares true x y p q = p
if-Spares false x y p q = q

pub default_types-Ample :
    (w : Walk) (stat : Bytes → Stat) (parent : ℕ) (path : Bytes) (s : Status) (cs : Children)
    → s.1 ≡ []
    → Spares (default_types w stat parent path s cs)
unfolding default_types
default_types-Ample w stat parent path s nil a = a
default_types-Ample w stat parent path s (cons (entry l cs) es) a =
    elim (Option-cases (extend w path l)) [
      | inl e ↦ rw (default_types, e) a
      | inr (p, e) ↦
          let (rc1, l', m1) = default_entry s.1 (stat p) parent l in
          let b : m1 ≡ [] = rw a (default_entry-Ample (stat p) parent l) in
          let s1 : Status = (put_state_rc s.0 rc1, m1) in
          let r2 = default_types w stat (type_of_label l') p s1 cs in
          let c : Spares r2 = default_types-Ample w stat (type_of_label l') p s1 cs b in
          let r3 = default_types w stat parent path r2.2 es in
          let d : Spares r3 = default_types-Ample w stat parent path r2.2 es c in
          rw (default_types, e)
            (if-Spares (not (is_ok rc1)) (rc1, cons (entry l' cs) es, s1)
              (if not (is_ok r2.0)
                then (r2.0, cons (entry l' r2.1) es, r2.2)
                else (r3.0, cons (entry l' r2.1) r3.1, r3.2))
              b
              (if-Spares (not (is_ok r2.0)) (r2.0, cons (entry l' r2.1) es, r2.2)
                (r3.0, cons (entry l' r2.1) r3.1, r3.2) c d))
    ]

module _ {J : Type 0} (json : JsonC J) where
  for_all-Ample :
      (fun : State → J → State) (js : List J) (s : State)
      → ((t : State) (j : J) → Ample t → Ample (fun t j))
      → Ample s
      → Ample (for_all json fun js s)
  for_all-Ample fun [] s h a = a
  for_all-Ample fun (j ∷ js) s h a = for_all-Ample fun js (fun s j) h (h s j a)

  for_each_of_array-Ample :
      (obj : J) (key : Bytes) (fun : State → J → State) (s : State)
      → ((t : State) (j : J) → Ample t → Ample (fun t j))
      → Ample s
      → Ample (for_each_of_array json obj key fun s)
  unfolding for_each_of_array
  for_each_of_array-Ample obj key fun s h a = elim (Option-cases (json.get_ex obj key)) [
    | inl e ↦ rw (for_each_of_array, e) a
    | inr (item, e) ↦ rw (for_each_of_array, e) (for_all-Ample fun (json.items item) s h a)
  ]

  plug-Ample : (s : State) (j : J) → Ample s → Ample (compute_implicit_plug_property_cb json s j)
  unfolding compute_implicit_plug_property_cb
  plug-Ample s j a = elim (Option-cases (json.get_ex j (codes "name"))) [
    | inl e ↦ rw (compute_implicit_plug_property_cb, e) a
    | inr (n, e) ↦
        let path = json.get_string n in
        rw (compute_implicit_plug_property_cb, e)
          (at_entry-Ample s path (λ e. set_type_at s path e path_type_plug) a
            (λ x. set_type_at-Ample s path x path_type_plug a))
  ]

  binding-Ample :
      (s : State) (j : J) → Ample s → Ample (compute_provided_binding_property_cb json s j)
  unfolding compute_provided_binding_property_cb
  binding-Ample s j a = elim (Option-cases (json.get_ex j (codes "value"))) [
    | inl e ↦ rw (compute_provided_binding_property_cb, e) a
    | inr (n, e) ↦
        let path = json.get_string n in
        rw (compute_provided_binding_property_cb, e)
          (at_entry-Ample s path (λ e. set_type_at s path e path_type_public_lib) a
            (λ x. set_type_at-Ample s path x path_type_public_lib a))
  ]

  explicit_type-Ample :
      (s : State) (path : Bytes) (type : PathType) (e : Entry)
      → Ample s
      → Ample (explicit_type json s path type e)
  explicit_type-Ample s path type e a = ground (arith, set_type_at-Ample s path e type a)

  explicit-Ample :
      (s : State) (j : J) → Ample s → Ample (compute_explicit_file_properties_cb json s j)
  unfolding compute_explicit_file_properties_cb
  explicit-Ample s j a = elim (Option-cases (json.get_ex j (codes "name"))) [
    | inl e ↦ rw (compute_explicit_file_properties_cb, e) a
    | inr (n, e) ↦ elim (Option-cases (json.get_ex j (codes "value"))) [
      | inl f ↦ rw (compute_explicit_file_properties_cb, e, f) a
      | inr (v, f) ↦
          let path = json.get_string n in
          let type = path_type_of_property_key (json.get_string v) in
          rw (compute_explicit_file_properties_cb, e, f)
            (at_entry-Ample s path (explicit_type json s path type) a
              (λ x. explicit_type-Ample s path type x a))
    ]
  ]

  content_type-Ample : (s : State) (src type : J) → Ample s → Ample (content_type json s src type)
  content_type-Ample s src type a =
      let path = json.get_string src in
      let known = mime_type_is_executable (json.get_string type) in
      at_entry-Ample s path
        (λ e. if get_entry_type e == 0 && known then set_type_at s path e path_type_exec else s) a
        (λ x. ground (arith, a, set_type_at-Ample s path x path_type_exec a))

  target-Ample : (s : State) (j : J) → Ample s → Ample (compute_target_file_properties_cb json s j)
  unfolding compute_target_file_properties_cb
  target-Ample s j a = elim (Option-cases (json.get_ex j (codes "content"))) [
    | inl e ↦ rw (compute_target_file_properties_cb, e) a
    | inr (c, e) ↦ elim (Option-cases (json.get_ex c (codes "src"))) [
      | inl f ↦ rw (compute_target_file_properties_cb, e, f) a
      | inr (src, f) ↦ elim (Option-cases (json.get_ex c (codes "type"))) [
        | inl g ↦ rw (compute_target_file_properties_cb, e, f, g) a
        | inr (type, g) ↦
            rw (compute_target_file_properties_cb, e, f, g) (content_type-Ample s src type a)
      ]
    ]
  ]

  and_if_ok-Ample :
      (s : State) (next : State → State)
      → Ample s
      → ((t : State) → Ample t → Ample (next t))
      → Ample (and_if_ok json s next)
  and_if_ok-Ample s next a h = ground (arith, a, h s a)

  array-Ample :
      (obj : J) (key : Bytes) (fun : State → J → State) (s : State)
      → ((t : State) (j : J) → Ample t → Ample (fun t j))
      → Ample s
      → Ample (and_if_ok json s (for_each_of_array json obj key fun))
  array-Ample obj key fun s h a =
      and_if_ok-Ample s (for_each_of_array json obj key fun) a
        (λ t. for_each_of_array-Ample obj key fun t h)

  -- The last step, where the ones before it succeeded.
  abbrev IsOpened : State → Type 0
  IsOpened s = Opened (label s.packdir) (children s.packdir)

  open_step-IsOpened :
      (s : State)
      → Ample s
      → is_neg ((and_if_ok json s (open_step json)).rc) ≡ false
      → IsOpened (and_if_ok json s (open_step json))
  open_step-IsOpened s a h = elim (Bool-cases (is_neg s.rc)) [
    | inl n ↦ absurd (ground (arith, rw n at h, n))
    | inr n ↦ rw (n, a) ((Opened-open_types (label s.packdir) (children s.packdir)).0)
  ]

  -- Where `compute_files_properties` gives a code that is not negative, with memory at hand, every
  -- entry of the package that directly holds a public file, a public executable, a public library or a
  -- public directory has the type `path_type_Public`, the package's directory included.
  pub compute_files_properties-Opened :
      (w : Walk) (stat : Bytes → Stat) (manifest : J) (s : State)
      → s.memory ≡ []
      → is_neg ((compute_files_properties json w stat manifest s).rc) ≡ false
      → Opened
          (label (compute_files_properties json w stat manifest s).packdir)
          (children (compute_files_properties json w stat manifest s).packdir)
  unfolding compute_files_properties
  compute_files_properties-Opened w stat manifest s a h =
      let (rc, e, m) = set_entry_type s.memory s.packdir 7 in
      let s0 : State = record { rc = rc; packdir = e; memory = m } in
      let a0 : Ample s0 = rw a (set_entry_type_done s.packdir 7) in
      let s1 = and_if_ok json s0 (reset_step json) in
      let a1 : Ample s1 =
        and_if_ok-Ample s0 (reset_step json) a0
          (λ t b. reset_types-Ample (t.rc, t.memory) (children t.packdir) b) in
      let s2 = and_if_ok json s1 (
        for_each_of_array json manifest (codes "plugs") (compute_implicit_plug_property_cb json)) in
      let a2 : Ample s2 =
        array-Ample manifest (codes "plugs") (compute_implicit_plug_property_cb json) s1 plug-Ample
          a1 in
      let s3 = and_if_ok json s2 (
        for_each_of_array json manifest (codes "provided-binding")
          (compute_provided_binding_property_cb json)) in
      let a3 : Ample s3 =
        array-Ample manifest (codes "provided-binding") (compute_provided_binding_property_cb json)
          s2 binding-Ample a2 in
      let s4 = and_if_ok json s3 (
        for_each_of_array json manifest (codes "file-properties")
          (compute_explicit_file_properties_cb json)) in
      let a4 : Ample s4 =
        array-Ample manifest (codes "file-properties") (compute_explicit_file_properties_cb json) s3
          explicit-Ample a3 in
      let s5 = and_if_ok json s4 (
        for_each_of_array json manifest (codes "targets")
          (compute_target_file_properties_cb json)) in
      let a5 : Ample s5 =
        array-Ample manifest (codes "targets") (compute_target_file_properties_cb json) s4
          target-Ample a4 in
      let s6 = and_if_ok json s5 (default_step json w stat) in
      let a6 : Ample s6 = and_if_ok-Ample s5 (default_step json w stat) a5 (λ t b.
        default_types-Ample w stat (get_entry_type t.packdir) [] (t.rc, t.memory)
          (children t.packdir) b) in
      open_step-IsOpened s6 a6 h
