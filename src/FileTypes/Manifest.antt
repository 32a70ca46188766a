-- ===== src/FileTypes/Manifest.antt =====
-- afmpkg/afmpkg.c: the types that a manifest gives to the files, and `compute_files_properties`.
-- utils/mime-type.c: the types of content that are executable.
use afb_app_manager.Base.{
  ℕ, ◌+◌, Bool, true, false, ◌&&◌, ◌||◌, Option, none, some, List, [], ◌∷◌, Bytes, codes, ℤ, is_neg,
  einval, enoent, eexist, Memory, leb, ◌==◌, if◌then◌else◌,
}
use afb_app_manager.PathEntry.{
  Entry, entry, label, children, Round, rounds, search_child, replace_child, path_entry_get,
}
use afb_app_manager.PathEntry.Walk.{Walk}
use afb_app_manager.PathType.{
  PathType, path_type_exec, path_type_id, path_type_plug, path_type_public_lib,
  path_type_of_property_key,
}
use afb_app_manager.FileTypes.{
  type_code, get_entry_type, set_entry_type, put_state_rc, reset_types, Stat, default_types,
  open_types,
}

-- What the code calls of json-c and of rp-utils: the value of a key, a value as a text, and the values
-- that `rp_jsonc_array_for_all` goes through.
pub record JsonC (J : Type 0) : Type 0 where
  pub get_ex : J → Bytes → Option J
  pub get_string : J → Bytes
  pub items : J → List J

-- `strcasecmp(a, b) == 0`
abbrev tolower : ℕ → ℕ
tolower c = if leb b'A' c && leb c b'Z' then c + 32 else c

unfoldable pub equal_nocase : Bytes → Bytes → Bool
equal_nocase [] [] = true
equal_nocase (x ∷ xs) (y ∷ ys) = tolower x == tolower y && equal_nocase xs ys
equal_nocase _ _ = false

unfoldable pub mime_type_is_executable : Bytes → Bool
unfolding equal_nocase
mime_type_is_executable type =
    equal_nocase type (codes "application/vnd.agl.native")
    || equal_nocase type (codes "application/vnd.redpesk.native")
    || equal_nocase type (codes "application/x-executable")

-- `rc`, `packdir` and the memory.
pub record State : Type 0 where
  pub rc : ℤ
  pub packdir : Entry
  pub memory : Memory

-- The entry that a path leads to, after a change of it.
unfoldable pub change_entry : (Entry → Entry) → Entry → List Round → Entry
change_entry f e [] = f e
change_entry f (entry l cs) ((n, rest) ∷ more) = elim (search_child n cs) [
  | none ↦ entry l cs
  | some child ↦ entry l (replace_child n (change_entry f child more) cs)
]

-- `set_entry_type` on the entry `e` that the path leads to.
abbrev pub set_type_at : State → Bytes → Entry → PathType → State
set_type_at s path e type =
    let (rc, e', m') = set_entry_type s.memory e (type_code type) in
    record s { packdir = change_entry (λ x. e') s.packdir (rounds path); memory = m' }

abbrev pub fail : State → ℤ → State
fail s rc = record s { rc = put_state_rc s.rc rc }

-- What is done with the entry of a path; there is an error where it does not exist.
abbrev pub at_entry : State → Bytes → (Entry → State) → State
at_entry s path next =
    let (rc, found) = path_entry_get s.packdir path in
    elim found [ none ↦ fail s enoent | some e ↦ next e ]

module _ {J : Type 0} (json : JsonC J) where
  abbrev pub for_all : (State → J → State) → List J → State → State
  for_all fun [] s = s
  for_all fun (j ∷ js) s = for_all fun js (fun s j)

  -- `for_each_of_array`
  unfoldable pub for_each_of_array : J → Bytes → (State → J → State) → State → State
  for_each_of_array obj key fun s = elim (json.get_ex obj key) [
    | none ↦ s
    | some item ↦ for_all fun (json.items item) s
  ]

  abbrev pub explicit_type : State → Bytes → PathType → Entry → State
  explicit_type s path type e =
      if type_code type == 0
      then fail s einval
      else if get_entry_type e == 0
      then set_type_at s path e type
      else if get_entry_type e == type_code type
      then s
      else fail s eexist

  unfoldable pub compute_explicit_file_properties_cb : State → J → State
  compute_explicit_file_properties_cb s jso = elim (json.get_ex jso (codes "name")) [
    | none ↦ fail s einval
    | some name ↦ elim (json.get_ex jso (codes "value")) [
      | none ↦ fail s einval
      | some value ↦
          let path = json.get_string name in
          at_entry s path (explicit_type s path (path_type_of_property_key (json.get_string value)))
    ]
  ]

  unfoldable pub compute_implicit_plug_property_cb : State → J → State
  compute_implicit_plug_property_cb s jso = elim (json.get_ex jso (codes "name")) [
    | none ↦ fail s einval
    | some name ↦
        let path = json.get_string name in
        at_entry s path (λ e. set_type_at s path e path_type_plug)
  ]

  unfoldable pub compute_provided_binding_property_cb : State → J → State
  compute_provided_binding_property_cb s jso = elim (json.get_ex jso (codes "value")) [
    | none ↦ fail s einval
    | some value ↦
        let path = json.get_string value in
        at_entry s path (λ e. set_type_at s path e path_type_public_lib)
  ]

  abbrev pub content_type : State → J → J → State
  content_type s src type =
      let path = json.get_string src in
      at_entry s path (λ e.
        if get_entry_type e == 0 && mime_type_is_executable (json.get_string type)
        then set_type_at s path e path_type_exec
        else s)

  unfoldable pub compute_target_file_properties_cb : State → J → State
  compute_target_file_properties_cb s jso = elim (json.get_ex jso (codes "content")) [
    | none ↦ s
    | some content ↦ elim (json.get_ex content (codes "src")) [
      | none ↦ s
      | some src ↦ elim (json.get_ex content (codes "type")) [
        | none ↦ s
        | some type ↦ content_type s src type
      ]
    ]
  ]

  -- `if (state->rc >= 0)`
  abbrev pub and_if_ok : State → (State → State) → State
  and_if_ok s next = if is_neg s.rc then s else next s

  abbrev pub reset_step : State → State
  reset_step s =
      let (cs, (rc, m)) = reset_types (s.rc, s.memory) (children s.packdir) in
      record { rc = rc; packdir = entry (label s.packdir) cs; memory = m }

  abbrev pub default_step : Walk → (Bytes → Stat) → State → State
  default_step w stat s =
      let (ret, cs, (rc, m)) =
        default_types w stat (get_entry_type s.packdir) [] (s.rc, s.memory) (children s.packdir) in
      record { rc = rc; packdir = entry (label s.packdir) cs; memory = m }

  abbrev pub open_step : State → State
  open_step s =
      let (l, cs, m) = open_types s.memory (label s.packdir) (children s.packdir) in
      record s { packdir = entry l cs; memory = m }

  -- The walks of the three steps return a code that the source does not read.
  unfoldable pub compute_files_properties : Walk → (Bytes → Stat) → J → State → State
  compute_files_properties w stat manifest s =
      let (rc, e, m) = set_entry_type s.memory s.packdir (type_code path_type_id) in
      let s0 : State = record { rc = rc; packdir = e; memory = m } in
      let s1 = and_if_ok s0 reset_step in
      let s2 =
        and_if_ok s1
          (for_each_of_array manifest (codes "plugs") compute_implicit_plug_property_cb) in
      let s3 = and_if_ok s2 (
        for_each_of_array manifest (codes "provided-binding")
          compute_provided_binding_property_cb) in
      let s4 = and_if_ok s3 (
        for_each_of_array manifest (codes "file-properties") compute_explicit_file_properties_cb) in
      let s5 =
        and_if_ok s4
          (for_each_of_array manifest (codes "targets") compute_target_file_properties_cb) in
      let s6 = and_if_ok s5 (default_step w stat) in and_if_ok s6 open_step
