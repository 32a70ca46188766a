-- ===== src/Package/Content.antt =====
-- afmpkg/afmpkg.c: the content and the configurations that the targets of a manifest name are checked.
use afb_app_manager.Base.{
  ◌+◌, ◌-◌, Bool, true, false, ◌&&◌, ◌||◌, Option, none, some, List, [], ◌∷◌, ◌++◌, Bytes, codes, ℤ,
  pos, negsuc, einval, enoent, length, drop, ltb, if◌then◌else◌,
}
use afb_app_manager.PathEntry.{
  Label, Entry, Round, rounds, label, search_child, children, path_entry_get,
}
use afb_app_manager.PathEntry.Relpath.{path_entry_relpath, result, in_buffer}
use afb_app_manager.PathEntry.Walk.{enametoolong}
use afb_app_manager.FileTypes.{Stat, failed, regular, directory}
use afb_app_manager.Permits.{json_type_object, json_type_string}
use afb_app_manager.Package.{JsonC, State, Disk, path_max, put_rc, for_all, for_each_target}

-- The labels on the way that a path leads, the last one first.
unfoldable pub way : Entry → List Round → List Label → List Label
way e [] up = up
way e ((n, rest) ∷ more) up = elim (search_child n (children e)) [
  | none ↦ up
  | some child ↦ way child more (label child ∷ up)
]

-- What a path finds: the way to it from the package's entry, or none.
abbrev pub Found : Type 0
Found = Option (List Label)

abbrev pub found_at : List Label → Entry → Bytes → Found
found_at up e path =
    let (rc, got) = path_entry_get e path in
    elim got [ none ↦ none | some x ↦ some (way e (rounds path) up) ]

abbrev in_htdocs : Entry → Bytes → Found
in_htdocs packdir src =
    let (rc, got) = path_entry_get packdir (codes "htdocs") in
    elim got [ none ↦ none | some e ↦ found_at (way packdir (rounds (codes "htdocs")) []) e src ]

-- The entry of a source: that of its path, or of its path in `htdocs`.
unfoldable pub source_entry : Entry → Bytes → Found
source_entry packdir src = elim (found_at [] packdir src) [
  | none ↦ in_htdocs packdir src
  | some up ↦ some up
]

abbrev pub is_regular : Stat → Bool
is_regular regular = true
is_regular _ = false

abbrev pub is_directory : Stat → Bool
is_directory directory = true
is_directory _ = false

-- The code for what `fstatat` tells.
abbrev pub code_of_stat : (Stat → Bool) → Stat → ℤ
code_of_stat allowed (failed n) = negsuc n
code_of_stat allowed s = if allowed s then pos 0 else einval

abbrev pub behind_pack : Option Bytes → Option Bytes
behind_pack none = none
behind_pack (some t) = some (b'/' ∷ t)

module _ {S : Type 0} (disk : Disk S) (root : Bytes) where
  abbrev pub stat_text : State S → Option Bytes → Stat
  stat_text s none = disk.overrun s.world
  stat_text s (some t) = disk.stat s.world (s.pack ++ t)

  -- The text of `path` behind `offset_pack`, once the path of the entry is put in it.
  abbrev pub text_of : State S → List Label → Option Bytes
  text_of s up =
      in_buffer (path_max - length s.pack) (behind_pack s.tail)
        (path_entry_relpath (record { forced = true; no_leading = false }) (some s.packdir) up)

  abbrev pub with_text : State S → Option Bytes → State S
  with_text s none = record s { tail = none }
  with_text s (some t) = record s { tail = some (drop 1 t) }

  -- The end of the two checks, behind the search of the entry. The test compares with `offset_root`.
  unfoldable pub check_entry : (Stat → Bool) → State S → Found → ℤ × State S
  check_entry allowed s none = (enoent, s)
  check_entry allowed s (some up) =
      let slashes =
        path_entry_relpath (record { forced = true; no_leading = false }) (some s.packdir) up in
      let text = text_of s up in
      if ltb path_max (result slashes + length root)
      then (enametoolong, with_text s text)
      else (code_of_stat allowed (stat_text s text), with_text s text)

  unfoldable pub check_src_type_definition : State S → Bytes → ℤ × State S
  unfolding check_entry source_entry
  check_src_type_definition s src =
      check_entry (λ t. is_regular t || is_directory t) s (source_entry s.packdir src)

  unfoldable pub check_config_file : State S → Bytes → ℤ × State S
  unfolding check_entry
  check_config_file s src = check_entry is_regular s (found_at [] s.packdir src)

  abbrev pub noted : ℤ × State S → State S
  noted (rc, s) = put_rc rc s

  module _ {J : Type 0} (json : JsonC J) where
    abbrev pub is_string : J → Bool
    is_string j = elim (json.get_type j) [ json_type_string ↦ true | _ ↦ false ]

    abbrev pub is_object : J → Bool
    is_object j = elim (json.get_type j) [ json_type_object ↦ true | _ ↦ false ]

    -- `content`, `src` and `type`, where they are what they must be: the text of `src`.
    abbrev source_and_type : Option J → Option J → Option Bytes
    source_and_type none type = none
    source_and_type (some src) none = none
    source_and_type (some src) (some type) =
        if is_string src && is_string type then some (json.get_string src) else none

    abbrev source_of_content : Option J → Option Bytes
    source_of_content none = none
    source_of_content (some content) =
        if is_object content
        then source_and_type (json.get_ex content (codes "src"))
            (json.get_ex content (codes "type"))
        else none

    -- The `src` of the content of a target that is well formed.
    unfoldable pub content_source : J → Option Bytes
    content_source target = source_of_content (json.get_ex target (codes "content"))

    abbrev pub check_source : State S → Option Bytes → State S
    check_source s none = put_rc einval s
    check_source s (some src) = noted (check_src_type_definition s src)

    unfoldable pub check_target_content : State S → J → State S
    check_target_content s target = check_source s (content_source target)

    unfoldable pub check_one_target_config_cb : State S → J → State S
    check_one_target_config_cb s jso =
        if is_string jso then noted (check_config_file s (json.get_string jso)) else put_rc einval s

    abbrev pub configs_of : J → List J
    configs_of target = elim (json.get_ex target (codes "required-config")) [
      | none ↦ []
      | some configs ↦ json.optitems configs
    ]

    unfoldable pub check_target_config : State S → J → State S
    check_target_config s target = for_all json check_one_target_config_cb (configs_of target) s

    unfoldable pub check_target_cb : State S → J → State S
    check_target_cb s target = check_target_config (check_target_content s target) target

    unfoldable pub check_contents : State S → J → ℤ × State S
    check_contents s manifest =
        let s' = for_each_target json manifest check_target_cb s in (s'.rc, s')
