-- ===== src/Permits/Granted.antt =====
-- afmpkg/afmpkg.c: what `check_permissions` grants.
use afb_app_manager.Base.{
  Bool, true, false, some, List, [], ◌∷◌, Bytes, codes, equal_iff, pos, is_neg, ◌≡◌, refl, arith,
  Option-cases, inl, inr, ◌⊎◌, equal_refl,
}
use afb_app_manager.Permset.{Permset, add, enter, grow, settle, verdict, get, permset_grant}
use afb_app_manager.Permset.Flags.{get-add}
use afb_app_manager.Permits.{
  JsonC, permission_name, Checked, ask, check_one_permission_cb, for_all, values,
  check_permissions_cb, check_permissions,
}

add_ample :
    (s : Permset) (name : Bytes) (grant request : Bool)
    → (is_neg (add [] s name grant request).0 ≡ false) × ((add [] s name grant request).2 ≡ [])
unfolding add enter grow settle
add_ample s name grant request = ground arith

-- The name is recorded, requested and granted.
abbrev pub IsAllowed : Permset → Bytes → Type 0
IsAllowed s name = verdict (get s name) ≡ pos 1

module _ {J : Type 0} (json : JsonC J) where
  ask_lem :
      (s : Permset) (perm : Bytes)
      → IsAllowed (ask json (s, []) (some perm)).0 perm
        × ((j : Bytes) → IsAllowed s j → IsAllowed (ask json (s, []) (some perm)).0 j)
        × ((ask json (s, []) (some perm)).1 ≡ [])
  ask_lem s perm =
      let s1 = (permset_grant [] s perm).1 in
      let (ok1, m1) = add_ample s perm true false in
      let (ok2, m2) = add_ample s1 perm false true in
      let first = λ (j : Bytes). get-add [] s perm j true false ok1 in
      let second = λ (j : Bytes). get-add [] s1 perm j false true ok2 in
      let self = equal_refl perm in
      rw m1 (
        ground (arith, first perm, second perm, self),
        λ j a.
            ground (arith, a, first j, second j, first perm, second perm, self, equal_iff perm j),
        m2,
      )

  -- A permission that an item of the list names, where the item is not invalid.
  abbrev pub Names : List J → Bytes → Type 0
  Names [] perm = true ≡ false
  Names (j ∷ js) perm = (permission_name json j ≡ some perm) ⊎ Names js perm

  abbrev asked : J → List J
  asked jso = values json json.members (json.get_ex jso (codes "required-permission"))

  -- A permission that one of the objects requires.
  abbrev pub Requires : List J → Bytes → Type 0
  Requires [] perm = true ≡ false
  Requires (j ∷ js) perm = Names (asked j) perm ⊎ Requires js perm

  -- What a step keeps, from memory at hand.
  abbrev Keeps : Checked → Checked → Type 0
  Keeps c d = (d.1 ≡ []) × ((n : Bytes) → IsAllowed c.0 n → IsAllowed d.0 n)

  check_one-Keeps : (c : Checked) (j : J) → c.1 ≡ [] → Keeps c (check_one_permission_cb json c j)
  check_one-Keeps c j a = elim (Option-cases (permission_name json j)) [
    | inl e ↦ rw e (a, λ n h. h)
    | inr (perm, e) ↦ rw (e, a) ((ask_lem c.0 perm).2, (ask_lem c.0 perm).1)
  ]

  check_one-IsAllowed :
      (c : Checked) (j : J) (perm : Bytes)
      → c.1 ≡ []
      → permission_name json j ≡ some perm
      → IsAllowed (check_one_permission_cb json c j).0 perm
  check_one-IsAllowed c j perm a e = rw (e, a) ((ask_lem c.0 perm).0)

  for_all-Keeps :
      (fun : Checked → J → Checked) (js : List J) (c : Checked)
      → ((d : Checked) (j : J) → d.1 ≡ [] → Keeps d (fun d j))
      → c.1 ≡ []
      → Keeps c (for_all json fun js c)
  for_all-Keeps fun [] c h a = (a, λ n k. k)
  for_all-Keeps fun (j ∷ js) c h a =
      let (b, first) = h c j a in
      let (d, rest) = for_all-Keeps fun js (fun c j) h b in (d, λ n k. rest n (first n k))

  for_all-Names :
      (js : List J) (c : Checked) (perm : Bytes)
      → c.1 ≡ []
      → Names js perm
      → IsAllowed (for_all json (check_one_permission_cb json) js c).0 perm
  for_all-Names [] c perm a h = cc
  for_all-Names (j ∷ js) c perm a (inl e) =
      let (b, kept) = check_one-Keeps c j a in
      (for_all-Keeps (check_one_permission_cb json) js (check_one_permission_cb json c j)
          check_one-Keeps b).1
        perm (check_one-IsAllowed c j perm a e)
  for_all-Names (j ∷ js) c perm a (inr h) =
      for_all-Names js (check_one_permission_cb json c j) perm ((check_one-Keeps c j a).0) h

  callback-Keeps : (c : Checked) (j : J) → c.1 ≡ [] → Keeps c (check_permissions_cb json c j)
  unfolding check_permissions_cb
  callback-Keeps c j a = for_all-Keeps (check_one_permission_cb json) (asked j) c check_one-Keeps a

  callback-Names :
      (c : Checked) (j : J) (perm : Bytes)
      → c.1 ≡ []
      → Names (asked j) perm
      → IsAllowed (check_permissions_cb json c j).0 perm
  unfolding check_permissions_cb
  callback-Names c j perm a h = for_all-Names (asked j) c perm a h

  for_all-Requires :
      (js : List J) (c : Checked) (perm : Bytes)
      → c.1 ≡ []
      → Requires js perm
      → IsAllowed (for_all json (check_permissions_cb json) js c).0 perm
  for_all-Requires [] c perm a h = cc
  for_all-Requires (j ∷ js) c perm a (inl h) =
      let (b, kept) = callback-Keeps c j a in
      (for_all-Keeps (check_permissions_cb json) js (check_permissions_cb json c j) callback-Keeps
          b).1
        perm (callback-Names c j perm a h)
  for_all-Requires (j ∷ js) c perm a (inr h) =
      for_all-Requires js (check_permissions_cb json c j) perm ((callback-Keeps c j a).0) h

  -- With memory at hand, every permission that the manifest or one of its targets requires, in an item
  -- that is not invalid, is requested and granted after `check_permissions`, optional or not, and no
  -- permission that was requested and granted before is lost.
  pub check_permissions-IsAllowed :
      (permset : Permset) (manifest : J) (perm : Bytes)
      → Requires (manifest ∷ values json json.items (json.get_ex manifest (codes "targets"))) perm
        ⊎ IsAllowed permset perm
      → IsAllowed (check_permissions json (permset, []) manifest).0 perm
  unfolding check_permissions
  check_permissions-IsAllowed permset manifest perm (inl h) =
      for_all-Requires (manifest ∷ values json json.items (json.get_ex manifest (codes "targets")))
        (permset, []) perm refl h
  check_permissions-IsAllowed permset manifest perm (inr h) =
      (for_all-Keeps (check_permissions_cb json)
          (manifest ∷ values json json.items (json.get_ex manifest (codes "targets"))) (permset, [])
          callback-Keeps refl).1
        perm h
