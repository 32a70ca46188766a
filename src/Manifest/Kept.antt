-- ===== src/Manifest/Kept.antt =====
-- utils/manifest.c: the members of a manifest that its completion leaves.
use afb_app_manager.Base.{
  true, false, Option, none, some, List, Bytes, codes, equal, ℤ, pos, is_neg, ◌≡◌, refl, ◌∙◌,
  Bool-cases, inl, inr,
}
use afb_app_manager.Manifest.{
  JsonC, if_done, array_of, put_targets, on_targets, on_items, adapt_input, retargets, retarget_all,
  is_object, is_other, adapted, with_new, adapt_permissions_of, adapt_each, adapt_all_permissions,
}

-- What is relied on of json-c: a new string has its text, a member that is added or changed leaves the
-- others, and two pointers that are the same point to one value.
pub record IsJsonC {J : Type 0} (json : JsonC J) : Type 0 where
  pub new_text : (t : Bytes) (v : J) → json.new_string t ≡ some v → json.get_string v ≡ t
  pub added_others :
      (o : J) (key : Bytes) (v : J) (k : Bytes)
      → equal key k ≡ false
      → json.get_ex (json.object_add o key v).1 k ≡ json.get_ex o k
  pub changed_others :
      (o : J) (key : Bytes) (v : J) (k : Bytes)
      → equal key k ≡ false
      → json.get_ex (json.with_member o key v) k ≡ json.get_ex o k
  pub same_value : (v w : J) → json.same v w ≡ true → v ≡ w

-- A key that neither the targets nor the permissions have.
abbrev pub IsOther : Bytes → Type 0
IsOther key =
    (equal (codes "targets") key ≡ false) × (equal (codes "required-permission") key ≡ false)

module _ {J : Type 0} (json : JsonC J) (laws : IsJsonC json) (key : Bytes) (o : IsOther key) where
  abbrev pub KeepsKey : J → J → Type 0
  KeepsKey jso jso' = json.get_ex jso' key ≡ json.get_ex jso key

  put_targets-KeepsKey :
      (jso : J) (targets : Option J) (items : List J)
      → KeepsKey jso (put_targets json jso targets items)
  put_targets-KeepsKey jso none items = refl
  put_targets-KeepsKey jso (some targets) items =
      laws.changed_others jso (codes "targets") (json.with_items targets items) key o.0

  on_items-KeepsKey :
      (jso : J) (fun : List J → ℤ × List J) (items : Option (List J))
      → KeepsKey jso (on_items json jso fun items).1
  on_items-KeepsKey jso fun none = refl
  on_items-KeepsKey jso fun (some items) =
      put_targets-KeepsKey jso (json.get_ex jso (codes "targets")) (fun items).1

  on_targets-KeepsKey :
      (jso : J) (fun : List J → ℤ × List J) → KeepsKey jso (on_targets json jso fun).1
  on_targets-KeepsKey jso fun =
      on_items-KeepsKey jso fun (array_of json (json.get_ex jso (codes "targets")))

  pub retargets-KeepsKey : (jso : J) → KeepsKey jso (retargets json jso).1
  unfolding retargets
  retargets-KeepsKey jso = on_targets-KeepsKey jso (retarget_all json (pos 0))

  with_new-KeepsKey :
      (jso input : J) (new : Option J) → KeepsKey jso (with_new json jso input new).1
  with_new-KeepsKey jso input none = refl
  with_new-KeepsKey jso input (some out) =
      let (rc, out') = adapted json (json.get_type input) input out in
      elim (Bool-cases (is_neg rc)) [
        | inl e ↦ rw e refl
        | inr e ↦ rw e (laws.added_others jso (codes "required-permission") out' key o.1)
      ]

  adapt_input-KeepsKey : (jso : J) (input : Option J) → KeepsKey jso (adapt_input json jso input).1
  adapt_input-KeepsKey jso none = refl
  adapt_input-KeepsKey jso (some i) = elim (Bool-cases (is_other json (json.get_type i))) [
    | inl e ↦ rw e refl
    | inr e ↦ rw e (with_new-KeepsKey jso i json.new_object)
  ]

  adapt_permissions_of-KeepsKey : (jso : J) → KeepsKey jso (adapt_permissions_of json jso).1
  unfolding adapt_permissions_of
  adapt_permissions_of-KeepsKey jso = elim (Bool-cases (is_object (json.get_type jso))) [
    | inl e ↦ rw e (adapt_input-KeepsKey jso (json.get_ex jso (codes "required-permission")))
    | inr e ↦ rw e refl
  ]

  pub if_done-KeepsKey :
      (jso : J) (r : ℤ × J) (next : J → ℤ × J)
      → KeepsKey jso r.1
      → ((j : J) → KeepsKey j (next j).1)
      → KeepsKey jso (if_done json r next).1
  if_done-KeepsKey jso r next k f = elim (Bool-cases (is_neg r.0)) [
    | inl e ↦ rw e k
    | inr e ↦ rw e (f r.1 ∙ k)
  ]

  pub adapt_all_permissions-KeepsKey : (jso : J) → KeepsKey jso (adapt_all_permissions json jso).1
  unfolding adapt_all_permissions
  adapt_all_permissions-KeepsKey jso =
      if_done-KeepsKey jso (adapt_permissions_of json jso)
        (λ j. on_targets json j (adapt_each json)) (adapt_permissions_of-KeepsKey jso)
        (λ j. on_targets-KeepsKey j (adapt_each json))
