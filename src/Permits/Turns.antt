-- ===== src/Permits/Turns.antt =====
-- afmpkg/afmpkg.c: which permissions are permitted, and in which order.
use afb_app_manager.Base.{
  ℕ, zero, suc, ◌<◌, ◌^◌, Bool, true, false, Option, none, some, List, [], ◌∷◌, ◌++◌, Bytes, ℤ,
  is_neg, if◌then◌else◌, ◌≡◌, ◌≢◌, refl, arith, Option-cases, inl, inr,
}
use afb_app_manager.Permset.{Permset, select_first, select_next, current, is_both, count}
use afb_app_manager.Permset.Selection.{visited, selected, visited-select_first}
use afb_app_manager.Permits.{permit_selected, permit_list, setup_permissions, default_permissions}

none_ne : {A : Type 0} {a : A} → none ≢ some a
none_ne e = cc

some_inj : {A : Type 0} {a b : A} → some a ≡ some b → a ≡ b
some_inj e = cc

if_some {ℓ} :
    {A : Type ℓ} (b : Bool) (x y : A) → (if b then some x else some y) ≡ some (if b then x else y)
if_some true x y = refl
if_some false x y = refl

module _ {ℓ} {S : Type ℓ} (setperm : S → Option Bytes → ℤ × S) where
  permit_selected-visited :
      (fuel : ℕ) (x : Bool × Permset) (s : S) (l : List (Option Bytes))
      → visited fuel x is_both ≡ some l
      → permit_selected setperm fuel x s ≡ some (permit_list setperm l s)
  unfolding permit_selected permit_list visited
  permit_selected-visited zero x s l h = cc
  permit_selected-visited (suc fuel) (false, p) s [] h = refl
  permit_selected-visited (suc fuel) (false, p) s (n ∷ l) h = cc
  permit_selected-visited (suc fuel) (true, p) s l h =
      let (rc, s') = setperm s (current p) in
      let next = select_next p is_both in
      elim (Option-cases (visited fuel next is_both)) [
        | inl e ↦ absurd (none_ne (rw e at h))
        | inr (l', e) ↦
            let l_eq : current p ∷ l' ≡ l = some_inj (rw e at h) in
            rw (permit_selected-visited fuel next s' l' e)
              (rw (← l_eq) (if_some (is_neg rc) (rc, s') (permit_list setperm l' s')))
      ]

  permit_list-append :
      (xs ys : List (Option Bytes)) (s : S)
      → permit_list setperm (xs ++ ys) s ≡ (
          let (rc, s') = permit_list setperm xs s in
          if is_neg rc then (rc, s') else permit_list setperm ys s')
  unfolding permit_list
  permit_list-append [] ys s = refl
  permit_list-append (x ∷ xs) ys s =
      let (rc, s') = setperm s x in ground (arith, permit_list-append xs ys s')

  -- With fewer than 2 ^ 32 permissions in the set, `setup_security` calls `setperm` on those that are
  -- requested and granted, in their order and once for each entry, then on the default one, and stops
  -- at the first call that fails.
  pub setup_permissions_lem :
      (permset : Permset) (s : S)
      → count permset < 2 ^ 32
      → setup_permissions setperm permset s
        ≡ some (permit_list setperm (selected is_both permset.permissions ++ default_permissions) s)
  unfolding setup_permissions
  setup_permissions_lem permset s few =
      let names = selected is_both permset.permissions in
      rw
        (permit_selected-visited (suc (count permset)) (select_first permset is_both) s names
          (visited-select_first permset is_both few))
        (rw (permit_list-append names (default_permissions) s) refl)
