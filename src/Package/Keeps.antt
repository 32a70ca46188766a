-- ===== src/Package/Keeps.antt =====
-- afmpkg/afmpkg.c: what every operation keeps, the steps between `begin` and `end` keep.
use afb_app_manager.Base.{
  ℕ, zero, suc, Bool, true, false, Option, none, some, List, [], ◌∷◌, Bytes, ℤ, is_neg, Bool-cases,
  inl, inr,
}
use afb_app_manager.PathEntry.{Entry}
use afb_app_manager.PathEntry.Walk.{Walk, is_ok, and_then, path_entry_for_each_in_buffer}
use afb_app_manager.PathEntry.Walk.Trail.{
  Step, visit, too_long, trail_of, call_all, path_entry_for_each-trail_of,
}
use afb_app_manager.Permset.{Permset, select_first, select_next, is_both, current, count}
use afb_app_manager.Permits.{
  setup_permissions, permit_selected, permit_list, then_defaults, default_permissions,
}
use afb_app_manager.Package.Security.{settled}

-- A walk keeps what each call of its function keeps.
module _ {S : Type 0} (P : S → Type 0) (fun : S → Entry → Bytes → ℤ × S) where
  and_then-keeps :
      (r : ℤ × S) (next : S → ℤ × S)
      → P r.1
      → ((s : S) → P s → P (next s).1)
      → P (and_then r next).1
  and_then-keeps (rc, s) next h k = elim (Bool-cases (is_ok rc)) [
    | inl e ↦ rw e (k s h)
    | inr e ↦ rw e h
  ]

  abbrev pub Kept : Type 0
  Kept = (s : S) (e : Entry) (p : Bytes) → P s → P (fun s e p).1

  call_all-keeps : Kept → (steps : List Step) (s : S) → P s → P (call_all fun steps s).1
  unfolding call_all
  call_all-keeps each [] s h = h
  call_all-keeps each (visit e path ∷ more) s h =
      and_then-keeps (fun s e path) (call_all fun more) (each s e path h)
        (λ s1 h1. call_all-keeps each more s1 h1)
  call_all-keeps each (too_long ∷ more) s h = h

  pub walk-keeps :
      Kept
      → (w : Walk) (silent : Bool) (root : Entry) (start : Bytes) (s : S) → P s
      → P (path_entry_for_each_in_buffer w silent fun root start s).1
  walk-keeps each w silent root start s h =
      rw (path_entry_for_each-trail_of fun w silent root start s)
        (call_all-keeps each (trail_of w silent root start) s h)

-- The calls of `setperm`.
module _ {S : Type 0} (P : S → Type 0) (setperm : S → Option Bytes → ℤ × S)
    (each : (s : S) (n : Option Bytes) → P s → P (setperm s n).1) where
  permit_list-keeps : (ns : List (Option Bytes)) (s : S) → P s → P (permit_list setperm ns s).1
  unfolding permit_list
  permit_list-keeps [] s h = h
  permit_list-keeps (n ∷ ns) s h = elim (Bool-cases (is_neg (setperm s n).0)) [
    | inl e ↦ rw e (each s n h)
    | inr e ↦ rw e (permit_list-keeps ns (setperm s n).1 (each s n h))
  ]

  abbrev AllKept : Option (ℤ × S) → Type 0
  AllKept none = Unit
  AllKept (some (rc, s)) = P s

  permit_selected-keeps :
      (fuel : ℕ) (x : Bool × Permset) (s : S) → P s → AllKept (permit_selected setperm fuel x s)
  unfolding permit_selected
  permit_selected-keeps zero (found, permset) s h = tt
  permit_selected-keeps (suc fuel) (false, permset) s h = h
  permit_selected-keeps (suc fuel) (true, permset) s h =
      let h' = each s (current permset) h in
      elim (Bool-cases (is_neg (setperm s (current permset)).0)) [
        | inl e ↦ rw e h'
        | inr e ↦ rw e (
            permit_selected-keeps fuel (select_next permset is_both) (setperm s (current permset)).1
              h')
      ]

  defaults-keeps : (o : Option (ℤ × S)) → AllKept o → AllKept (then_defaults setperm o)
  defaults-keeps none h = tt
  defaults-keeps (some (rc, s)) h = elim (Bool-cases (is_neg rc)) [
    | inl e ↦ rw e h
    | inr e ↦ rw e (permit_list-keeps default_permissions s h)
  ]

  settled-keeps : (o : Option (ℤ × S)) (s : S) → P s → AllKept o → P (settled s o).1
  settled-keeps none s h k = h
  settled-keeps (some (rc, t)) s h k = k

  pub setup_permissions-keeps :
      (permset : Permset) (s : S) → P s → P (settled s (setup_permissions setperm permset s)).1
  unfolding setup_permissions
  setup_permissions-keeps permset s h = settled-keeps _ s h (
      defaults-keeps _
        (permit_selected-keeps (suc (count permset)) (select_first permset is_both) s h))
