-- ===== src/PathEntry/Walk.antt =====
-- utils/path-entry.c: `path_entry_for_each_in_buffer`, with what it calls in turn.
pub mod Trail
use afb_app_manager.Base.{
  ℕ, ◌+◌, ◌<◌, ◌≤◌, Bool, true, false, not, ◌&&◌, ◌||◌, Option, none, some, List, [], ◌∷◌, ◌++◌,
  Bytes, ℤ, pos, neg, length, length-append, ltb, ◌==◌, if◌then◌else◌, ◌≡◌, refl, ◌∙◌, ap, sym,
  arith, All, Bool-cases, Option-cases, inl, inr,
}
use afb_app_manager.PathEntry.{Label, Entry, entry, Children, nil, cons, label, children}

abbrev pub enametoolong : ℤ
enametoolong = neg 36

-- The flags `PATH_ENTRY_FORALL_...` and the size of the buffer.
pub record Walk : Type 0 where
  pub only_added : Bool
  pub at_entry : Bool
  pub at_exit : Bool
  pub no_path : Bool
  pub size : ℕ

-- The path of an entry below `path`: the bytes of the buffer up to `fe->length`. `none` is the return of
-- -ENAMETOOLONG.
unfoldable pub extend : Walk → Bytes → Label → Option Bytes
extend w path l =
    if length l.name == 0 || w.no_path
    then some path
    else if ltb w.size (length path + length l.name + 2)
    then none
    else some (path ++ (if ltb 0 (length path) || l.has_slash then b'/' ∷ l.name else l.name))

abbrev pub emits : Walk → Label → Bool
emits w l = not w.only_added || l.is_added

abbrev pub is_ok : ℤ → Bool
is_ok (pos n) = n == 0
is_ok _ = false

-- Where neither moment is asked for, it is the exit.
abbrev pub with_moment : Walk → Walk
with_moment w = if w.at_entry || w.at_exit then w else record w { at_exit = true }

module _ {ℓ} {S : Type ℓ} where
  -- The next step is taken while `rc == 0`.
  abbrev pub and_then : ℤ × S → (S → ℤ × S) → ℤ × S
  and_then (rc, s) next = if is_ok rc then next s else (rc, s)

  -- A call of `fun`, which is given the closure, the entry and its path.
  abbrev pub call : Bool → (S → Entry → Bytes → ℤ × S) → Entry → Bytes → S → ℤ × S
  call emit fun e path s = if emit then fun s e path else (pos 0, s)

  -- `do_foreach` on each entry of a list of children.
  unfoldable pub do_foreach : Walk → (S → Entry → Bytes → ℤ × S) → Children → Bytes → S → ℤ × S
  do_foreach w fun nil path s = (pos 0, s)
  do_foreach w fun (cons (entry l cs) es) path s = elim (extend w path l) [
    | none ↦ (enametoolong, s)
    | some p ↦ and_then (call (emits w l && w.at_entry) fun (entry l cs) p s) (λ s1.
        and_then (do_foreach w fun cs p s1) (λ s2.
          and_then (call (emits w l && w.at_exit) fun (entry l cs) p s2)
            (λ s3. do_foreach w fun es path s3)))
  ]

  -- `start` is the path of the root, of `path_entry_get_path`, or empty. With
  -- `PATH_ENTRY_FORALL_SILENT_ROOT` the root is passed over.
  unfoldable pub path_entry_for_each_in_buffer :
      Walk → Bool → (S → Entry → Bytes → ℤ × S) → Entry → Bytes → S → ℤ × S
  path_entry_for_each_in_buffer w silent_root fun root start s =
      if silent_root
      then do_foreach (with_moment w) fun (children root) start s
      else do_foreach (with_moment w) fun (cons root nil) start s
