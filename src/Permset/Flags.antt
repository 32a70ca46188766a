-- ===== src/Permset/Flags.antt =====
-- utils/permset.c: what `add` and its three uses do to the flags of every name.
use afb_app_manager.Base.{
  Bool, true, false, Option, none, some, [], ◌∷◌, ◌++◌, Bytes, equal, equal_iff, equal_refl, ◌≡◌,
  refl, ap, ◌∙◌, arith, if◌then◌else◌, is_neg, Memory, enomem,
}
use afb_app_manager.Permset.{
  Permission, Permset, find, get, mark, fresh, grow, enter, settle, add, verdict, allowed,
}
use afb_app_manager.Permset.Lookup.{mark_found, find-mark_first, find-append_fresh}

-- The entry that `add` works on: the recorded one, or a new one.
abbrev pub entry_or_fresh : Bytes → Option Permission → Permission
entry_or_fresh name none = fresh name
entry_or_fresh name (some p) = p

pub permissions-grow : (m : Memory) (s : Permset) → (grow m s).1.permissions ≡ s.permissions
unfolding grow
permissions-grow m s = ground arith

-- A new name is recorded behind the others, or nothing is.
pub permissions-enter :
    (m : Memory) (s : Permset) (name : Bytes)
    → (enter m s name).1.permissions
      ≡ (if (enter m s name).0 then s.permissions ++ fresh name ∷ [] else s.permissions)
unfolding enter
permissions-enter m s name = ground (arith, permissions-grow m s)

get-settle :
    (s : Permset) (name j : Bytes) (grant request : Bool)
    → get (settle s name grant request).1 j
      ≡ (if equal name j then mark_found grant request (get s j) else get s j)
unfolding settle
get-settle s name j grant request = find-mark_first name j grant request s.permissions

verdict-settle :
    (s : Permset) (name : Bytes) (grant request : Bool)
    → (settle s name grant request).0 ≡ verdict (get (settle s name grant request).1 name)
unfolding settle
verdict-settle s name grant request = refl

-- The entry that `add` works on, after its marking.
abbrev pub marked : Bytes → Bool → Bool → Option Permission → Permission
marked name grant request o = mark grant request (entry_or_fresh name o)

verdict_not_neg : (o : Option Permission) → is_neg (verdict o) ≡ false
verdict_not_neg o = ground arith

get-enter :
    (m : Memory) (s : Permset) (name j : Bytes)
    → get s name ≡ none
    → (enter m s name).0 ≡ true
    → get (enter m s name).1 j ≡ (if equal name j then some (fresh name) else get s j)
get-enter m s name j h e =
    ap (find j) (permissions-enter m s name ∙ rw e) ∙ find-append_fresh name j s.permissions h

-- Where `add` does not fail, a search of any name finds the marked entry if it is the name that
-- was added, and what was there before if it is another.
pub get-add :
    (m : Memory) (s : Permset) (name j : Bytes) (grant request : Bool)
    → is_neg (add m s name grant request).0 ≡ false
    → get (add m s name grant request).1 j
      ≡ (if equal name j then some (marked name grant request (get s name)) else get s j)
unfolding add
get-add m s name j grant request h = ground (
  arith,
  get-settle s name j grant request,
  get-settle (enter m s name).1 name j grant request,
  get-enter m s name j,
  equal_iff name j,
)

-- The value that `add` returns, where it does not fail: 1 if the marked entry is both requested
-- and granted, 0 if not.
pub verdict-add :
    (m : Memory) (s : Permset) (name : Bytes) (grant request : Bool)
    → is_neg (add m s name grant request).0 ≡ false
    → (add m s name grant request).0 ≡ allowed (marked name grant request (get s name))
unfolding add
verdict-add m s name grant request h = ground (
  arith,
  verdict-settle s name grant request,
  verdict-settle (enter m s name).1 name grant request,
  get-settle s name name grant request,
  get-settle (enter m s name).1 name name grant request,
  get-enter m s name name,
  equal_refl name,
)

-- Where `add` fails, the error is -ENOMEM, the name was not recorded, and no entry has changed.
pub add_failed :
    (m : Memory) (s : Permset) (name : Bytes) (grant request : Bool)
    → is_neg (add m s name grant request).0 ≡ true
    → ((add m s name grant request).0 ≡ enomem)
      × (get s name ≡ none)
      × ((add m s name grant request).1.permissions ≡ s.permissions)
unfolding add
add_failed m s name grant request h = ground (
  arith,
  permissions-enter m s name,
  verdict-settle s name grant request,
  verdict-settle (enter m s name).1 name grant request,
  verdict_not_neg (get (settle s name grant request).1 name),
  verdict_not_neg (get (settle (enter m s name).1 name grant request).1 name),
)
