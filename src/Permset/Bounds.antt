-- ===== src/Permset/Bounds.antt =====
-- utils/permset.c: the names are distinct, and the array has room for every entry that is written.
use afb_app_manager.Base.{
  ◌+◌, ◌^◌, ◌%◌, ◌≤◌, ◌<◌, Bool, true, none, List, [], ◌∷◌, ◌++◌, Bytes, equal_iff, ◌≡◌, refl,
  arith, Memory, length, length-append,
}
use afb_app_manager.Permset.{
  Permission, Permset, count, find, get, mark_first, fresh, grow, enter, settle, add,
}
use afb_app_manager.Permset.Lookup.{find-mark_first, find-append_fresh}
use afb_app_manager.Permset.Flags.{permissions-grow}

abbrev pub Distinct : List Permission → Type 0
Distinct [] = Unit
Distinct (p ∷ ps) = (find p.name ps ≡ none) × Distinct ps

-- The block behind the array holds all entries, and its size is a multiple of 8 entries, so that
-- it is full only where `count` is one too.
pub record IsValid (s : Permset) : Type 0 where
  pub distinct : Distinct s.permissions
  pub fits : count s ≤ s.slots
  pub by_eight : s.slots % 8 ≡ 0

length-mark_first :
    (name : Bytes) (grant request : Bool) (ps : List Permission)
    → length (mark_first name grant request ps) ≡ length ps
unfolding mark_first
length-mark_first name grant request [] = refl
length-mark_first name grant request (p ∷ ps) =
    ground (arith, length-mark_first name grant request ps)

Distinct-mark_first :
    (name : Bytes) (grant request : Bool) (ps : List Permission)
    → Distinct ps
    → Distinct (mark_first name grant request ps)
unfolding mark_first
Distinct-mark_first name grant request [] d = d
Distinct-mark_first name grant request (p ∷ ps) d = ground (
  arith,
  Distinct-mark_first name grant request ps d.1,
  find-mark_first name p.name grant request ps,
)

Distinct-append_fresh :
    (name : Bytes) (ps : List Permission)
    → find name ps ≡ none
    → Distinct ps
    → Distinct (ps ++ fresh name ∷ [])
unfolding find
Distinct-append_fresh name [] h d = (refl, tt)
Distinct-append_fresh name (p ∷ ps) h d = ground (
  arith,
  Distinct-append_fresh name ps,
  find-append_fresh name p.name ps,
  equal_iff p.name name,
  equal_iff name p.name,
)

-- The write behind the last entry stays inside the block.
pub count-lt-slots :
    (m : Memory) (s : Permset)
    → IsValid s
    → count s + 8 < 2 ^ 32
    → (grow m s).0 ≡ true
    → count s < (grow m s).1.slots
unfolding grow
count-lt-slots m s v small h = ground arith

settle-IsValid :
    (s : Permset) (name : Bytes) (grant request : Bool)
    → IsValid s
    → IsValid (settle s name grant request).1
unfolding settle
settle-IsValid s name grant request v = record {
  distinct = Distinct-mark_first name grant request s.permissions v.distinct;
  fits = omega (arith, length-mark_first name grant request s.permissions);
  by_eight = v.by_eight;
}

grow-IsValid : (m : Memory) (s : Permset) → IsValid s → count s + 8 < 2 ^ 32 → IsValid (grow m s).1
unfolding grow
grow-IsValid m s v small = record {
  distinct = ground (arith, v.distinct);
  fits = ground arith;
  by_eight = ground arith;
}

-- One more entry, where the block has room for it.
push-IsValid :
    (s : Permset) (name : Bytes)
    → get s name ≡ none
    → IsValid s
    → count s < s.slots
    → IsValid (record s { permissions = s.permissions ++ fresh name ∷ [] })
push-IsValid s name h v room = record {
  distinct = Distinct-append_fresh name s.permissions h v.distinct;
  fits = omega (arith, length-append s.permissions (fresh name ∷ []));
  by_eight = v.by_eight;
}

enter-IsValid :
    (m : Memory) (s : Permset) (name : Bytes)
    → get s name ≡ none
    → IsValid s
    → count s + 8 < 2 ^ 32
    → IsValid (enter m s name).1
unfolding enter
enter-IsValid m s name h v small = ground (
  arith,
  permissions-grow m s,
  count-lt-slots m s v small,
  grow-IsValid m s v small,
  push-IsValid (grow m s).1 name,
)

-- Where the set has less than 2 ^ 32 - 8 entries, `add`, failing or not, keeps the names distinct and the
-- entries inside their block.
pub add-IsValid :
    (m : Memory) (s : Permset) (name : Bytes) (grant request : Bool)
    → IsValid s
    → count s + 8 < 2 ^ 32
    → IsValid (add m s name grant request).1
unfolding add
add-IsValid m s name grant request v small = ground (
  arith,
  settle-IsValid s name grant request v,
  enter-IsValid m s name,
  settle-IsValid (enter m s name).1 name grant request,
)
