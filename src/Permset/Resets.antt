-- ===== src/Permset/Resets.antt =====
-- utils/permset.c: what `permset_reset` does to the flags of every name.
use afb_app_manager.Base.{
  Option, none, some, List, [], ◌∷◌, Bytes, ◌≡◌, refl, arith, length, ap, suc,
}
use afb_app_manager.Permset.{Permission, Permset, find, get, reset_entry, reset_all, reset, Reset}
use afb_app_manager.Permset.Bounds.{Distinct, IsValid}

abbrev pub reset_found : Reset → Option Permission → Option Permission
reset_found it none = none
reset_found it (some p) = some (reset_entry it p)

find-reset_all :
    (it : Reset) (name : Bytes) (ps : List Permission)
    → find name (reset_all it ps) ≡ reset_found it (find name ps)
unfolding find reset_all
find-reset_all it name [] = refl
find-reset_all it name (p ∷ ps) = ground (arith, find-reset_all it name ps)

Distinct-reset_all : (it : Reset) (ps : List Permission) → Distinct ps → Distinct (reset_all it ps)
unfolding reset_all
Distinct-reset_all it [] d = d
Distinct-reset_all it (p ∷ ps) d =
    ground (arith, Distinct-reset_all it ps d.1, find-reset_all it p.name ps)

length-reset_all : (it : Reset) (ps : List Permission) → length (reset_all it ps) ≡ length ps
unfolding reset_all
length-reset_all it [] = refl
length-reset_all it (p ∷ ps) = ap suc (length-reset_all it ps)

-- After `permset_reset` of a valid set, a search of any name finds the entry that was there before with
-- the flags asked for taken away, and nothing where there was nothing; and the set is valid.
pub get-reset :
    (s : Permset) (it : Reset) (name : Bytes)
    → IsValid s
    → (get (reset s it) name ≡ reset_found it (get s name)) × IsValid (reset s it)
unfolding reset
get-reset s it name v = (
  find-reset_all it name s.permissions,
  record {
    distinct = Distinct-reset_all it s.permissions v.distinct;
    fits = omega (arith, v.fits, length-reset_all it s.permissions);
    by_eight = v.by_eight;
  },
)
