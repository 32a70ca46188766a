-- ===== src/Permset/Lookup.antt =====
-- utils/permset.c, `get` after the writes of `add`.
use afb_app_manager.Base.{
  Bool, Option, none, some, List, [], ◌∷◌, ◌++◌, Bytes, equal, equal_iff, ◌≡◌, arith, if◌then◌else◌,
}
use afb_app_manager.Permset.{Permission, find, mark, mark_first, fresh}

-- Marking the entry of `name` changes what is found under `name`, and nothing else.
abbrev pub mark_found : Bool → Bool → Option Permission → Option Permission
mark_found grant request none = none
mark_found grant request (some p) = some (mark grant request p)

pub find-mark_first :
    (name j : Bytes) (grant request : Bool) (ps : List Permission)
    → find j (mark_first name grant request ps)
      ≡ (if equal name j then mark_found grant request (find j ps) else find j ps)
unfolding find mark_first
find-mark_first name j grant request [] = ground arith
find-mark_first name j grant request (p ∷ ps) = ground (
  arith,
  find-mark_first name j grant request ps,
  equal_iff p.name name,
  equal_iff p.name j,
  equal_iff name j,
)

pub find-append_fresh :
    (name j : Bytes) (ps : List Permission)
    → find name ps ≡ none
    → find j (ps ++ fresh name ∷ []) ≡ (if equal name j then some (fresh name) else find j ps)
unfolding find
find-append_fresh name j [] h = ground arith
find-append_fresh name j (p ∷ ps) h = ground (
  arith,
  find-append_fresh name j ps,
  equal_iff p.name name,
  equal_iff p.name j,
  equal_iff name j,
)
