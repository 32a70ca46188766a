-- ===== src/PathEntry/Paths.antt =====
-- utils/path-entry.c: the tree as a set of paths, and `path_entry_add` on it.
use afb_app_manager.Base.{
  Bool, true, false, ◌||◌, ◌&&◌, Option, none, some, List, [], ◌∷◌, Bytes, equal, equal_iff, ◌≡◌,
  refl, arith, is_some, Memory, alloc, Option-cases, inl, inr, ◌∙◌, sym, pos,
}
use mathlib.Core.Path.{subst}
use afb_app_manager.PathEntry.{
  path_entry_add, rounds, starts_with_slash, Label, Entry, Children, entry, name, label, children,
  search_child, insert_child, replace_child, Round, find_entry, add_entry, fresh,
}
use afb_app_manager.PathEntry.Search.{
  search_child-insert_child, search_child-replace_child, name-search_child,
}

-- The names of `p` are the first ones of `q`; the names of `p` are those of `q`.
pub is_prefix : List Round → List Round → Bool
is_prefix [] q = true
is_prefix (r ∷ rs) [] = false
is_prefix (r ∷ rs) (x ∷ xs) = equal r.0 x.0 && is_prefix rs xs

pub same_path : List Round → List Round → Bool
same_path [] [] = true
same_path (r ∷ rs) (x ∷ xs) = equal r.0 x.0 && same_path rs xs
same_path _ _ = false

-- The tree has an entry for that path, and one that was added.
abbrev pub has : Entry → List Round → Bool
has e q = is_some (find_entry e q)

abbrev added_in : Option Entry → Bool
added_in none = false
added_in (some e) = (label e).is_added

abbrev pub has_added : Entry → List Round → Bool
has_added e q = added_in (find_entry e q)

name-add_entry :
    (m : Memory) (e : Entry) (slash : Bool) (p : List Round)
    → name (add_entry m e slash p).1 ≡ name e
unfolding add_entry
name-add_entry m (entry l cs) slash [] = refl
name-add_entry m (entry l cs) slash (r ∷ rs) = ground arith

record Grown (e t : Entry) (p q : List Round) : Type 0 where
  pub kept : has t q ≡ (has e q || is_prefix q p)
  pub marked : has_added t q ≡ (has_added e q || same_path q p)

find_entry-fresh :
    (n : Bytes) (slash : Bool) (p q : List Round)
    → ((has (fresh n slash) q || is_prefix q p) ≡ is_prefix q p)
      × (has_added (fresh n slash) q ≡ false)
unfolding find_entry is_prefix search_child
find_entry-fresh n slash p [] = (refl, refl)
find_entry-fresh n slash p (x ∷ xs) = (refl, refl)

Grown-insert_child :
    (l : Label) (cs : Children) (n rest : Bytes) (slash : Bool) (child : Entry) (x : Round)
    (rs xs : List Round)
    → search_child n cs ≡ none
    → name child ≡ n
    → Grown (fresh n slash) child rs xs
    → Grown (entry l cs) (entry l (insert_child rest child cs)) ((n, rest) ∷ rs) (x ∷ xs)
unfolding find_entry is_prefix same_path
Grown-insert_child l cs n rest slash child x rs xs h k g = ground (
  arith,
  search_child-insert_child x.0 rest child cs,
  find_entry-fresh n slash rs xs,
  g.kept,
  g.marked,
  equal_iff n x.0,
  equal_iff x.0 n,
)

Grown-replace_child :
    (l : Label) (cs : Children) (n rest : Bytes) (old new : Entry) (x : Round) (rs xs : List Round)
    → search_child n cs ≡ some old
    → name new ≡ n
    → Grown old new rs xs
    → Grown (entry l cs) (entry l (replace_child n new cs)) ((n, rest) ∷ rs) (x ∷ xs)
unfolding find_entry is_prefix same_path
Grown-replace_child l cs n rest old new x rs xs h k g = ground (
  arith,
  search_child-replace_child x.0 n new cs,
  g.kept,
  g.marked,
  equal_iff n x.0,
  equal_iff x.0 n,
)

-- At the entry that it starts from, an addition below it changes nothing.
Grown-here :
    (l : Label) (cs ds : Children) (r : Round) (rs : List Round)
    → Grown (entry l cs) (entry l ds) (r ∷ rs) []
unfolding find_entry is_prefix same_path
Grown-here l cs ds r rs = ground arith

label-add_entry :
    (m : Memory) (l : Label) (cs : Children) (slash : Bool) (r : Round) (rs : List Round)
    → (add_entry m (entry l cs) slash (r ∷ rs)).1
      ≡ entry l (children (add_entry m (entry l cs) slash (r ∷ rs)).1)
unfolding add_entry
label-add_entry m l cs slash r rs = ground arith

-- A new child takes one allocation, and those of its own path.
add_entry_new :
    (m : Memory) (l : Label) (cs : Children) (slash : Bool) (r : Round) (rs : List Round)
    → search_child r.0 cs ≡ none
    → (add_entry m (entry l cs) slash (r ∷ rs)).0 ≡ true
    → ((alloc m).0 ≡ true) × ((add_entry (alloc m).1 (fresh r.0 slash) true rs).0 ≡ true)
unfolding add_entry
add_entry_new m l cs slash r rs e h = ground arith

add_entry-Grown :
    (p q : List Round) (m : Memory) (e : Entry) (slash : Bool)
    → (add_entry m e slash p).0 ≡ true
    → Grown e (add_entry m e slash p).1 p q
unfolding add_entry
add_entry-Grown [] [] m (entry l cs) slash h = unfold find_entry is_prefix same_path in ground arith
add_entry-Grown [] (x ∷ xs) m (entry l cs) slash h =
    unfold find_entry is_prefix same_path in ground arith
add_entry-Grown (r ∷ rs) [] m (entry l cs) slash h =
    subst (λ t. Grown (entry l cs) t (r ∷ rs) []) (sym (label-add_entry m l cs slash r rs))
      (Grown-here l cs (children (add_entry m (entry l cs) slash (r ∷ rs)).1) r rs)
add_entry-Grown (r ∷ rs) (x ∷ xs) m (entry l cs) slash h =
    let m1 = (alloc m).1 in
    let child = (add_entry m1 (fresh r.0 slash) true rs).1 in
    let named = name-add_entry m1 (fresh r.0 slash) true rs in
    elim (Option-cases (search_child r.0 cs)) [
      | inl e ↦
          let (roomy, made) = add_entry_new m l cs slash r rs e h in
          rw (e, roomy, add_entry)
            (Grown-insert_child l cs r.0 r.1 slash child x rs xs e named
              (add_entry-Grown rs xs m1 (fresh r.0 slash) true made))
      | inr (old, e) ↦
          rw (e, add_entry)
            (Grown-replace_child l cs r.0 r.1 old (add_entry m old true rs).1 x rs xs e
              (name-add_entry m old true rs ∙ name-search_child r.0 cs old e)
              (add_entry-Grown rs xs m old true (rw (e, add_entry) at h)))
    ]

-- Where `path_entry_add` returns 0, the tree has a path exactly if it had it before or if the path
-- is the added one or one above it; and the marked paths are those of before and the added one.
pub path_entry_add-Grown :
    (m : Memory) (e : Entry) (path other : Bytes)
    → (path_entry_add m e path).0 ≡ pos 0
    → (has (path_entry_add m e path).1 (rounds other)
        ≡ (has e (rounds other) || is_prefix (rounds other) (rounds path)))
      × (has_added (path_entry_add m e path).1 (rounds other)
          ≡ (has_added e (rounds other) || same_path (rounds other) (rounds path)))
unfolding path_entry_add
path_entry_add-Grown m e path other h =
    let g =
      add_entry-Grown (rounds path) (rounds other) m e (starts_with_slash path) (ground arith) in
    (g.kept, g.marked)
