-- ===== src/PathEntry/Search.antt =====
-- utils/path-entry.c: `search_child` after the two writes of a list of children.
use afb_app_manager.Base.{
  true, none, some, Bytes, equal, equal_iff, ◌≡◌, refl, arith, if◌then◌else◌, is_some,
}
use afb_app_manager.PathEntry.{
  Entry, Children, nil, cons, name, search_child, insert_child, replace_child,
}

pub search_child-insert_child :
    (n rest : Bytes) (e : Entry) (cs : Children)
    → search_child (name e) cs ≡ none
    → search_child n (insert_child rest e cs)
      ≡ (if equal (name e) n then some e else search_child n cs)
unfolding search_child insert_child
search_child-insert_child n rest e nil h = refl
search_child-insert_child n rest e (cons x xs) h = ground (
  arith,
  search_child-insert_child n rest e xs,
  equal_iff (name x) (name e),
  equal_iff (name e) n,
  equal_iff (name x) n,
)

pub search_child-replace_child :
    (n k : Bytes) (e : Entry) (cs : Children)
    → is_some (search_child k cs) ≡ true
    → name e ≡ k
    → search_child n (replace_child k e cs) ≡ (if equal k n then some e else search_child n cs)
unfolding search_child replace_child
search_child-replace_child n k e nil s h = cc
search_child-replace_child n k e (cons x xs) s h = ground (
  arith,
  search_child-replace_child n k e xs,
  equal_iff (name x) k,
  equal_iff (name e) n,
  equal_iff k n,
  equal_iff (name x) n,
)

-- What is found has the name that was searched.
pub name-search_child :
    (n : Bytes) (cs : Children) (e : Entry) → search_child n cs ≡ some e → name e ≡ n
unfolding search_child
name-search_child n nil e h = cc
name-search_child n (cons x xs) e h = ground (arith, name-search_child n xs e, equal_iff (name x) n)
