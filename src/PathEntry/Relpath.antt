-- ===== src/PathEntry/Relpath.antt =====
-- utils/path-entry.c: the path of an entry in a buffer, and the removal of an entry from its tree.
-- An entry below a root is its labels from the entry up to the one below that root.
use afb_app_manager.Base.{
  ℕ, Bool, true, false, not, ◌&&◌, ◌||◌, Option, none, some, List, [], ◌∷◌, ◌++◌, Bytes, length,
  equal, drop, ltb, if◌then◌else◌,
}
use afb_app_manager.PathEntry.{
  Label, Entry, entry, Children, nil, cons, name, Round, search_child, replace_child,
}

-- The flags PATH_ENTRY_FORCE_LEADING_SLASH and PATH_ENTRY_NO_LEADING_SLASH.
pub record Slashes : Type 0 where
  pub forced : Bool
  pub no_leading : Bool

-- What is put in the buffer: a text and its NUL; the slash only, or nothing, with no NUL and the
-- length to return; or the field of a NULL entry is read.
pub data Relpath : Type 0 where
  text : Bytes → Relpath
  bare : Bool → ℕ → Relpath
  null : Relpath

abbrev pub is_empty : Bytes → Bool
is_empty [] = true
is_empty (c ∷ cs) = false

-- Where no parent below the root has a name.
unfoldable pub is_first : List Label → Bool
is_first [] = true
is_first (l ∷ up) = is_empty l.name && is_first up

abbrev pub leading : Slashes → Label → Bool
leading flags l = flags.forced || not flags.no_leading && l.has_slash

-- At the end of the parents: the root, if the code is given one.
abbrev pub at_root : Slashes → Option Entry → Relpath
at_root flags none = if flags.forced then null else bare false 0
at_root flags (some r) = if flags.forced then bare (not (is_empty (name r))) 1 else bare false 0

abbrev pub behind : Relpath → Bytes → Relpath
behind (text t) n = text (t ++ b'/' ∷ n)
behind (bare slash k) n = text (b'/' ∷ n)
behind null n = null

-- `path_entry_relpath`
unfoldable pub path_entry_relpath : Slashes → Option Entry → List Label → Relpath
path_entry_relpath flags root [] = at_root flags root
path_entry_relpath flags root (l ∷ up) =
    let before = path_entry_relpath flags root up in
    if is_empty l.name
    then before
    else if is_first up
    then text (if leading flags l then b'/' ∷ l.name else l.name)
    else behind before l.name

-- Its return.
abbrev pub result : Relpath → ℕ
result (text t) = length t
result (bare slash k) = k
result null = 0

-- The text in a buffer of that many bytes, over what was there; `none` is a text with no NUL in it.
abbrev pub in_buffer : ℕ → Option Bytes → Relpath → Option Bytes
in_buffer size old (text t) = if ltb (length t) size then some t else none
in_buffer size none (bare slash k) = none
in_buffer size (some old) (bare slash k) = some (if slash then b'/' ∷ drop 1 old else old)
in_buffer size old null = none

-- `path_entry_destroy`: the entry that the names lead to, the first from the root, is unlinked.
unfoldable pub remove_child : Bytes → Children → Children
remove_child n nil = nil
remove_child n (cons x xs) = if equal (name x) n then xs else cons x (remove_child n xs)

unfoldable pub path_entry_destroy : Entry → List Round → Option Entry
path_entry_destroy e [] = none
path_entry_destroy (entry l cs) ((n, rest) ∷ more) = elim (search_child n cs) [
  | none ↦ some (entry l cs)
  | some child ↦ elim (path_entry_destroy child more) [
    | none ↦ some (entry l (remove_child n cs))
    | some child' ↦ some (entry l (replace_child n child' cs))
  ]
]
