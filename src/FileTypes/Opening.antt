-- ===== src/FileTypes/Opening.antt =====
-- afmpkg/afmpkg.c: the directories that lead to public files are public.
use afb_app_manager.Base.{ℕ, Bool, true, false, ◌&&◌, [], pos, leb, ◌≡◌, refl, arith}
use afb_app_manager.PathEntry.{Label, Entry, entry, Children, nil, cons, path_entry_var_set}
use afb_app_manager.PathEntry.Vars.{path_entry_var-path_entry_var_set}
use afb_app_manager.FileTypes.{
  key_type, set_entry_type, type_of_label, set_label_type, open_parent, open_types,
}

var_set_done :
    (e : Entry) (key value : ℕ)
    → ((path_entry_var_set [] e key value false).0 ≡ pos 0)
      × ((path_entry_var_set [] e key value false).3 ≡ [])
unfolding path_entry_var_set
var_set_done e key value = ground arith

pub set_entry_type_done : (e : Entry) (type : ℕ) → (set_entry_type [] e type).2 ≡ []
set_entry_type_done e type = (var_set_done e key_type type).1

-- With memory at hand a type is set.
pub set_label_type_done :
    (l : Label) (type : ℕ)
    → ((set_label_type [] l type).0 ≡ pos 0)
      × (type_of_label (set_label_type [] l type).1 ≡ type)
      × ((set_label_type [] l type).2 ≡ [])
unfolding set_label_type type_of_label
set_label_type_done l type =
    let e : Entry = entry l nil in
    let (rc, m) = var_set_done e key_type type in
    (rc, path_entry_var-path_entry_var_set [] e key_type type key_type false rc, m)

abbrev pub is_public : ℕ → Bool
is_public type = leb 10 type && leb type 12

-- An entry with a public one in it has the type `path_type_Public`.
unfoldable pub Opened : Label → Children → Type 0
Opened l nil = Unit
Opened l (cons (entry k cs) es) =
    (is_public (type_of_label k) ≡ true → type_of_label l ≡ 10) × Opened k cs × Opened l es

open_parent_lem :
    (type : ℕ) (l : Label)
    → (is_public type ≡ true → type_of_label (open_parent [] type l).0 ≡ 10)
      × (type_of_label l ≡ 10 → type_of_label (open_parent [] type l).0 ≡ 10)
      × ((open_parent [] type l).1 ≡ [])
unfolding open_parent
open_parent_lem type l = ground (arith, set_label_type_done l 9, set_label_type_done l 10)

pub Opened-open_types :
    (l : Label) (cs : Children)
    → Opened (open_types [] l cs).0 (open_types [] l cs).1
      × (type_of_label l ≡ 10 → type_of_label (open_types [] l cs).0 ≡ 10)
      × ((open_types [] l cs).2 ≡ [])
unfolding open_types Opened
Opened-open_types l nil = (tt, λ e. e, refl)
Opened-open_types l (cons (entry k cs) es) =
    let (k', cs', m1) = open_types [] k cs in
    let (below, kept, none_left) = Opened-open_types k cs in
    let (raised, public, none_left2) = open_parent_lem (type_of_label k') l in
    let (l', m2) = open_parent [] (type_of_label k') l in
    let (after, kept2, none_left3) = Opened-open_types l' es in
    rw (none_left, none_left2)
      ((λ e. kept2 (raised e), below, after), λ e. kept2 (public e), none_left3)
