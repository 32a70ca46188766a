-- ===== src/PathEntry/Vars.antt =====
-- utils/path-entry.c: the variables of an entry as a map from keys to values.
use afb_app_manager.Base.{
  refl, ◌+◌, length, ◌≢◌, ℕ, Bool, Option, none, some, List, [], ◌∷◌, ◌≡◌, arith, if◌then◌else◌,
  ◌==◌, Memory, pos,
}
use afb_app_manager.PathEntry.{
  label, path_entry_var_count, path_entry_var_exists, Var, Entry, entry, search_var, set_var,
  path_entry_var, path_entry_var_set,
}

abbrev value_in : Option Var → ℕ
value_in none = 0
value_in (some v) = v.value

search_var-set_var :
    (key value j : ℕ) (disposes : Bool) (vs : List Var)
    → value_in (search_var j (set_var key value disposes vs)) ≡ (
        if key == j
        then elim (search_var key vs) [ none ↦ 0 | some _ ↦ value ]
        else value_in (search_var j vs))
unfolding search_var set_var
search_var-set_var key value j disposes [] = ground arith
search_var-set_var key value j disposes (v ∷ vs) =
    ground (arith, search_var-set_var key value j disposes vs)

-- Where `path_entry_var_set` returns 0, the key has the new value, and every other key has the
-- value that it had.
pub path_entry_var-path_entry_var_set :
    (m : Memory) (e : Entry) (key value j : ℕ) (disposes : Bool)
    → (path_entry_var_set m e key value disposes).0 ≡ pos 0
    → path_entry_var (path_entry_var_set m e key value disposes).1 j
      ≡ (if key == j then value else path_entry_var e j)
unfolding path_entry_var_set search_var
path_entry_var-path_entry_var_set m (entry l cs) key value j disposes h =
    ground (arith, search_var-set_var key value j disposes l.vars)

length-set_var :
    (key value : ℕ) (disposes : Bool) (vs : List Var)
    → length (set_var key value disposes vs) ≡ length vs
unfolding set_var
length-set_var key value disposes [] = refl
length-set_var key value disposes (v ∷ vs) = ground (arith, length-set_var key value disposes vs)

-- Where `path_entry_var_set` returns 0, the number of variables is one more than before
-- if it did not exist, and the same if it did; where it fails, the entry is as it was.
pub path_entry_var_count-path_entry_var_set :
    (m : Memory) (e : Entry) (key value : ℕ) (disposes : Bool)
    → ((path_entry_var_set m e key value disposes).0 ≡ pos 0
        → path_entry_var_count (path_entry_var_set m e key value disposes).1 ≡ (
            if path_entry_var_exists e key
            then path_entry_var_count e
            else path_entry_var_count e + 1))
      × ((path_entry_var_set m e key value disposes).0 ≢ pos 0
          → (path_entry_var_set m e key value disposes).1 ≡ e)
unfolding path_entry_var_set search_var
path_entry_var_count-path_entry_var_set m e key value disposes =
    ground (arith, length-set_var key value disposes (label e).vars)
