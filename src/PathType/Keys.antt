-- ===== src/PathType/Keys.antt =====
-- utils/path-type.c: what the tables of keys and of directories say.
use afb_app_manager.Base.{
  false, none, some, List, [], ◌∷◌, Bytes, equal, ◌≡◌, ◌≢◌, ◌↔◌, ap, ◌∙◌, refl, arith, All,
  Option-cases, inl, inr,
}
use afb_app_manager.PathType.{
  path_type_unset, Filetype, filetypes, type_of_key, path_type_of_property_key,
}

type_of_key-none :
    (key : Bytes) (fs : List Filetype)
    → (type_of_key key fs ≡ none) ↔ All (λ f. equal key f.key ≡ false) fs
unfolding type_of_key
type_of_key-none key [] = (λ h. tt, λ h. refl)
type_of_key-none key (f ∷ fs) = ground (arith, type_of_key-none key fs)

-- No row of the table has the type `path_type_unset`.
type_of_key_ne :
    (key : Bytes) (fs : List Filetype)
    → All (λ f. f.type ≢ path_type_unset) fs
    → type_of_key key fs ≢ some path_type_unset
unfolding type_of_key
type_of_key_ne key [] v h = cc
type_of_key_ne key (f ∷ fs) v h = ground (arith, type_of_key_ne key fs v.1)

filetypes_set : All (λ f. f.type ≢ path_type_unset) filetypes
filetypes_set = ground arith

key_unset :
    (key : Bytes)
    → (path_type_of_property_key key ≡ path_type_unset)
      ↔ All (λ f. equal key f.key ≡ false) filetypes
key_unset key =
    let t = type_of_key-none key filetypes in
    (
      (λ h. elim (Option-cases (type_of_key key filetypes)) [
        | inl n ↦ t.0 n
        | inr (u, e) ↦ absurd (type_of_key_ne key filetypes filetypes_set (e ∙ ap some (rw e at h)))
      ]),
      (λ a. rw (t.1 a) refl),
    )

rows_found : All (λ f. path_type_of_property_key f.key ≡ f.type) filetypes
unfolding type_of_key equal
rows_found = (refl, (refl, (refl, (refl, (refl, (refl, (refl, (refl, (refl, tt)))))))))

-- The key of each row of the table gives the type of that row, and a key gives no type exactly if no row
-- has it.
pub path_type_of_property_key_lem :
    All (λ f. path_type_of_property_key f.key ≡ f.type) filetypes
    × ((key : Bytes)
        → (path_type_of_property_key key ≡ path_type_unset)
          ↔ All (λ f. equal key f.key ≡ false) filetypes)
path_type_of_property_key_lem = (rows_found, key_unset)
