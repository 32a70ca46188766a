-- ===== src/Examples/Manifests.antt =====
-- A manifest that is checked and completed, over a json-c that never fails.
use afb_app_manager.Base.{
  Bool, true, false, Option, none, some, [], Bytes, codes, equal, equal→eq, ℤ, pos, einval, is_neg,
  ◌≡◌, refl, ap, if◌then◌else◌,
}
use afb_app_manager.Manifest.{
  JsonC, ItemType, type_object, type_array, type_string, add, fulfill, fulfill_with, retargets,
  adapt_permissions_of, add_perm_from_string, adapt_all_permissions, manifest_normalize,
  check_valid_string, manifest_check, manifest_read, manifest_read_and_check,
}
use afb_app_manager.ManifestText.{
  make_lowercase, dash_to_underscore, major, minor, is_valid, all_valid, mkver,
}
use afb_app_manager.Manifest.Kept.{IsJsonC}
use afb_app_manager.Manifest.Normal.{text_of}
use afb_app_manager.Manifest.Checked.{IsAccepted, manifest_read_and_check-IsAccepted}

-- `with_key` puts a member in front of those of an object.
data Value : Type 0 where
  text : Bytes → Value
  no_items empty : Value
  with_key : Bytes → Value → Value → Value

abbrev type_of : Value → ItemType
type_of (text t) = type_string
type_of no_items = type_array
type_of empty = type_object
type_of (with_key key v o) = type_object

abbrev member : Value → Bytes → Option Value
member (text t) k = none
member no_items k = none
member empty k = none
member (with_key key v o) k = let rest = member o k in if equal key k then some v else rest

abbrev string_of_value : Value → Bytes
string_of_value (text t) = t
string_of_value v = []

abbrev same_text : Value → Value → Bool
same_text (text t) (text u) = equal t u
same_text _ _ = false

abbrev object_add : Value → Bytes → Value → ℤ × Value
object_add (text t) key v = (einval, text t)
object_add no_items key v = (einval, no_items)
object_add o key v = (pos 0, with_key key v o)

abbrev pair : Value → Value → Value
pair name value = with_key (codes "name") name (with_key (codes "value") value empty)

abbrev json : JsonC Value
json = record {
  get_type = type_of;
  get_ex = member;
  get_string = string_of_value;
  same = same_text;
  items = λ v. [];
  members = λ v. [];
  with_items = λ v vs. v;
  with_member = λ o key v. (object_add o key v).1;
  new_string = λ t. some (text t);
  new_object = some empty;
  object_add = object_add;
  pack_name = λ name t. (pos 0, pair name (text t));
  pack_value = λ t value. (pos 0, pair (text t) value);
}

others :
    (o : Value) (key : Bytes) (v : Value) (k : Bytes)
    → equal key k ≡ false
    → member (object_add o key v).1 k ≡ member o k
others (text t) key v k e = refl
others no_items key v k e = refl
others empty key v k e = rw e refl
others (with_key l w o) key v k e = rw e refl

same_text-eq : (v w : Value) → same_text v w ≡ true → v ≡ w
same_text-eq (text t) (text u) e = ap text (equal→eq t u e)
same_text-eq (text t) no_items e = absurd (cc)
same_text-eq (text t) empty e = absurd (cc)
same_text-eq (text t) (with_key k v o) e = absurd (cc)
same_text-eq no_items w e = absurd (cc)
same_text-eq empty w e = absurd (cc)
same_text-eq (with_key k v o) w e = absurd (cc)

json-IsJsonC : IsJsonC json
json-IsJsonC = record {
  new_text = λ t v e. cc;
  added_others = others;
  changed_others = others;
  same_value = same_text-eq;
}

abbrev manifest : Value
manifest = with_key (codes "rp-manifest") (text (codes "1")) (
    with_key (codes "id") (text (codes "My-App")) (
      with_key (codes "version") (text (codes "1.2.3-Beta")) (
        with_key (codes "required-permission") (text (codes "net"))
          (with_key (codes "targets") no_items empty))))

abbrev given : ℤ × Option Value
given = manifest_read_and_check json [] (pos 0, some manifest)

abbrev text_in : Option Value → Bytes → Option Bytes
text_in none key = none
text_in (some v) key = text_of json v key

accepts : is_neg given.0 ≡ false
unfolding manifest_read_and_check manifest_read manifest_check check_valid_string is_valid all_valid
    equal manifest_normalize fulfill mkver major minor make_lowercase dash_to_underscore
    fulfill_with add retargets adapt_all_permissions adapt_permissions_of add_perm_from_string
accepts = refl

texts :
    (text_in given.1 (codes "id-underscore") ≡ some (codes "my_app"))
    × (text_in given.1 (codes "ver") ≡ some (codes "1.2"))
unfolding manifest_read_and_check manifest_read manifest_check check_valid_string is_valid all_valid
    equal manifest_normalize fulfill mkver major minor make_lowercase dash_to_underscore
    fulfill_with add retargets adapt_all_permissions adapt_permissions_of add_perm_from_string
texts = (refl, refl)

manifest_read_and_check-IsAccepted_example :
    (obj : Value) × (obj' : Value) × (some manifest ≡ some obj)
    × (given.1 ≡ some obj')
    × IsAccepted json json-IsJsonC obj obj'
manifest_read_and_check-IsAccepted_example =
    manifest_read_and_check-IsAccepted json json-IsJsonC [] (pos 0, some manifest) accepts
