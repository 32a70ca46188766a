-- ===== src/UnitPath/Distinct.antt =====
-- units/unit-desc.c: a path is that of one unit.
use mathlib.Core.List.{append_cancel_left, append_cancel_right}
use afb_app_manager.Base.{
  get_or, ℕ, true, some, [], ◌∷◌, ◌++◌, Bytes, codes, pos, ◌≡◌, refl, ◌∙◌, sym, ap, arith,
}
use afb_app_manager.UnitProcess.Corpus.{
  UnitDesc, Scope, scope_unknown, scope_user, scope_system, UnitType, type_unknown, type_service,
  type_socket,
}
use afb_app_manager.UnitPath.{
  is_known_scope, is_known_type, unit_desc_check, unit_desc_get_path, units_fs_get_afm_unit_path,
  check_snprintf_result, in_dir, with_ext, scope_dir, ext_of, is_user, text_of,
}

-- The byte at the end of a text.
last_of : ℕ → Bytes → ℕ
last_of d [] = d
last_of d (c ∷ cs) = last_of c cs

last_of-append : (d : ℕ) (a : Bytes) (c : ℕ) (cs : Bytes) → last_of d (a ++ c ∷ cs) ≡ last_of c cs
unfolding last_of
last_of-append d [] c cs = refl
last_of-append d (x ∷ xs) c cs = last_of-append x xs c cs

check_snprintf_result-some : (t p : Bytes) (n : ℕ) → check_snprintf_result t n ≡ some p → t ≡ p
check_snprintf_result-some t p n e = ground (arith, e)

-- The text of the path.
abbrev path_of : Bytes → UnitDesc → Bytes
path_of root u =
    in_dir root (in_dir (scope_dir (is_user u.scope)) (with_ext (text_of u.name) (ext_of u.type)))

scope_of_path :
    (s r : Scope) (x y : Bytes)
    → is_known_scope s ≡ true
    → is_known_scope r ≡ true
    → in_dir (scope_dir (is_user s)) x ≡ in_dir (scope_dir (is_user r)) y
    → (s ≡ r) × (x ≡ y)
scope_of_path scope_unknown r x y k l e = cc
scope_of_path s scope_unknown x y k l e = cc
scope_of_path scope_user scope_user x y k l e = (refl, append_cancel_left (codes "user/") x y e)
scope_of_path scope_user scope_system x y k l e = absurd (omega (arith, ap (λ t. get_or t 0 0) e))
scope_of_path scope_system scope_user x y k l e = absurd (omega (arith, ap (λ t. get_or t 0 0) e))
scope_of_path scope_system scope_system x y k l e =
    (refl, append_cancel_left (codes "system/") x y e)

type_of_path :
    (t r : UnitType) (x y : Bytes)
    → is_known_type t ≡ true
    → is_known_type r ≡ true
    → with_ext x (ext_of t) ≡ with_ext y (ext_of r)
    → (x ≡ y) × (t ≡ r)
unfolding last_of
type_of_path type_unknown r x y k l e = cc
type_of_path t type_unknown x y k l e = cc
type_of_path type_service type_service x y k l e =
    (append_cancel_right x y (codes ".service") e, refl)
type_of_path type_socket type_socket x y k l e = (append_cancel_right x y (codes ".socket") e, refl)
type_of_path type_service type_socket x y k l e = absurd (
    omega (
      arith,
      last_of-append 0 x b'.' (codes "service"),
      last_of-append 0 y b'.' (codes "socket"),
      ap (last_of 0) e,
    ))
type_of_path type_socket type_service x y k l e = absurd (
    omega (
      arith,
      last_of-append 0 x b'.' (codes "socket"),
      last_of-append 0 y b'.' (codes "service"),
      ap (last_of 0) e,
    ))

check_known :
    (u : UnitDesc)
    → unit_desc_check u ≡ pos 0
    → (is_known_scope u.scope ≡ true) × (is_known_type u.type ≡ true)
unfolding unit_desc_check
check_known u h = ground (arith, h)

-- Two units that `unit_desc_check` accepts and that have the same path below the same root, in buffers
-- of any size, have the same scope, the same name and the same type.
pub unit_desc_get_path_lem :
    (root : Bytes) (u v : UnitDesc) (n m : ℕ) (p : Bytes)
    → unit_desc_check u ≡ pos 0
    → unit_desc_check v ≡ pos 0
    → unit_desc_get_path root u n ≡ some p
    → unit_desc_get_path root v m ≡ some p
    → (u.scope ≡ v.scope) × (text_of u.name ≡ text_of v.name) × (u.type ≡ v.type)
unfolding units_fs_get_afm_unit_path
unit_desc_get_path_lem root u v n m p cu cv eu ev =
    let (su, tu) = check_known u cu in
    let (sv, tv) = check_known v cv in
    let same : path_of root u ≡ path_of root v =
      check_snprintf_result-some (path_of root u) p n eu
      ∙ sym (check_snprintf_result-some (path_of root v) p m ev) in
    let pu = with_ext (text_of u.name) (ext_of u.type) in
    let pv = with_ext (text_of v.name) (ext_of v.type) in
    let below : in_dir (scope_dir (is_user u.scope)) pu ≡ in_dir (scope_dir (is_user v.scope)) pv =
      append_cancel_left (b'/' ∷ []) (in_dir (scope_dir (is_user u.scope)) pu)
        (in_dir (scope_dir (is_user v.scope)) pv)
        (append_cancel_left root (b'/' ∷ in_dir (scope_dir (is_user u.scope)) pu)
          (b'/' ∷ in_dir (scope_dir (is_user v.scope)) pv) same) in
    let (s, rest) = scope_of_path u.scope v.scope pu pv su sv below in
    let (x, t) = type_of_path u.type v.type (text_of u.name) (text_of v.name) tu tv rest in
    (s, x, t)
