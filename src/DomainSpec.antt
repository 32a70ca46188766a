-- ===== src/DomainSpec.antt =====
-- utils/domain-spec.c: which domains a certificate may use or deliver, and its text form.
-- A specification is the linked list from `head`, and a name is a text without the byte 0.
pub mod Find
pub mod Set
pub mod Text
pub mod Parse
pub mod Accept
pub mod Sign
use afb_app_manager.Base.{
  ℕ, zero, suc, ◌+◌, Bool, true, false, not, ◌&&◌, ◌||◌, Option, none, some, List, [], ◌∷◌, ◌++◌,
  Bytes, equal, ℤ, pos, is_neg, enomem, einval, enotempty, enokey, enodata, eexist, Memory, alloc,
  length, take, ltb, ◌==◌, if◌then◌else◌, is_some,
}

-- `permission` is the value of the enumeration: none 0, grants 1, auth 2, root 3.
pub record Domain : Type 0 where
  pub name : Bytes
  pub permission : ℕ

abbrev pub Spec : Type 0
Spec = List Domain

abbrev pub permission_grants : ℕ
permission_grants = 1

abbrev pub permission_root : ℕ
permission_root = 3

abbrev pub permission_count : ℕ
permission_count = 4

abbrev pub is_permission_valid : ℕ → Bool
is_permission_valid perm = ltb perm permission_count

-- `get_domain`: the first entry with that name.
unfoldable pub find : Bytes → Spec → Option Domain
find name [] = none
find name (d ∷ ds) = if equal d.name name then some d else find name ds

-- `get_domain_len`, for a text of at least `len` bytes that are not 0.
abbrev pub get_domain_len : Spec → Bytes → ℕ → Option Domain
get_domain_len spec domain len = find (take len domain) spec

abbrev pub get_domain : Spec → Bytes → Option Domain
get_domain spec domain = get_domain_len spec domain (length domain)

unfoldable pub add_domain_len : Memory → Spec → ℕ → Bytes → ℕ → ℤ × Spec × Memory
add_domain_len m spec perm domain len =
    let (done, m') = alloc m in
    if done
    then (pos 0, record { name = take len domain; permission = perm } ∷ spec, m')
    else (enomem, spec, m')

abbrev pub add_domain : Memory → Spec → ℕ → Bytes → ℤ × Spec × Memory
add_domain m spec perm domain = add_domain_len m spec perm domain (length domain)

-- `*prv = dom->next` and `dom->permission = perm`, on the first entry with that name.
unfoldable pub unlink : Bytes → Spec → Spec
unlink name [] = []
unlink name (d ∷ ds) = if equal d.name name then ds else d ∷ unlink name ds

unfoldable pub assign : Bytes → ℕ → Spec → Spec
assign name perm [] = []
assign name perm (d ∷ ds) =
    if equal d.name name then record d { permission = perm } ∷ ds else d ∷ assign name perm ds

-- The last call is `add_domain`, on the whole text.
unfoldable pub domain_spec_set_len : Memory → Spec → ℕ → Bytes → ℕ → ℤ × Spec × Memory
domain_spec_set_len m spec perm domain len =
    if not (is_permission_valid perm)
    then (einval, spec, m)
    else if perm == 0
    then (pos 0, unlink (take len domain) spec, m)
    else if is_some (get_domain_len spec domain len)
    then (pos 0, assign (take len domain) perm spec, m)
    else add_domain m spec perm domain

abbrev pub domain_spec_set : Memory → Spec → ℕ → Bytes → ℤ × Spec × Memory
domain_spec_set m spec perm domain = domain_spec_set_len m spec perm domain (length domain)

abbrev has_permission : ℕ → Option Domain → Bool
has_permission perm none = false
has_permission perm (some d) = d.permission == perm

abbrev pub is_granting : Spec → Bytes → Bool
is_granting spec domain = has_permission permission_grants (get_domain spec domain)

-- `pe > domain_permission_none && pe < _domain_permission_count_`
abbrev pub is_written : Domain → Bool
is_written d = ltb 0 d.permission && ltb d.permission permission_count

-- The size that `get_string_of_domain_spec` allocates.
unfoldable pub string_size : Spec → ℕ
string_size [] = 0
string_size (d ∷ ds) = if is_written d then length d.name + 2 + string_size ds else string_size ds

-- `domain_permission_tags`
abbrev pub tag : ℕ → ℕ
tag zero = 0
tag (suc zero) = b'+'
tag (suc (suc zero)) = b'#'
tag (suc (suc (suc n))) = b'@'

-- `if (sz) str[sz++] = ','`
abbrev pub comma : Bytes → Bytes
comma [] = []
comma (c ∷ cs) = b',' ∷ []

-- The bytes written so far, and those of the domains left.
unfoldable pub write_domains : Bytes → Spec → Bytes
write_domains out [] = out
write_domains out (d ∷ ds) =
    write_domains (if is_written d then out ++ (comma out ++ (tag d.permission ∷ d.name)) else out)
      ds

abbrev pub string_of : Spec → Bytes
string_of spec = write_domains [] spec

-- The text, without the 0 that is written behind it.
unfoldable pub get_string_of_domain_spec : Memory → Spec → ℤ × Option Bytes × Memory
get_string_of_domain_spec m spec =
    let (done, m') = alloc m in
    if done then (pos (length (string_of spec)), some (string_of spec), m') else (enomem, none, m')

-- The search of a tag, for a byte that is not 0.
abbrev pub permission_of_tag : ℕ → Option ℕ
permission_of_tag op =
    if op == b'+'
    then some 1
    else if op == b'#'
    then some 2
    else if op == b'@'
    then some 3
    else none

-- `for (end = ++pos ; str[end] && str[end] != ',' ; end++)`: the bytes passed, and `end + !!str[end]`.
unfoldable pub before_comma : Bytes → Bytes
before_comma [] = []
before_comma (c ∷ cs) = if c == b',' then [] else c ∷ before_comma cs

unfoldable pub after_comma : Bytes → Bytes
after_comma [] = []
after_comma (c ∷ cs) = if c == b',' then cs else after_comma cs

-- One round of `get_domain_spec_of_string`: the tag `op`, and the text behind it.
unfoldable pub read_domain : Memory → Spec → ℕ → Bytes → ℤ × Spec × Memory
read_domain m spec op text =
    let name = before_comma text in
    elim (permission_of_tag op) [
      | none ↦ (enokey, spec, m)
      | some pe ↦
          if length name == 0
          then (enodata, spec, m)
          else if is_some (get_domain_len spec text (length name))
          then (eexist, spec, m)
          else add_domain_len m spec pe text (length name)
    ]

abbrev pub is_zero : ℤ → Bool
is_zero (pos n) = n == 0
is_zero _ = false

-- The loop of `get_domain_spec_of_string`, one unit of fuel for each round; `none` is out of fuel.
unfoldable pub read_domains : ℕ → Memory → Spec → Bytes → Option (ℤ × Spec × Memory)
read_domains fuel m spec [] = some (pos 0, spec, m)
read_domains zero m spec (op ∷ text) = none
read_domains (suc fuel) m spec (op ∷ text) =
    let (rc, spec', m') = read_domain m spec op text in
    let rest = read_domains fuel m' spec' (after_comma text) in
    if is_zero rc then rest else some (rc, spec', m')

-- `domain_spec_reset` frees every domain.
abbrev pub domain_spec_reset : Spec → Spec
domain_spec_reset spec = []

abbrev pub reset_on_error : Option (ℤ × Spec × Memory) → Option (ℤ × Spec × Memory)
reset_on_error none = none
reset_on_error (some (rc, spec, m)) =
    some (rc, (if is_zero rc then spec else domain_spec_reset spec), m)

unfoldable pub get_domain_spec_of_string : Memory → Bytes → Spec → Option (ℤ × Spec × Memory)
get_domain_spec_of_string m str [] = reset_on_error (read_domains (length str) m [] str)
get_domain_spec_of_string m str (d ∷ ds) = some (enotempty, d ∷ ds, m)

abbrev succeeds : Option (ℤ × Spec × Memory) → Option Bool
succeeds none = none
succeeds (some (rc, spec, m)) = some (is_zero rc)

unfoldable pub is_domain_spec_string_valid : Memory → Bytes → Option Bool
is_domain_spec_string_valid m str = succeeds (get_domain_spec_of_string m str [])

-- One round of `is_domain_spec_able_to_sign`.
abbrev pub covers : Option Domain → ℕ → Bool
covers none perm = false
covers (some d) perm = ltb perm d.permission || d.permission == permission_root

unfoldable pub is_able_to_sign : Spec → Spec → Bool
is_able_to_sign auth [] = true
is_able_to_sign auth (d ∷ ds) =
    covers (get_domain auth d.name) d.permission && is_able_to_sign auth ds

-- One round of `domain_spec_add_grantings`.
unfoldable pub add_granting : Memory → Spec → Domain → ℤ × Spec × Memory
add_granting m to d =
    if d.permission == permission_grants
    then (if is_some (get_domain to d.name)
        then (pos 0, assign d.name permission_grants to, m)
        else add_domain m to permission_grants d.name)
    else (pos 0, to, m)

unfoldable pub add_grantings : Memory → Spec → Spec → ℤ × Spec × Memory
add_grantings m to [] = (pos 0, to, m)
add_grantings m to (d ∷ ds) =
    let (rc, to', m') = add_granting m to d in
    let rest = add_grantings m' to' ds in if is_zero rc then rest else (rc, to', m')
