-- ===== src/Permset.antt =====
-- utils/permset.c: the set of permissions that a package requests and is granted.
-- A permission's `length` field is the length of `name`, and `count`, an `unsigned`, is the length of
-- `permissions`, of which there are fewer than 2 ^ 32; `slots` is the size, in entries, of the block behind the C array.
mod Lookup
pub mod Flags
pub mod Bounds
pub mod Resets
pub mod Words
pub mod Selection
use afb_app_manager.Base.{
  ℕ, ◌+◌, ◌%◌, ◌^◌, Bool, true, false, not, ◌&&◌, ◌||◌, Option, none, some, List, [], ◌∷◌, ◌++◌,
  Bytes, equal, ℤ, pos, is_neg, enomem, Memory, alloc, length, drop, get_elem?, ltb, ◌==◌,
  if◌then◌else◌, is_some,
}

pub record Permission : Type 0 where
  pub name : Bytes
  pub granted : Bool
  pub requested : Bool

pub record Permset : Type 0 where
  pub permissions : List Permission
  pub slots : ℕ
  pub index : ℕ

abbrev pub count : Permset → ℕ
count s = length s.permissions

unfoldable pub create : Permset
create = record { permissions = []; slots = 0; index = 0 }

-- The search of `get`: the first entry with that name.
unfoldable pub find : Bytes → List Permission → Option Permission
find name [] = none
find name (p ∷ ps) = if equal p.name name then some p else find name ps

abbrev pub get : Permset → Bytes → Option Permission
get s name = find name s.permissions

-- What `add` does to the entry that it found or created.
abbrev pub mark : Bool → Bool → Permission → Permission
mark grant request p = record p { granted = p.granted || grant; requested = p.requested || request }

unfoldable pub mark_first : Bytes → Bool → Bool → List Permission → List Permission
mark_first name grant request [] = []
mark_first name grant request (p ∷ ps) =
    if equal p.name name then mark grant request p ∷ ps else p ∷ mark_first name grant request ps

abbrev pub fresh : Bytes → Permission
fresh name = record { name = name; granted = false; requested = false }

-- `if ((count & 7) == 0) realloc(..., count + 8)`, where the sum is an `unsigned`; false is the return of
-- -ENOMEM.
unfoldable pub grow : Memory → Permset → Bool × Permset × Memory
grow m s =
    if count s % 8 == 0
    then (let (done, m') = alloc m in
        (done, (if done then record s { slots = (count s + 8) % 2 ^ 32 } else s), m'))
    else (true, s, m)

-- The branch of `add` for a name that is not recorded yet.
unfoldable pub enter : Memory → Permset → Bytes → Bool × Permset × Memory
enter m s name =
    let (room, s', m') = grow m s in
    let (done, m'') = alloc m' in
    if not room
    then (false, s', m')
    else if not done
    then (false, s', m'')
    else (true, record s' { permissions = s'.permissions ++ fresh name ∷ [] }, m'')

-- `return p->requested && p->granted`
abbrev pub allowed : Permission → ℤ
allowed p = if p.requested && p.granted then pos 1 else pos 0

abbrev pub verdict : Option Permission → ℤ
verdict none = pos 0
verdict (some p) = allowed p

-- The end of `add`, on the entry of the name.
unfoldable pub settle : Permset → Bytes → Bool → Bool → ℤ × Permset
settle s name grant request =
    let s' = record s { permissions = mark_first name grant request s.permissions } in
    (verdict (get s' name), s')

unfoldable pub add : Memory → Permset → Bytes → Bool → Bool → ℤ × Permset × Memory
add m s name grant request =
    let (entered, s', m') = enter m s name in
    let (rc, t) = settle s name grant request in
    let (rc', t') = settle s' name grant request in
    if is_some (get s name) then (rc, t, m) else if entered then (rc', t', m') else (enomem, s', m')

abbrev pub permset_grant : Memory → Permset → Bytes → ℤ × Permset × Memory
permset_grant m s name = add m s name true false

abbrev pub permset_add : Memory → Permset → Bytes → ℤ × Permset × Memory
permset_add m s name = add m s name false false

abbrev pub permset_request : Memory → Permset → Bytes → ℤ × Permset × Memory
permset_request m s name = add m s name false true

abbrev pub permset_has : Permset → Bytes → Bool
permset_has s name = is_some (get s name)

-- `static const char separators[] = " \t\n\r,"`
unfoldable pub is_separator : ℕ → Bool
is_separator c = c == b' ' || c == b'\t' || c == b'\n' || c == b'\r' || c == b','

-- `list + strspn(list, separators)`
unfoldable pub skip_separators : Bytes → Bytes
unfolding is_separator
skip_separators [] = []
skip_separators (c ∷ cs) = if is_separator c then skip_separators cs else c ∷ cs

-- The `n = strcspn(iter, separators)` first bytes of `iter`, and `iter + n`.
unfoldable pub word : Bytes → Bytes
unfolding is_separator
word [] = []
word (c ∷ cs) = if is_separator c then [] else c ∷ word cs

unfoldable pub after_word : Bytes → Bytes
unfolding is_separator
after_word [] = []
after_word (c ∷ cs) = if is_separator c then c ∷ cs else after_word cs

-- `allowed & rc`, for an `rc` that is not negative.
abbrev pub is_one : ℤ → Bool
is_one (pos n) = n == 1
is_one _ = false

-- The `while(*iter)` of `add_list`, one unit of fuel for each round; `none` is out of fuel.
unfoldable pub add_words :
    ℕ → Memory → Permset → Bytes → Bool → Bool → Bool → Option (ℤ × Permset × Memory)
add_words fuel m s [] grant request all = some ((if all then pos 1 else pos 0), s, m)
add_words ℕ.zero m s (c ∷ cs) grant request all = none
add_words (ℕ.suc fuel) m s (c ∷ cs) grant request all =
    let (rc, s', m') = add m s (word (c ∷ cs)) grant request in
    let next = skip_separators (after_word (c ∷ cs)) in
    let rest = add_words fuel m' s' next grant request (all && is_one rc) in
    if is_neg rc then some (rc, s', m') else rest

unfoldable pub add_list : Memory → Permset → Bytes → Bool → Bool → Option (ℤ × Permset × Memory)
add_list m s list grant request =
    add_words (length list) m s (skip_separators list) grant request true

abbrev pub permset_grant_list : Memory → Permset → Bytes → Option (ℤ × Permset × Memory)
permset_grant_list m s list = add_list m s list true false

abbrev pub permset_add_list : Memory → Permset → Bytes → Option (ℤ × Permset × Memory)
permset_add_list m s list = add_list m s list false false

abbrev pub permset_request_list : Memory → Permset → Bytes → Option (ℤ × Permset × Memory)
permset_request_list m s list = add_list m s list false true

pub data Reset : Type 0 where
  nothing requested granted requested_and_granted : Reset

abbrev pub reset_entry : Reset → Permission → Permission
reset_entry nothing p = p
reset_entry requested p = record p { requested = false }
reset_entry granted p = record p { granted = false }
reset_entry requested_and_granted p = record p { granted = false; requested = false }

unfoldable pub reset_all : Reset → List Permission → List Permission
reset_all it [] = []
reset_all it (p ∷ ps) = reset_entry it p ∷ reset_all it ps

unfoldable pub reset : Permset → Reset → Permset
unfolding reset_all
reset s it = record s { permissions = reset_all it s.permissions }

pub data Select : Type 0 where
  any is_requested is_granted is_both : Select

abbrev pub matches : Permission → Select → Bool
matches p any = true
matches p is_requested = p.requested
matches p is_granted = p.granted
matches p is_both = p.granted && p.requested

-- The loop of `advance`, over the entries from `index` on.
unfoldable pub skip : Select → List Permission → ℕ → ℕ
skip it [] index = index
skip it (p ∷ ps) index = let next = skip it ps (index + 1) in if matches p it then index else next

unfoldable pub advance : Permset → Select → Bool × Permset
unfolding skip
advance s it =
    let i = skip it (drop s.index s.permissions) s.index in
    (ltb i (count s), record s { index = i })

unfoldable pub select_first : Permset → Select → Bool × Permset
unfolding advance
select_first s it = advance (record s { index = 0 }) it

-- `index` is an `unsigned`.
unfoldable pub select_next : Permset → Select → Bool × Permset
unfolding advance
select_next s it = advance (record s { index = (s.index + 1) % 2 ^ 32 }) it

abbrev pub entry_at : Permset → Option Permission
entry_at s = get_elem? s.permissions s.index

abbrev name_of : Option Permission → Option Bytes
name_of none = none
name_of (some p) = some p.name

abbrev pub current : Permset → Option Bytes
current s = name_of (entry_at s)

abbrev pub is_current_requested : Permset → Bool
is_current_requested s = elim (entry_at s) [ none ↦ false | some p ↦ p.requested ]

abbrev pub is_current_granted : Permset → Bool
is_current_granted s = elim (entry_at s) [ none ↦ false | some p ↦ p.granted ]
