-- ===== src/Afid.antt =====
-- utils/manage-afid.c: the allocation of application numbers in a bitmap.
-- A `uint32_t` of the array is its list of 32 bits, the lowest first.
pub mod Free
pub mod New
use afb_app_manager.Base.{
  ℕ, zero, suc, ◌+◌, ◌-◌, ◌/◌, ◌%◌, Bool, true, false, not, ◌&&◌, Option, none, some, List, [], ◌∷◌,
  ◌++◌, ℤ, pos, neg, is_neg, get_or, set, leb, ltb, if◌then◌else◌, replicate,
}

abbrev pub afid_min : ℕ
afid_min = 1

abbrev pub afid_max : ℕ
afid_max = 1999

abbrev pub afid_is_valid : ℕ → Bool
afid_is_valid afid = leb afid_min afid && leb afid afid_max

-- `AFID_ACNT`, `AFID_AIDX` and `AFID_ASFT`
abbrev pub afid_acnt : ℕ
afid_acnt = 63

abbrev pub afid_aidx : ℕ → ℕ
afid_aidx afid = (afid - afid_min) / 32

abbrev pub afid_asft : ℕ → ℕ
afid_asft afid = (afid - afid_min) % 32

abbrev pub Word : Type 0
Word = List Bool

abbrev pub Array : Type 0
Array = List Word

abbrev pub word_at : Array → ℕ → Word
word_at array afid = get_or array (afid_aidx afid) []

-- `AFID_TEST` and `AFID_SET`
abbrev pub afid_test : Array → ℕ → Bool
afid_test array afid = get_or (word_at array afid) (afid_asft afid) false

abbrev pub afid_set : Array → ℕ → Array
afid_set array afid = set array (afid_aidx afid) (set (word_at array afid) (afid_asft afid) true)

-- `memset(afids_array, 0, sizeof afids_array)`
abbrev pub cleared : Array
cleared = replicate afid_acnt (replicate 32 false)

-- `!~word`
unfoldable pub is_full : Word → Bool
is_full [] = true
is_full (b ∷ bs) = b && is_full bs

-- The two loops of `first_free_afid`, each with fuel for its rounds.
unfoldable pub skip_words : ℕ → Array → ℕ → ℕ
skip_words zero array afid = afid
skip_words (suc fuel) array afid =
    let next = skip_words fuel array (afid + 32) in
    if leb afid afid_max && is_full (word_at array afid) then next else afid

unfoldable pub skip_used : ℕ → Array → ℕ → ℕ
skip_used zero array afid = afid
skip_used (suc fuel) array afid =
    let next = skip_used fuel array (afid + 1) in
    if leb afid afid_max && afid_test array afid then next else afid

-- `none` is the return of -1.
unfoldable pub first_free_afid : Array → Option ℕ
first_free_afid array =
    let afid = skip_used afid_max array (skip_words afid_acnt array afid_min) in
    if ltb afid_max afid then none else some afid

-- What a scan of the unit files gives: the numbers read in those of the system and of the user, and
-- the codes of the two listings.
pub record Scan : Type 0 where
  pub system_ids : List ℕ
  pub user_ids : List ℕ
  pub rcs : ℤ
  pub rcu : ℤ

-- The end of `get_afid_cb`, on each number read.
unfoldable pub set_all : List ℕ → Array → Array
set_all [] array = array
set_all (p ∷ ps) array = set_all ps (if afid_is_valid p then afid_set array p else array)

unfoldable pub update_afids : Bool → Scan → ℤ × Array
unfolding set_all
update_afids strict scan =
    let array = set_all scan.user_ids (set_all scan.system_ids cleared) in
    ((if not strict then pos 0 else if is_neg scan.rcs then scan.rcs else scan.rcu), array)

pub record Manager : Type 0 where
  pub init_done : Bool
  pub array : Array

unfoldable pub init_afid_manager : Bool → Scan → Manager → ℤ × Manager
unfolding update_afids
init_afid_manager strict scan s =
    let (rc, array) = update_afids strict scan in
    if s.init_done then (pos 0, s) else (rc, record { init_done = true; array = array })

-- `record allocation` and the return.
abbrev pub allocate : Manager → Option ℕ → ℤ × Manager
allocate s none = (neg 1, s)
allocate s (some afid) = (pos afid, record s { array = afid_set s.array afid })

-- `get_new_afid`, where `first` and `again` are what the scans at the two updates find.
unfoldable pub get_new_afid : Scan → Scan → Manager → ℤ × Manager
get_new_afid first again s =
    let (rc, s1) = init_afid_manager true first s in
    let (rc2, array2) = update_afids true again in
    let s2 = record s1 { array = array2 } in
    if is_neg rc then (rc, s1) else elim (first_free_afid s1.array) [
      | some afid ↦ allocate s1 (some afid)
      | none ↦ if is_neg rc2 then (rc2, s2) else allocate s2 (first_free_afid array2)
    ]
