-- ===== src/Afid/New.antt =====
-- utils/manage-afid.c: `get_new_afid` gives a number that nobody has.
use mathlib.Core.Path.{subst}
use afb_app_manager.Base.{
  none, ℕ, zero, suc, ◌≤◌, Bool, true, false, some, List, [], ◌∷◌, get_or, set, length, ◌≡◌, ◌≢◌,
  refl, ◌∙◌, ap, arith, All, Bool-cases, Option-cases, inl, inr, ◌==◌, ==_iff, ◌⊎◌, length-set,
  get_or-set_self, get_or-set_ne, ℤ, pos, is_neg, replicate,
}
use afb_app_manager.Afid.{
  Word, Array, word_at, afid_test, afid_set, cleared, set_all, afid_max, afid_aidx, afid_asft,
  afid_is_valid, first_free_afid, Scan, Manager, update_afids, init_afid_manager, allocate,
  get_new_afid,
}
use afb_app_manager.Afid.Free.{IsArray, length-word_at, IsFirstFree, first_free_afid-IsFirstFree}

All-set :
    (ws : Array) (i : ℕ) (w : Word)
    → length w ≡ 32
    → All (λ w. length w ≡ 32) ws
    → All (λ w. length w ≡ 32) (set ws i w)
All-set [] i w h all = all
All-set (x ∷ ws) zero w h all = (h, all.1)
All-set (x ∷ ws) (suc i) w h all = (all.0, All-set ws i w h all.1)

module _ (array : Array) (v : IsArray array) (afid : ℕ) (l : 1 ≤ afid) (h : afid ≤ afid_max) where
  afid_set-IsArray : IsArray (afid_set array afid)
  afid_set-IsArray = record {
    words = length-set array _ _ ∙ v.words;
    bits =
        All-set array _ _ (length-set (word_at array afid) _ true ∙ length-word_at array v afid l h)
          v.bits;
  }

  afid_set_same : afid_test (afid_set array afid) afid ≡ true
  afid_set_same =
      rw
        (get_or-set_self array (afid_aidx afid) (set (word_at array afid) (afid_asft afid) true) []
          (omega (arith, v.words)))
        (get_or-set_self (word_at array afid) (afid_asft afid) true false
          (omega (arith, length-word_at array v afid l h)))

  afid_set_other :
      (b : ℕ) → 1 ≤ b → b ≢ afid → afid_test (afid_set array afid) b ≡ afid_test array b
  afid_set_other b lb n = elim (Bool-cases (afid_aidx b == afid_aidx afid)) [
    | inl t ↦
        let e : afid_aidx b ≡ afid_aidx afid = (==_iff (afid_aidx b) (afid_aidx afid)).0 t in
        rw
          (
            e,
            get_or-set_self array (afid_aidx afid) (set (word_at array afid) (afid_asft afid) true)
                [] (omega (arith, v.words)),
          )
          (get_or-set_ne (word_at array afid) (afid_asft afid) (afid_asft b) true false
            (λ k. n (omega arith)))
    | inr d ↦
        ap (λ w. get_or w (afid_asft b) false)
          (get_or-set_ne array (afid_aidx afid) (afid_aidx b) _ []
            (λ k. ground (arith, ==_iff (afid_aidx b) (afid_aidx afid))))
  ]

-- The number given was the lowest free one of the array before, and it is the only one whose bit the
-- array after has changed.
pub record IsTaken (before : Array) (afid : ℕ) (after : Array) : Type 0 where
  pub first_free : IsFirstFree before (some afid)
  pub taken : afid_test after afid ≡ true
  pub others : (b : ℕ) → 1 ≤ b → b ≢ afid → afid_test after b ≡ afid_test before b

afid_set-IsTaken :
    (array : Array)
    → IsArray array
    → (afid : ℕ) → IsFirstFree array (some afid)
    → IsTaken array afid (afid_set array afid)
afid_set-IsTaken array v afid free = record {
  first_free = free;
  taken = afid_set_same array v afid free.0 free.1;
  others = afid_set_other array v afid free.0 free.1;
}

-- The result with `failed` and `again_failed`, the failures of the two scans. Either an error, where the
-- first scan failed or where no number is free in the array that is kept, and then the second scan
-- failed too or found none free; or a number taken from the array that is kept or, where that has none
-- free, from the one that the second scan filled.
abbrev pub IsNew : Bool → Bool → Array → Array → ℤ × Manager → Type 0
IsNew failed again_failed kept scanned (rc, s) =
    (is_neg rc ≡ true)
      × ((failed ≡ true)
          ⊎ IsFirstFree kept none × ((again_failed ≡ true) ⊎ IsFirstFree scanned none))
    ⊎ ((afid : ℕ) × (rc ≡ pos afid)
        × (IsTaken kept afid s.array ⊎ IsFirstFree kept none × IsTaken scanned afid s.array))

-- The lowest free number of the array of a manager is taken from it.
allocate-some :
    (s : Manager)
    → IsArray s.array
    → (a : ℕ) → first_free_afid s.array ≡ some a
    → IsTaken s.array a (allocate s (some a)).1.array
allocate-some s v a j =
    afid_set-IsTaken s.array v a
      (subst (λ o. IsFirstFree s.array o) j (first_free_afid-IsFirstFree s.array v))

none_free : (array : Array) → IsArray array → first_free_afid array ≡ none → IsFirstFree array none
none_free array v j = subst (λ o. IsFirstFree array o) j (first_free_afid-IsFirstFree array v)

replicate-All : (n : ℕ) → All (λ w. length w ≡ 32) (replicate n (replicate 32 false))
replicate-All zero = tt
replicate-All (suc n) = (refl, replicate-All n)

set_all-IsArray : (ids : List ℕ) (array : Array) → IsArray array → IsArray (set_all ids array)
unfolding set_all
set_all-IsArray [] array v = v
set_all-IsArray (p ∷ ps) array v = elim (Bool-cases (afid_is_valid p)) [
  | inl t ↦ set_all-IsArray ps _ (rw t (afid_set-IsArray array v p (ground arith) (ground arith)))
  | inr f ↦ set_all-IsArray ps _ (rw f v)
]

-- Whatever the units hold, both listings make an array of 63 words of 32 bits.
pub update_afids-IsArray : (strict : Bool) (scan : Scan) → IsArray (update_afids strict scan).1
unfolding update_afids
update_afids-IsArray strict scan =
    set_all-IsArray scan.user_ids _
      (set_all-IsArray scan.system_ids cleared (record { words = refl; bits = replicate-All 63 }))

allocate-IsNew :
    (failed again_failed : Bool) (kept : Array) (s : Manager)
    → IsArray s.array
    → IsFirstFree kept none
    → IsNew failed again_failed kept s.array (allocate s (first_free_afid s.array))
allocate-IsNew failed again_failed kept s v full = elim (Option-cases (first_free_afid s.array)) [
  | inl n ↦ rw n (inl (refl, inr (full, inr (none_free s.array v n))))
  | inr (a, j) ↦ rw j (inr (a, refl, inr (full, allocate-some s v a j)))
]

init_afid_manager-IsArray :
    (first : Scan) (s : Manager)
    → IsArray s.array
    → IsArray (init_afid_manager true first s).1.array
unfolding init_afid_manager
init_afid_manager-IsArray first s v = elim (Bool-cases s.init_done) [
  | inl t ↦ rw t v
  | inr f ↦ rw f (update_afids-IsArray true first)
]

-- When the array in memory has its 63 words of 32 bits, `get_new_afid` gives the lowest number of 1 to
-- 1999 that is free in the array kept in memory, which a first scan fills when the manager was not
-- initialised, or, where that has none free, in the one that a second scan fills; the bit of that number
-- is then set and all the others are as they were. It gives a negative code only where the first scan
-- failed, or where the array kept has no free number and the second scan failed or found none.
pub get_new_afid-IsNew :
    (first again : Scan) (s : Manager)
    → IsArray s.array
    → IsNew
        (is_neg (init_afid_manager true first s).0)
        (is_neg (update_afids true again).0)
        (init_afid_manager true first s).1.array
        (update_afids true again).1
        (get_new_afid first again s)
unfolding get_new_afid
get_new_afid-IsNew first again s v =
    let m : Manager = (init_afid_manager true first s).1 in
    let failed : Bool = is_neg (init_afid_manager true first s).0 in
    let again_failed : Bool = is_neg (update_afids true again).0 in
    let kept : Array = m.array in
    let scanned : Array = (update_afids true again).1 in
    let vm : IsArray kept = init_afid_manager-IsArray first s v in
    let vs : IsArray scanned = update_afids-IsArray true again in
    elim (Bool-cases failed) [
      | inl n ↦ rw n (inl (n, inl refl))
      | inr n ↦ elim (Option-cases (first_free_afid kept)) [
        | inl f ↦
            let full = none_free kept vm f in
            elim (Bool-cases again_failed) [
              | inl k ↦ rw (n, f, k) (inl (k, inr (full, inl refl)))
              | inr k ↦
                  rw (n, f, k)
                    (allocate-IsNew false false kept (record m { array = scanned }) vs full)
            ]
        | inr (a, f) ↦ rw (n, f) (inr (a, refl, inl (allocate-some m vm a f)))
      ]
    ]
