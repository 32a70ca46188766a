-- ===== src/Afid/Free.antt =====
-- utils/manage-afid.c: `first_free_afid` gives the lowest free number.
use afb_app_manager.Base.{
  ℕ, zero, suc, ◌+◌, ◌-◌, ◌%◌, ◌≤◌, ◌<◌, true, false, ◌&&◌, Option, none, some, [], ◌∷◌, get_or,
  length, leb, ltb, ◌≡◌, refl, arith, All, Bool-cases, inl, inr,
}
use afb_app_manager.Afid.{
  Word, Array, word_at, afid_test, afid_min, afid_max, afid_acnt, afid_aidx, afid_asft, is_full,
  skip_words, skip_used, first_free_afid,
}

-- 63 words of 32 bits.
pub record IsArray (array : Array) : Type 0 where
  pub words : length array ≡ afid_acnt
  pub bits : All (λ w. length w ≡ 32) array

length-get_or :
    (ws : Array) (i : ℕ)
    → All (λ w. length w ≡ 32) ws
    → i < length ws
    → length (get_or ws i []) ≡ 32
length-get_or [] i h k = absurd (omega arith)
length-get_or (w ∷ ws) zero h k = h.0
length-get_or (w ∷ ws) (suc i) h k = length-get_or ws i h.1 (omega arith)

is_full-get_or : (w : Word) (i : ℕ) → is_full w ≡ true → i < length w → get_or w i false ≡ true
unfolding is_full
is_full-get_or [] i h k = absurd (omega arith)
is_full-get_or (b ∷ bs) zero h k = ground arith
is_full-get_or (b ∷ bs) (suc i) h k = is_full-get_or bs i (ground arith) (omega arith)

-- Every number below is in use.
abbrev pub AreUsed : Array → ℕ → Type 0
AreUsed array afid = (b : ℕ) → 1 ≤ b → b < afid → afid_test array b ≡ true

same-afid_aidx :
    (afid b : ℕ)
    → 1 ≤ afid
    → (afid - 1) % 32 ≡ 0
    → afid ≤ b
    → b < afid + 32
    → afid_aidx b ≡ afid_aidx afid
same-afid_aidx afid b l a h k = omega arith

module _ (array : Array) (v : IsArray array) where
  pub length-word_at : (afid : ℕ) → 1 ≤ afid → afid ≤ afid_max → length (word_at array afid) ≡ 32
  length-word_at afid l h = length-get_or array (afid_aidx afid) v.bits (omega (arith, v.words))

  -- A full word covers the next 32 numbers.
  AreUsed-word :
      (afid : ℕ)
      → 1 ≤ afid
      → afid ≤ afid_max
      → (afid - 1) % 32 ≡ 0
      → is_full (word_at array afid) ≡ true
      → AreUsed array afid
      → AreUsed array (afid + 32)
  AreUsed-word afid l h a full used b lb hb = elim (Bool-cases (ltb b afid)) [
    | inl t ↦ used b lb (ground arith)
    | inr t ↦
        let same : afid_aidx b ≡ afid_aidx afid = same-afid_aidx afid b l a (ground arith) hb in
        rw same (
          is_full-get_or (word_at array afid) (afid_asft b) full
            (omega (arith, length-word_at afid l h)))
  ]

  skip_words_lem :
      (fuel afid : ℕ)
      → 1 ≤ afid
      → (afid - 1) % 32 ≡ 0
      → AreUsed array afid
      → (1 ≤ skip_words fuel array afid) × AreUsed array (skip_words fuel array afid)
  unfolding skip_words
  skip_words_lem zero afid l a used = (l, used)
  skip_words_lem (suc fuel) afid l a used =
      elim (Bool-cases (leb afid afid_max && is_full (word_at array afid))) [
        | inl t ↦ rw t (
            skip_words_lem fuel (afid + 32) (omega arith) (omega arith)
              (AreUsed-word afid l (ground arith) a (ground arith) used))
        | inr f ↦ rw f (l, used)
      ]

  AreUsed-suc :
      (afid : ℕ) → afid_test array afid ≡ true → AreUsed array afid → AreUsed array (afid + 1)
  AreUsed-suc afid t used b lb hb = elim (Bool-cases (ltb b afid)) [
    | inl h ↦ used b lb (ground arith)
    | inr h ↦ let e : b ≡ afid = ground arith in rw e t
  ]

  skip_used_lem :
      (fuel afid : ℕ)
      → 1 ≤ afid
      → afid_max < fuel + afid
      → AreUsed array afid
      → AreUsed array (skip_used fuel array afid)
        × (1 ≤ skip_used fuel array afid)
        × (skip_used fuel array afid ≤ afid_max
            → afid_test array (skip_used fuel array afid) ≡ false)
  unfolding skip_used
  skip_used_lem zero afid l k used = (used, l, λ h. absurd (omega arith))
  skip_used_lem (suc fuel) afid l k used =
      elim (Bool-cases (leb afid afid_max && afid_test array afid)) [
        | inl t ↦ rw t (
            skip_used_lem fuel (afid + 1) (omega arith) (omega arith)
              (AreUsed-suc afid (ground arith) used))
        | inr f ↦ rw f (used, l, λ h. ground arith)
      ]

-- What a search has to give: the lowest free number, or none when every number is in use.
abbrev pub IsFirstFree : Array → Option ℕ → Type 0
IsFirstFree array none = AreUsed array (afid_max + 1)
IsFirstFree array (some afid) =
    (1 ≤ afid) × (afid ≤ afid_max) × (afid_test array afid ≡ false) × AreUsed array afid

-- On an array of 63 words of 32 bits `first_free_afid` gives the lowest number of 1 to 1999 that is
-- not in use, and nothing exactly when all of them are in use.
pub first_free_afid-IsFirstFree :
    (array : Array) → IsArray array → IsFirstFree array (first_free_afid array)
unfolding first_free_afid
first_free_afid-IsFirstFree array v =
    let words =
      skip_words_lem array v afid_acnt afid_min (omega arith) refl
        (λ b l h. absurd (omega arith)) in
    let afid = skip_used afid_max array (skip_words afid_acnt array afid_min) in
    let (used, l, free) =
      skip_used_lem array v afid_max (skip_words afid_acnt array afid_min) words.0
        (omega (arith, words.0)) words.1 in
    elim (Bool-cases (ltb afid_max afid)) [
      | inl t ↦ rw t (λ b lb hb. used b lb (ground arith))
      | inr f ↦ rw f (l, ground arith, free (ground arith), used)
    ]
