-- ===== src/Permset/Selection.antt =====
-- utils/permset.c: a loop over `permset_select_first` and `permset_select_next` visits the
-- selected entries.
use afb_app_manager.Base.{
  ℕ, zero, suc, ◌+◌, ◌%◌, ◌^◌, ◌≤◌, ◌<◌, Bool, true, false, Option, none, some, List, [], ◌∷◌,
  Bytes, ◌≡◌, refl, ap, arith, if◌then◌else◌, length, drop, get_elem?, inl, inr, Bool-cases,
}
use native.Mathlib.Numerals.{add-one}
use afb_app_manager.Permset.{
  Permission, Permset, count, matches, Select, advance, select_first, select_next, current,
}

-- The names of the entries that match, in the order of the array.
unfoldable pub selected : Select → List Permission → List (Option Bytes)
selected it [] = []
selected it (p ∷ ps) =
    let rest = selected it ps in if matches p it then some p.name ∷ rest else rest

abbrev onto {ℓ} : {A : Type ℓ} → A → Option (List A) → Option (List A)
onto a none = none
onto a (some l) = some (a ∷ l)

-- A client's loop, `for (r = select_first(s, it) ; r ; r = select_next(s, it))`: it gives what
-- `current` returned in each round. One unit of fuel for a round, and `none` is out of fuel.
unfoldable pub visited : ℕ → Bool × Permset → Select → Option (List (Option Bytes))
visited zero (found, s) it = none
visited (suc fuel) (found, s) it =
    let rest = visited fuel (select_next s it) it in
    if found then onto (current s) rest else some []

drop-nil : (i : ℕ) (ps : List Permission) → drop i ps ≡ [] → length ps ≤ i
drop-nil zero [] h = omega arith
drop-nil zero (p ∷ ps) h = cc
drop-nil (suc i) [] h = omega arith
drop-nil (suc i) (p ∷ ps) h = omega (arith, drop-nil i ps h)

drop-cons :
    (i : ℕ) (ps qs : List Permission) (q : Permission)
    → drop i ps ≡ q ∷ qs
    → (get_elem? ps i ≡ some q) × (drop (suc i) ps ≡ qs) × (i < length ps)
drop-cons zero [] qs q h = cc
drop-cons zero (p ∷ ps) qs q h = ground arith
drop-cons (suc i) [] qs q h = cc
drop-cons (suc i) (p ∷ ps) qs q h = ground (arith, drop-cons i ps qs q h)

abbrev at : Permset → ℕ → Permset
at s i = record s { index = i }

module _ (s : Permset) (it : Select) (few : count s < 2 ^ 32) where
  advance_none : (i : ℕ) → drop i s.permissions ≡ [] → (advance (at s i) it).0 ≡ false
  unfolding advance
  advance_none i h = rw h (ground (arith, drop-nil i s.permissions h))

  module _ (i : ℕ) (q : Permission) (qs : List Permission) (h : drop i s.permissions ≡ q ∷ qs) where
    advance_here : matches q it ≡ true → advance (at s i) it ≡ (true, at s i)
    unfolding advance
    advance_here e = rw (h) (ground (arith, drop-cons i s.permissions qs q h))

    advance_past : matches q it ≡ false → advance (at s i) it ≡ advance (at s (suc i)) it
    unfolding advance
    advance_past e = rw (h, (drop-cons i s.permissions qs q h).1, e, add-one)

    select_next-at : select_next (at s i) it ≡ advance (at s (suc i)) it
    unfolding select_next
    select_next-at =
        let wrap : (i + 1) % 2 ^ 32 ≡ suc i = omega (arith, (drop-cons i s.permissions qs q h).2) in
        ap (λ j. advance (at s j) it) wrap

  visited_from :
      (qs : List Permission) (i fuel : ℕ)
      → drop i s.permissions ≡ qs
      → length qs < fuel
      → visited fuel (advance (at s i) it) it ≡ some (selected it qs)
  unfolding visited selected
  visited_from [] i zero h k = absurd (omega arith)
  visited_from [] i (suc fuel) h k = rw (advance_none i h)
  visited_from (q ∷ qs) i zero h k = absurd (omega arith)
  visited_from (q ∷ qs) i (suc fuel) h k = elim (Bool-cases (matches q it)) [
    | inl e ↦
        rw (advance_here i q qs h e, (drop-cons i s.permissions qs q h).0, select_next-at i q qs h)
          (rw (visited_from qs (suc i) fuel (drop-cons i s.permissions qs q h).1 (omega arith))
            (rw e))
    | inr e ↦ rw (advance_past i q qs h e) (
        rw e
          (visited_from qs (suc i) (suc fuel) (drop-cons i s.permissions qs q h).1 (omega arith)))
  ]

-- With fewer than 2 ^ 32 entries, the loop ends within `count` + 1 rounds, and visits exactly the
-- entries that match, each once and in order.
pub visited-select_first :
    (s : Permset) (it : Select)
    → count s < 2 ^ 32
    → visited (suc (count s)) (select_first s it) it ≡ some (selected it s.permissions)
unfolding select_first
visited-select_first s it few =
    visited_from s it few s.permissions 0 (suc (count s)) refl (omega arith)
