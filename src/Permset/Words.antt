-- ===== src/Permset/Words.antt =====
-- utils/permset.c, `add_list`: the loop over a separated list does `add` on each of its words.
use afb_app_manager.Base.{
  ℕ, zero, suc, ◌≤◌, Bool, true, false, ◌&&◌, ◌||◌, Option, none, some, List, [], ◌∷◌, ◌++◌, Bytes,
  equal, equal_iff, ◌≡◌, refl, ◌∙◌, arith, if◌then◌else◌, is_neg, is_some, Memory, length, ℤ, pos,
  Bool-cases, inl, inr,
}
use mathlib.Core.List.{append-nil, append_assoc}
use afb_app_manager.Permset.{
  Permission, Permset, get, add, is_one, is_separator, skip_separators, word, after_word, add_words,
  add_list,
}
use afb_app_manager.Permset.Flags.{get-add}

-- The words of a text: what stands between separators, if it is not empty.
abbrev close : Bytes → List Bytes → List Bytes
close [] ws = ws
close (c ∷ cs) ws = (c ∷ cs) ∷ ws

unfoldable pub words_from : Bytes → Bytes → List Bytes
unfolding is_separator
words_from current [] = close current []
words_from current (c ∷ cs) =
    let ended = close current (words_from [] cs) in
    let longer = words_from (current ++ c ∷ []) cs in if is_separator c then ended else longer

unfoldable pub words : Bytes → List Bytes
words = words_from []

-- `add` on each word in turn, up to the first failure.
unfoldable pub add_all : Memory → Permset → List Bytes → Bool → Bool → Bool → ℤ × Permset × Memory
add_all m s [] grant request all = ((if all then pos 1 else pos 0), s, m)
add_all m s (w ∷ ws) grant request all =
    let (rc, s', m') = add m s w grant request in
    let rest = add_all m' s' ws grant request (all && is_one rc) in
    if is_neg rc then (rc, s', m') else rest

abbrev Starts : Bytes → Type 0
Starts [] = Unit
Starts (c ∷ cs) = is_separator c ≡ false

skip_separators-Starts : (l : Bytes) → Starts (skip_separators l)
unfolding skip_separators
skip_separators-Starts [] = tt
skip_separators-Starts (c ∷ cs) = elim (Bool-cases (is_separator c)) [
  | inl e ↦ rw e (skip_separators-Starts cs)
  | inr e ↦ rw e e
]

words_from-word :
    (c : ℕ) (current l : Bytes)
    → words_from (c ∷ current) l ≡ (c ∷ (current ++ word l)) ∷ words (after_word l)
unfolding words_from word after_word words
words_from-word c current [] = rw append-nil
words_from-word c current (d ∷ ds) = elim (Bool-cases (is_separator d)) [
  | inl e ↦ rw (e, append-nil) (rw (e) refl)
  | inr e ↦ rw e (words_from-word c (current ++ d ∷ []) ds ∙ rw append_assoc)
]

words-skip_separators : (l : Bytes) → words (skip_separators l) ≡ words l
unfolding words_from skip_separators words
words-skip_separators [] = refl
words-skip_separators (c ∷ cs) = ground (arith, words-skip_separators cs)

words_cons :
    (c : ℕ) (cs : Bytes)
    → is_separator c ≡ false
    → words (c ∷ cs) ≡ word (c ∷ cs) ∷ words (after_word (c ∷ cs))
unfolding words_from word after_word words
words_cons c cs h = ground (arith, words_from-word c [] cs)

length-skip_separators : (l : Bytes) → length (skip_separators l) ≤ length l
unfolding skip_separators
length-skip_separators [] = omega arith
length-skip_separators (c ∷ cs) = ground (arith, length-skip_separators cs)

length-after_word : (l : Bytes) → length (after_word l) ≤ length l
unfolding after_word
length-after_word [] = omega arith
length-after_word (c ∷ cs) = ground (arith, length-after_word cs)

length-after_word_lt :
    (c : ℕ) (cs : Bytes) → is_separator c ≡ false → length (after_word (c ∷ cs)) ≤ length cs
unfolding after_word
length-after_word_lt c cs h = ground (arith, length-after_word cs)

add_words-eq-add_all :
    (fuel : ℕ) (m : Memory) (s : Permset) (l : Bytes) (grant request all : Bool)
    → length l ≤ fuel
    → Starts l
    → add_words fuel m s l grant request all ≡ some (add_all m s (words l) grant request all)
unfolding add_words add_all
add_words-eq-add_all fuel m s [] grant request all h st = unfold words words_from in refl
add_words-eq-add_all zero m s (c ∷ cs) grant request all h st = absurd (omega arith)
add_words-eq-add_all (suc fuel) m s (c ∷ cs) grant request all h st =
    let next = skip_separators (after_word (c ∷ cs)) in
    let (rc, s', m') = add m s (word (c ∷ cs)) grant request in
    let rest : add_words fuel m' s' next grant request (all && is_one rc)
        ≡ some (add_all m' s' (words next) grant request (all && is_one rc)) =
      add_words-eq-add_all fuel m' s' next grant request (all && is_one rc)
        (omega (arith, length-skip_separators (after_word (c ∷ cs)), length-after_word_lt c cs st))
        (skip_separators-Starts (after_word (c ∷ cs))) in
    rw (words_cons c cs st)
      (rw rest (rw (words-skip_separators (after_word (c ∷ cs))) (ground arith)))

-- On every text, `add_list` ends, and does what `add` on each of its words in turn does, stopping at
-- the first failure; where none fails it returns 1 if every call returned 1, and 0 if not.
pub add_list-eq-add_all :
    (m : Memory) (s : Permset) (l : Bytes) (grant request : Bool)
    → add_list m s l grant request ≡ some (add_all m s (words l) grant request true)
unfolding add_list
add_list-eq-add_all m s l grant request = rw (← words-skip_separators l) (
    add_words-eq-add_all (length l) m s (skip_separators l) grant request true
      (length-skip_separators l) (skip_separators-Starts l))

pub contains : Bytes → List Bytes → Bool
contains name [] = false
contains name (w ∷ ws) = equal w name || contains name ws

abbrev pub granted_of : Option Permission → Bool
granted_of none = false
granted_of (some p) = p.granted

abbrev pub requested_of : Option Permission → Bool
requested_of none = false
requested_of (some p) = p.requested

-- The flags of every name, after the additions of some names with `grant` and `request`.
pub record Added (s t : Permset) (names : List Bytes) (grant request : Bool) (j : Bytes)
    : Type 0 where
  pub recorded : is_some (get t j) ≡ (is_some (get s j) || contains j names)
  pub granted : granted_of (get t j) ≡ (granted_of (get s j) || (grant && contains j names))
  pub requested : requested_of (get t j) ≡ (requested_of (get s j) || (request && contains j names))

add-Added :
    (m : Memory) (s : Permset) (w : Bytes) (grant request : Bool) (j : Bytes)
    → is_neg (add m s w grant request).0 ≡ false
    → Added s (add m s w grant request).1 (w ∷ []) grant request j
unfolding contains
add-Added m s w grant request j h = ground (arith, get-add m s w j grant request h, equal_iff w j)

Added-cons :
    {s t u : Permset} (w : Bytes) (ws : List Bytes) (grant request : Bool) (j : Bytes)
    → Added s t (w ∷ []) grant request j
    → Added t u ws grant request j
    → Added s u (w ∷ ws) grant request j
unfolding contains
Added-cons w ws grant request j a b = ground arith

add_all-Added :
    (m : Memory) (s : Permset) (ws : List Bytes) (grant request all : Bool) (j : Bytes)
    → is_neg (add_all m s ws grant request all).0 ≡ false
    → Added s (add_all m s ws grant request all).1 ws grant request j
unfolding add_all
add_all-Added m s [] grant request all j h = unfold contains in ground arith
add_all-Added m s (w ∷ ws) grant request all j h =
    elim (Bool-cases (is_neg (add m s w grant request).0)) [
      | inl e ↦ ground (arith, e)
      | inr e ↦
          let (rc, s', m') = add m s w grant request in
          rw e (
            Added-cons w ws grant request j (add-Added m s w grant request j e)
              (add_all-Added m' s' ws grant request (all && is_one rc) j (rw e at h)))
    ]

-- Where `add_list` does not fail, exactly the words of the list are new in the set, and each flag
-- is set where it was set before or where it was asked for on a word of the list.
pub add_list-Added :
    (m : Memory) (s : Permset) (l : Bytes) (grant request : Bool) (j : Bytes)
    → {r : ℤ × Permset × Memory} → add_list m s l grant request ≡ some r
    → is_neg r.0 ≡ false
    → Added s r.1 (words l) grant request j
add_list-Added m s l grant request j {r} e h =
    let same : add_all m s (words l) grant request true ≡ r =
      cc (add_list-eq-add_all m s l grant request) in
    rw (← same) (add_all-Added m s (words l) grant request true j (rw same h))
