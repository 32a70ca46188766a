-- ===== src/PathEntry/Walk/Trail.antt =====
-- utils/path-entry.c: the calls that a walk makes, as a list that no call changes.
use mathlib.Core.Path.{subst}
use afb_app_manager.Base.{
  ℕ, ◌<◌, Bool, true, false, ◌&&◌, none, some, List, [], ◌∷◌, ◌++◌, Bytes, ℤ, pos, length,
  length-append, if◌then◌else◌, ◌≡◌, refl, ◌∙◌, sym, arith, All, Option-cases, inl, inr,
}
use afb_app_manager.PathEntry.{Label, Entry, entry, Children, nil, cons, children}
use afb_app_manager.PathEntry.Walk.{
  Walk, extend, emits, enametoolong, and_then, call, do_foreach, with_moment,
  path_entry_for_each_in_buffer,
}

pub data Step : Type 0 where
  visit : Entry → Bytes → Step
  too_long : Step

abbrev visit_if : Bool → Entry → Bytes → List Step
visit_if emit e path = if emit then visit e path ∷ [] else []

-- Every entry below another one, and at its exit after them; a path that is too long ends the walk.
unfoldable pub trail : Walk → Children → Bytes → List Step
trail w nil path = []
trail w (cons (entry l cs) es) path = elim (extend w path l) [
  | none ↦ too_long ∷ []
  | some p ↦
      visit_if (emits w l && w.at_entry) (entry l cs) p
      ++ (trail w cs p ++ (visit_if (emits w l && w.at_exit) (entry l cs) p ++ trail w es path))
]

abbrev pub trail_of : Walk → Bool → Entry → Bytes → List Step
trail_of w silent_root root start =
    trail (with_moment w) (if silent_root then children root else cons root nil) start

module _ {ℓ} {S : Type ℓ} (fun : S → Entry → Bytes → ℤ × S) where
  -- The calls in turn, up to the first that does not return 0.
  unfoldable pub call_all : List Step → S → ℤ × S
  call_all [] s = (pos 0, s)
  call_all (visit e path ∷ more) s = and_then (fun s e path) (call_all more)
  call_all (too_long ∷ more) s = (enametoolong, s)

  and_then_assoc :
      (r : ℤ × S) (f g : S → ℤ × S) → and_then (and_then r f) g ≡ and_then r (λ s. and_then (f s) g)
  and_then_assoc (rc, s) f g = ground arith

  and_then-cong :
      {r q : ℤ × S} {f g : S → ℤ × S} → r ≡ q → ((s : S) → f s ≡ g s) → and_then r f ≡ and_then q g
  and_then-cong e h = λ i. and_then (e i) (λ s. h s i)

  call_all-append :
      (xs ys : List Step) (s : S) → call_all (xs ++ ys) s ≡ and_then (call_all xs s) (call_all ys)
  unfolding call_all
  call_all-append [] ys s = refl
  call_all-append (visit e path ∷ xs) ys s =
      and_then-cong {r = fun s e path} refl (λ x. call_all-append xs ys x)
      ∙ sym (and_then_assoc (fun s e path) (call_all xs) (call_all ys))
  call_all-append (too_long ∷ xs) ys s = refl

  call_all-visit_if :
      (emit : Bool) (e : Entry) (path : Bytes) (s : S)
      → call_all (visit_if emit e path) s ≡ call emit fun e path s
  unfolding call_all
  call_all-visit_if true e path s = ground arith
  call_all-visit_if false e path s = refl

  -- One entry, given what the walk does below it and after it.
  one_entry :
      (a b : Bool) (e : Entry) (p : Bytes) (t u : List Step) (below after : S → ℤ × S) (s : S)
      → ((x : S) → below x ≡ call_all t x)
      → ((x : S) → after x ≡ call_all u x)
      → and_then
          (call a fun e p s)
          (λ s1. and_then (below s1) (λ s2. and_then (call b fun e p s2) after))
        ≡ call_all (visit_if a e p ++ (t ++ (visit_if b e p ++ u))) s
  one_entry a b e p t u below after s hb ha =
      and_then-cong (sym (call_all-visit_if a e p s)) (λ s1.
        and_then-cong (hb s1) (λ s2.
          and_then-cong (sym (call_all-visit_if b e p s2)) ha
          ∙ sym (call_all-append (visit_if b e p) u s2))
        ∙ sym (call_all-append t (visit_if b e p ++ u) s1))
      ∙ sym (call_all-append (visit_if a e p) (t ++ (visit_if b e p ++ u)) s)

  do_foreach-trail :
      (w : Walk) (cs : Children) (path : Bytes) (s : S)
      → do_foreach w fun cs path s ≡ call_all (trail w cs path) s
  unfolding do_foreach trail
  do_foreach-trail w nil path s = unfold call_all in refl
  do_foreach-trail w (cons (entry l cs) es) path s = elim (Option-cases (extend w path l)) [
    | inl n ↦ rw (n, do_foreach, trail) (unfold call_all in refl)
    | inr (p, j) ↦
        rw (j, do_foreach, trail)
          (one_entry (emits w l && w.at_entry) (emits w l && w.at_exit) (entry l cs) p
            (trail w cs p) (trail w es path) (do_foreach w fun cs p) (do_foreach w fun es path) s
            (λ x. do_foreach-trail w cs p x) (λ x. do_foreach-trail w es path x))
  ]

  -- A walk makes the calls of the trail in turn, up to the first that does not return 0 or to the first
  -- path that is too long, and returns the code of that one, or 0.
  pub path_entry_for_each-trail_of :
      (w : Walk) (silent_root : Bool) (root : Entry) (start : Bytes) (s : S)
      → path_entry_for_each_in_buffer w silent_root fun root start s
        ≡ call_all (trail_of w silent_root root start) s
  unfolding path_entry_for_each_in_buffer
  path_entry_for_each-trail_of w true root start s =
      do_foreach-trail (with_moment w) (children root) start s
  path_entry_for_each-trail_of w false root start s =
      do_foreach-trail (with_moment w) (cons root nil) start s

-- The path and the 0 behind it are inside the buffer.
abbrev pub Fits : ℕ → Step → Type 0
Fits size (visit e path) = length path < size
Fits size too_long = Unit

All-append : {A : Type 0} (P : A → Type 0) (xs ys : List A) → All P xs → All P ys → All P (xs ++ ys)
All-append P [] ys a b = b
All-append P (x ∷ xs) ys a b = (a.0, All-append P xs ys a.1 b)

extend_fits :
    (w : Walk) (path : Bytes) (l : Label) (p : Bytes)
    → length path < w.size
    → extend w path l ≡ some p
    → length p < w.size
unfolding extend
extend_fits w path l p h e =
    ground (arith, e, length-append path (b'/' ∷ l.name), length-append path l.name)

visit_if-Fits :
    (w : Walk) (b : Bool) (e : Entry) (p : Bytes)
    → length p < w.size
    → All (Fits w.size) (visit_if b e p)
visit_if-Fits w true e p h = (h, tt)
visit_if-Fits w false e p h = tt

trail-Fits :
    (w : Walk) (cs : Children) (path : Bytes)
    → length path < w.size
    → All (Fits w.size) (trail w cs path)
unfolding trail
trail-Fits w nil path h = tt
trail-Fits w (cons (entry l cs) es) path h = elim (Option-cases (extend w path l)) [
  | inl n ↦ rw (n, trail) (tt, tt)
  | inr (p, j) ↦
      let k : length p < w.size = extend_fits w path l p h j in
      rw (j, trail)
        (All-append (Fits w.size) _ _ (visit_if-Fits w (emits w l && w.at_entry) (entry l cs) p k) (
          All-append (Fits w.size) _ _ (trail-Fits w cs p k) (
            All-append (Fits w.size) _ _ (visit_if-Fits w (emits w l && w.at_exit) (entry l cs) p k)
              (trail-Fits w es path h))))
]

-- From a start that is inside the buffer, every path that is given to the function is inside it too, with
-- its 0.
pub trail_of-Fits :
    (w : Walk) (silent_root : Bool) (root : Entry) (start : Bytes)
    → length start < w.size
    → All (Fits w.size) (trail_of w silent_root root start)
trail_of-Fits w silent_root root start h =
    let same : (with_moment w).size ≡ w.size = ground arith in
    subst (λ n. All (Fits n) (trail_of w silent_root root start)) same
      (trail-Fits (with_moment w) _ start (rw same h))
