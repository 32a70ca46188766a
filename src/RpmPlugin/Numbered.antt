-- ===== src/RpmPlugin/Numbered.antt =====
-- rpm-plugin/redpesk.c: the loop on the records, and the numbers that it gives.
use afb_app_manager.Base.{
  ℕ, suc, ◌+◌, Bool, false, List, [], ◌∷◌, ◌++◌, All, ◌==◌, if◌then◌else◌, ◌≡◌, refl, arith,
  Bool-cases, inl, inr,
}
use mathlib.Core.List.{map}
use afb_app_manager.RpmPlugin.{
  tr_added, tr_removed, tr_other, is_type, Element, Record, visit, for_each_record, number_count,
  number,
}

-- The records of other transactions.
abbrev pub Foreign : ℕ → List Record → Type 0
Foreign ts rs = All (λ r. (r.ts == ts) ≡ false) rs

module _ {C : Type 0} (ts : ℕ) (fun : Record → C → Bool × Record × C) where
  pub for_each_record-Foreign :
      (rs : List Record) (c : C) → Foreign ts rs → for_each_record ts fun rs c ≡ (rs, c)
  unfolding for_each_record
  for_each_record-Foreign [] c f = refl
  for_each_record-Foreign (r ∷ rs) c (e, f) = rw (e, for_each_record-Foreign rs c f) refl

  pub for_each_record-append :
      (xs ys : List Record) (c : C)
      → for_each_record ts fun (xs ++ ys) c ≡ (
          let (xs', c') = for_each_record ts fun xs c in
          let (ys', c2) = for_each_record ts fun ys c' in (xs' ++ ys', c2))
  unfolding for_each_record
  for_each_record-append [] ys c = refl
  for_each_record-append (x ∷ xs) ys c =
      let (drop, r', c') = visit ts fun x c in
      elim (Bool-cases drop) [
        | inl e ↦ rw (e, for_each_record-append xs ys c') refl
        | inr e ↦ rw (e, for_each_record-append xs ys c') refl
      ]

-- A removal or an addition.
abbrev pub IsKept : Element → Type 0
IsKept e = is_type e.type tr_other ≡ false

abbrev pub is_removed : Element → Bool
is_removed e = is_type e.type tr_removed

abbrev pub removes : List Element → ℕ
removes [] = 0
removes (e ∷ es) = if is_removed e then suc (removes es) else removes es

module _ (ts n : ℕ) where
  abbrev pub with_index : ℕ → Element → Record
  with_index i e = record { ts = ts; index = i; count = n; te = e }

  abbrev pub unnumbered : List Element → List Record
  unnumbered es = map (with_index 0) es

  -- The removals from one number on, and the others with no number.
  unfoldable pub numbered_removes : ℕ → List Element → List Record
  numbered_removes i [] = []
  numbered_removes i (e ∷ es) =
      if is_removed e
      then with_index (suc i) e ∷ numbered_removes (suc i) es
      else with_index 0 e ∷ numbered_removes i es

  -- The additions too.
  unfoldable pub numbered_all : ℕ → ℕ → List Element → List Record
  numbered_all i j [] = []
  numbered_all i j (e ∷ es) =
      if is_removed e
      then with_index (suc i) e ∷ numbered_all (suc i) j es
      else with_index (suc j) e ∷ numbered_all i (suc j) es

  pub count_step :
      (es : List Element) (c : ℕ)
      → for_each_record ts
          (number_count n)
          (map (λ e. record { ts = ts; index = 0; count = 0; te = e }) es)
          c
        ≡ (unnumbered es, c)
  unfolding for_each_record
  count_step [] c = refl
  count_step (e ∷ es) c = ground (arith, count_step es c)

  pub removes_step :
      (es : List Element) (i : ℕ)
      → for_each_record ts (number tr_removed) (unnumbered es) i
        ≡ (numbered_removes i es, i + removes es)
  unfolding for_each_record numbered_removes
  removes_step [] i = ground arith
  removes_step (e ∷ es) i = ground (arith, removes_step es i, removes_step es (suc i))

  abbrev pub adds : List Element → ℕ
  adds [] = 0
  adds (e ∷ es) = if is_removed e then adds es else suc (adds es)

  pub adds_step :
      (es : List Element) (i j : ℕ)
      → All IsKept es
      → for_each_record ts (number tr_added) (numbered_removes i es) j
        ≡ (numbered_all i j es, j + adds es)
  unfolding for_each_record numbered_removes numbered_all
  adds_step [] i j k = ground arith
  adds_step (e ∷ es) i j (k, ks) =
      ground (arith, adds_step es i (suc j) ks, adds_step es (suc i) j ks)

  -- A step on the records of the transaction, in front of those of others.
  pub step-append :
      {C : Type 0} (fun : Record → C → Bool × Record × C) (xs ys others : List Record) (c d : C)
      → for_each_record ts fun xs c ≡ (ys, d)
      → Foreign ts others
      → for_each_record ts fun (xs ++ others) c ≡ (ys ++ others, d)
  step-append fun xs ys others c d e f =
      rw (for_each_record-append ts fun xs others c, e, for_each_record-Foreign ts fun others d f)
        refl
