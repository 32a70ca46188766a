-- ===== src/FileTypes/Defaults.antt =====
-- afmpkg/afmpkg.c: every entry of a package gets a type.
use afb_app_manager.Base.{
  ℕ, Bool, true, false, not, [], Bytes, ℤ, pos, negsuc, if◌then◌else◌, ◌≡◌, ◌≢◌, refl, arith,
  Option-cases, inl, inr,
}
use afb_app_manager.PathEntry.{Label, entry, Children, nil, cons}
use afb_app_manager.PathEntry.Walk.{Walk, extend}
use afb_app_manager.FileTypes.{
  type_of_label, put_state_rc, default_entry, give_default, default_type, default_types, is_ok,
  Stat, Status, failed, regular, directory, other,
}
use afb_app_manager.FileTypes.Opening.{set_label_type_done}
use afb_app_manager.FileTypes.Ample.{default_entry-Ample, default_types-Ample}

-- The same tree with a type on each entry, which is the one it had if it had one.
unfoldable pub Settled : Children → Children → Type 0
Settled nil nil = Unit
Settled (cons (entry l cs) es) (cons (entry k ds) fs) =
    (type_of_label k ≢ 0)
    × (type_of_label l ≢ 0 → type_of_label k ≡ type_of_label l)
    × Settled cs ds
    × Settled es fs
Settled _ _ = true ≡ false

default_type_ne : (stat : Stat) (parent : ℕ) (name : Bytes) → default_type stat parent name ≢ 0
default_type_ne stat parent name e = ground (arith, e)

abbrev Settles : Label → Label → Type 0
Settles l k = (type_of_label k ≢ 0) × (type_of_label l ≢ 0 → type_of_label k ≡ type_of_label l)

give_default-Settles :
    (stat : Stat) (parent : ℕ) (l : Label) → Settles l ((give_default [] stat parent l).1)
give_default-Settles stat parent l = ground (
  arith,
  set_label_type_done l (default_type stat parent l.name),
  default_type_ne stat parent l.name,
)

default_entry-Settles :
    (stat : Stat) (parent : ℕ) (l : Label)
    → is_ok ((default_entry [] stat parent l).0) ≡ true
    → Settles l ((default_entry [] stat parent l).1)
default_entry-Settles (failed e) parent l h = absurd (ground (arith, h))
default_entry-Settles other parent l h = absurd (ground (arith, h))
default_entry-Settles regular parent l h = give_default-Settles regular parent l
default_entry-Settles directory parent l h = give_default-Settles directory parent l

ok_zero : (rc : ℤ) → is_ok rc ≡ true → rc ≡ pos 0
ok_zero (pos n) h = ground (arith, h)
ok_zero (negsuc n) h = absurd (ground (arith, h))

-- The codes of the three parts of a step, where the step gives 0.
parts_ok :
    (b1 b2 : Bool) (x y z : ℤ × Children × Status)
    → (b1 ≡ false → (x.0 ≡ pos 0 → true ≡ false))
    → (b2 ≡ false → (y.0 ≡ pos 0 → true ≡ false))
    → (if not b1 then x else if not b2 then y else z).0 ≡ pos 0
    → (b1 ≡ true) × (b2 ≡ true) × (z.0 ≡ pos 0)
parts_ok true true x y z p q e = (refl, refl, e)
parts_ok true false x y z p q e = absurd (ground (arith, q refl e))
parts_ok false b2 x y z p q e = absurd (ground (arith, p refl e))

not_ok : (rc : ℤ) → is_ok rc ≡ false → rc ≡ pos 0 → true ≡ false
not_ok rc h e = rw e at h

-- Where the walk over the entries below a package returns 0, with memory at hand, it has not changed
-- the tree but for the types: every entry has one, and an entry that had one has the same.
default_types-Settled :
    (w : Walk) (stat : Bytes → Stat) (parent : ℕ) (path : Bytes) (s : Status) (cs : Children)
    → s.1 ≡ []
    → (default_types w stat parent path s cs).0 ≡ pos 0
    → Settled cs (default_types w stat parent path s cs).1
unfolding default_types Settled
default_types-Settled w stat parent path s nil a h = tt
default_types-Settled w stat parent path s (cons (entry l cs) es) a h =
    elim (Option-cases (extend w path l)) [
      | inl e ↦ absurd (ground (arith, rw (default_types, e) at h))
      | inr (p, e) ↦
          let d1 = default_entry s.1 (stat p) parent l in
          let b : d1.2 ≡ [] = rw a (default_entry-Ample (stat p) parent l) in
          let s1 : Status = (put_state_rc s.0 d1.0, d1.2) in
          let r2 = default_types w stat (type_of_label d1.1) p s1 cs in
          let c : r2.2.1 ≡ [] = default_types-Ample w stat (type_of_label d1.1) p s1 cs b in
          let r3 = default_types w stat parent path r2.2 es in
          let (o1, o2, z) =
            parts_ok (is_ok d1.0) (is_ok r2.0) (d1.0, cons (entry d1.1 cs) es, s1)
              (r2.0, cons (entry d1.1 r2.1) es, r2.2) (r3.0, cons (entry d1.1 r2.1) r3.1, r3.2)
              (not_ok d1.0) (not_ok r2.0) (rw (default_types, e) at h) in
          let head : Settles l d1.1 = rw a (default_entry-Settles (stat p) parent l (rw a at o1)) in
          let below =
            default_types-Settled w stat (type_of_label d1.1) p s1 cs b (ok_zero r2.0 o2) in
          let after = default_types-Settled w stat parent path r2.2 es c z in
          rw (default_types, e, o1, o2) (head.0, head.1, below, after)
    ]
