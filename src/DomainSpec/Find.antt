-- ===== src/DomainSpec/Find.antt =====
-- utils/domain-spec.c: the searches, and what they find after each kind of write.
use afb_app_manager.Base.{
  ℕ, Option, none, some, [], ◌∷◌, Bytes, equal, equal_iff, ◌≡◌, refl, arith, if◌then◌else◌,
  take-length,
}
use afb_app_manager.DomainSpec.{Domain, Spec, find, get_domain, unlink, assign}

-- What a specification says of a name; `none`, 0, if it has no entry.
abbrev pub permission_in : Option Domain → ℕ
permission_in none = 0
permission_in (some d) = d.permission

abbrev pub permission_of : Spec → Bytes → ℕ
permission_of spec name = permission_in (find name spec)

pub get_domain-eq-find : (spec : Spec) (name : Bytes) → get_domain spec name ≡ find name spec
get_domain-eq-find spec name = rw take-length

-- No two entries have the same name.
abbrev pub Distinct : Spec → Type 0
Distinct [] = Unit
Distinct (d ∷ ds) = (find d.name ds ≡ none) × Distinct ds

pub find-assign :
    (name j : Bytes) (perm : ℕ) (ds : Spec)
    → permission_in (find j (assign name perm ds)) ≡ (
        if equal name j
        then elim (find j ds) [ none ↦ 0 | some _ ↦ perm ]
        else permission_in (find j ds))
unfolding find assign
find-assign name j perm [] = ground arith
find-assign name j perm (d ∷ ds) =
    ground (
      arith,
      find-assign name j perm ds,
      equal_iff d.name name,
      equal_iff d.name j,
      equal_iff name j,
    )

pub find-unlink :
    (name j : Bytes) (ds : Spec)
    → Distinct ds
    → find j (unlink name ds) ≡ (if equal name j then none else find j ds)
unfolding find unlink
find-unlink name j [] h = ground arith
find-unlink name j (d ∷ ds) h =
    ground (
      arith,
      find-unlink name j ds h.1,
      equal_iff d.name name,
      equal_iff d.name j,
      equal_iff name j,
    )

-- A name that is in no entry stays so.
pub find-assign-none :
    (name j : Bytes) (perm : ℕ) (ds : Spec) → find j ds ≡ none → find j (assign name perm ds) ≡ none
unfolding find assign
find-assign-none name j perm [] h = refl
find-assign-none name j perm (d ∷ ds) h = ground (arith, find-assign-none name j perm ds)

pub find-unlink-none :
    (name j : Bytes) (ds : Spec) → find j ds ≡ none → find j (unlink name ds) ≡ none
unfolding find unlink
find-unlink-none name j [] h = refl
find-unlink-none name j (d ∷ ds) h = ground (arith, find-unlink-none name j ds)

pub Distinct-assign :
    (name : Bytes) (perm : ℕ) (ds : Spec) → Distinct ds → Distinct (assign name perm ds)
unfolding assign
Distinct-assign name perm [] h = h
Distinct-assign name perm (d ∷ ds) h =
    ground (arith, Distinct-assign name perm ds h.1, find-assign-none name d.name perm ds h.0)

pub Distinct-unlink : (name : Bytes) (ds : Spec) → Distinct ds → Distinct (unlink name ds)
unfolding unlink
Distinct-unlink name [] h = h
Distinct-unlink name (d ∷ ds) h =
    ground (arith, Distinct-unlink name ds h.1, find-unlink-none name d.name ds h.0)
