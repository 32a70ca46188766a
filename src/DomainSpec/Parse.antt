-- ===== src/DomainSpec/Parse.antt =====
-- utils/domain-spec.c: what `get_domain_spec_of_string` accepts, and that it reads back the texts
-- of `get_string_of_domain_spec`.
use mathlib.Core.List.{append-nil, append_assoc}
use afb_app_manager.Base.{
  ℕ, zero, suc, ◌≤◌, Bool, true, false, ◌||◌, ◌&&◌, [], ◌∷◌, ◌++◌, Bytes, ◌≡◌, ◌≢◌, refl, ◌∙◌,
  arith, none, some, length, length-append, take, All, equal_iff, ◌==◌, pos, ltb, length-zero,
}
use afb_app_manager.DomainSpec.{
  Domain, Spec, find, is_written, string_of, write_domains, tag, before_comma, after_comma,
  read_domain, read_domains, get_domain_spec_of_string, permission_of_tag, add_domain_len,
}
use afb_app_manager.DomainSpec.Find.{permission_of, Distinct}

unfoldable pub has_comma : Bytes → Bool
has_comma [] = false
has_comma (c ∷ cs) = c == b',' || has_comma cs

-- A domain that has a text: a permission other than none, and a name that is not empty and has
-- no comma.
pub record IsPlain (d : Domain) : Type 0 where
  pub permitted : is_written d ≡ true
  pub named : d.name ≢ []
  pub unbroken : has_comma d.name ≡ false

pub record IsWellFormed (spec : Spec) : Type 0 where
  pub distinct : Distinct spec
  pub plain : All IsPlain spec

-- The text of a list behind a domain, and by itself.
abbrev behind : Spec → Bytes
behind [] = []
behind (d ∷ ds) = b',' ∷ tag d.permission ∷ (d.name ++ behind ds)

abbrev text : Spec → Bytes
text [] = []
text (d ∷ ds) = tag d.permission ∷ (d.name ++ behind ds)

write_domains-behind :
    (c : ℕ) (cs : Bytes) (ds : Spec)
    → All IsPlain ds
    → write_domains (c ∷ cs) ds ≡ (c ∷ cs) ++ behind ds
unfolding write_domains
write_domains-behind c cs [] h = rw append-nil
write_domains-behind c cs (d ∷ ds) h =
    rw (h.0.permitted)
      (write_domains-behind c (cs ++ (b',' ∷ tag d.permission ∷ d.name)) ds h.1 ∙ rw append_assoc)

string_of-eq-text : (ds : Spec) → All IsPlain ds → string_of ds ≡ text ds
unfolding write_domains
string_of-eq-text [] h = refl
string_of-eq-text (d ∷ ds) h =
    rw (h.0.permitted) (write_domains-behind (tag d.permission) d.name ds h.1)

before_comma-behind :
    (n : Bytes) (ds : Spec) → has_comma n ≡ false → before_comma (n ++ behind ds) ≡ n
unfolding before_comma has_comma
before_comma-behind [] [] h = refl
before_comma-behind [] (d ∷ ds) h = refl
before_comma-behind (c ∷ cs) ds h = ground (arith, before_comma-behind cs ds)

after_comma-behind :
    (n : Bytes) (ds : Spec) → has_comma n ≡ false → after_comma (n ++ behind ds) ≡ text ds
unfolding after_comma has_comma
after_comma-behind [] [] h = refl
after_comma-behind [] (d ∷ ds) h = refl
after_comma-behind (c ∷ cs) ds h = ground (arith, after_comma-behind cs ds)

take-append : (n rest : Bytes) → take (length n) (n ++ rest) ≡ n
take-append [] rest = refl
take-append (c ∷ cs) rest = rw (take-append cs rest)

permission_of_tag-tag : (n : ℕ) → (ltb 0 n && ltb n 4) ≡ true → permission_of_tag (tag n) ≡ some n
permission_of_tag-tag zero h = cc
permission_of_tag-tag (suc zero) h = refl
permission_of_tag-tag (suc (suc zero)) h = refl
permission_of_tag-tag (suc (suc (suc zero))) h = refl
permission_of_tag-tag (suc (suc (suc (suc n)))) h = ground arith

read_domain-behind :
    (acc : Spec) (d : Domain) (ds : Spec)
    → IsPlain d
    → find d.name acc ≡ none
    → read_domain [] acc (tag d.permission) (d.name ++ behind ds) ≡ (pos 0, d ∷ acc, [])
unfolding read_domain add_domain_len
read_domain-behind acc d ds p h = ground (
  arith,
  before_comma-behind d.name ds p.unbroken,
  permission_of_tag-tag d.permission p.permitted,
  take-append d.name (behind ds),
  length-zero d.name,
  p.named,
)

-- The list with each domain of the second put before it in turn.
abbrev onto : Spec → Spec → Spec
onto acc [] = acc
onto acc (d ∷ ds) = onto (d ∷ acc) ds

abbrev Apart : Spec → Spec → Type 0
Apart acc = All (λ d. find d.name acc ≡ none)

Apart-cons :
    (acc : Spec) (d : Domain) (ds : Spec)
    → find d.name ds ≡ none
    → Apart acc ds
    → Apart (d ∷ acc) ds
unfolding find
Apart-cons acc d [] h a = tt
Apart-cons acc d (e ∷ es) h a = (
  ground (arith, equal_iff e.name d.name, equal_iff d.name e.name),
  Apart-cons acc d es (ground arith) a.1,
)

length-text-behind : (n : Bytes) (ds : Spec) → length (text ds) ≤ length (n ++ behind ds)
length-text-behind n [] = omega arith
length-text-behind n (d ∷ ds) = omega (arith, length-append n (behind (d ∷ ds)))

read_domains-text :
    (ds acc : Spec) (fuel : ℕ)
    → length (text ds) ≤ fuel
    → All IsPlain ds
    → Apart acc ds
    → Distinct ds
    → read_domains fuel [] acc (text ds) ≡ some (pos 0, onto acc ds, [])
unfolding read_domains
read_domains-text [] acc fuel k p a d = refl
read_domains-text (x ∷ xs) acc zero k p a d = absurd (omega arith)
read_domains-text (x ∷ xs) acc (suc fuel) k p a d =
    rw (read_domain-behind acc x xs p.0 a.0, after_comma-behind x.name xs p.0.unbroken)
      (read_domains-text xs (x ∷ acc) fuel (omega (arith, length-text-behind x.name xs)) p.1
        (Apart-cons acc x xs d.0 a.1) d.1)

find-onto :
    (j : Bytes) (ds acc : Spec)
    → Distinct ds
    → Apart acc ds
    → find j (onto acc ds) ≡ elim (find j ds) [ none ↦ find j acc | some d ↦ some d ]
unfolding find
find-onto j [] acc d a = refl
find-onto j (x ∷ xs) acc d a =
    ground (arith, find-onto j xs (x ∷ acc) d.1 (Apart-cons acc x xs d.0 a.1), equal_iff x.name j)

Apart-nil : (ds : Spec) → Apart [] ds
unfolding find
Apart-nil [] = tt
Apart-nil (d ∷ ds) = (refl, Apart-nil ds)

-- Every text that `get_string_of_domain_spec` makes of a well formed specification is accepted, and
-- read back as a specification that says the same of every name.
pub get_domain_spec_of_string-string_of :
    (spec : Spec)
    → IsWellFormed spec
    → (back : Spec) × (get_domain_spec_of_string [] (string_of spec) [] ≡ some (pos 0, back, []))
      × ((j : Bytes) → permission_of back j ≡ permission_of spec j)
unfolding get_domain_spec_of_string
get_domain_spec_of_string-string_of spec w = (
  onto [] spec,
  rw (string_of-eq-text spec w.plain) (
      rw (
        read_domains-text spec [] (length (text spec)) (omega arith) w.plain (Apart-nil spec)
          w.distinct)),
  λ j. unfold find in ground (arith, find-onto j spec [] w.distinct (Apart-nil spec)),
)
