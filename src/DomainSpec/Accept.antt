-- ===== src/DomainSpec/Accept.antt =====
-- utils/domain-spec.c: the specifications that `get_domain_spec_of_string` gives.
use afb_app_manager.Base.{
  ℕ, zero, suc, ◌≤◌, true, false, [], ◌∷◌, Bytes, ◌≡◌, refl, arith, some, length, take, ℤ, pos,
  Memory, Bool-cases, inl, inr,
}
use afb_app_manager.DomainSpec.{
  Spec, before_comma, after_comma, read_domain, read_domains, get_domain_spec_of_string, is_zero,
  add_domain_len,
}
use afb_app_manager.DomainSpec.Parse.{IsWellFormed, has_comma}

take-before_comma : (t : Bytes) → take (length (before_comma t)) t ≡ before_comma t
unfolding before_comma
take-before_comma [] = refl
take-before_comma (c ∷ cs) = ground (arith, take-before_comma cs)

has_comma-before_comma : (t : Bytes) → has_comma (before_comma t) ≡ false
unfolding before_comma has_comma
has_comma-before_comma [] = refl
has_comma-before_comma (c ∷ cs) = ground (arith, has_comma-before_comma cs)

length-after_comma : (t : Bytes) → length (after_comma t) ≤ length t
unfolding after_comma
length-after_comma [] = omega arith
length-after_comma (c ∷ cs) = ground (arith, length-after_comma cs)

read_domain-IsWellFormed :
    (m : Memory) (spec : Spec) (op : ℕ) (t : Bytes)
    → IsWellFormed spec
    → is_zero (read_domain m spec op t).0 ≡ true
    → IsWellFormed (read_domain m spec op t).1
unfolding read_domain add_domain_len
read_domain-IsWellFormed m spec op t w h =
    ground (arith, take-before_comma t, has_comma-before_comma t)

read_domains-IsWellFormed :
    (fuel : ℕ) (m : Memory) (spec : Spec) (t : Bytes)
    → length t ≤ fuel
    → IsWellFormed spec
    → (r : ℤ × Spec × Memory) × (read_domains fuel m spec t ≡ some r)
      × (is_zero r.0 ≡ true → IsWellFormed r.1)
unfolding read_domains
read_domains-IsWellFormed fuel m spec [] k w = ((pos 0, spec, m), refl, λ _. w)
read_domains-IsWellFormed zero m spec (op ∷ t) k w = absurd (omega arith)
read_domains-IsWellFormed (suc fuel) m spec (op ∷ t) k w =
    let (rc, spec', m') = read_domain m spec op t in
    elim (Bool-cases (is_zero rc)) [
      | inl e ↦
          let (r, runs, good) =
            read_domains-IsWellFormed fuel m' spec' (after_comma t)
              (omega (arith, length-after_comma t)) (read_domain-IsWellFormed m spec op t w e) in
          (r, rw e runs, good)
      | inr e ↦ ((rc, spec', m'), rw e, λ z. cc)
    ]

pub get_domain_spec_of_string-IsWellFormed :
    (m : Memory) (t : Bytes)
    → (r : ℤ × Spec × Memory) × (get_domain_spec_of_string m t [] ≡ some r)
      × (is_zero r.0 ≡ true → IsWellFormed r.1)
      × (is_zero r.0 ≡ false → r.1 ≡ [])
unfolding get_domain_spec_of_string
get_domain_spec_of_string-IsWellFormed m t =
    let (r, runs, good) =
      read_domains-IsWellFormed (length t) m [] t (omega arith)
        (record { distinct = tt; plain = tt }) in
    elim (Bool-cases (is_zero r.0)) [
      | inl e ↦ (r, rw (runs, e), good, λ z. cc)
      | inr e ↦ ((r.0, [], r.2), rw (runs, e), λ z. cc, λ _. refl)
    ]
